-- ===== src/Cli/Print/ListCmd.antt =====
-- src/bin/upc.rs: `ListCmd::exec` with all that it prints.
use upc.Common.{
  ℕ, List, [], ◌∷◌, ◌++◌, Bool, true, false, not, ◌&&◌, ◌||◌, if◌then◌else◌, Option, none, some,
  Result, ok, err, diverged,
}
use upc.Cli.Devices.{
  InterfaceInfo, DeviceInfo, DeviceFilter, matches_device, matches_interface, is_empty,
}
use upc.Cli.Scan.{Row, Answers, find_subclass, info_text, list_ifaces}
use upc.Cli.Commands.{Exit, exit, failure}
use upc.Cli.Texts.{
  upc_info, cannot_open_device, cannot_read, interface_infix, separator, nothing_found,
  cannot_enumerate,
}
use upc.Cli.Print.{
  Line, out, note, Report, no_report, only_lines, ◌and_then◌, Texts, format_decimal, format_ids,
  print_row, device_line, interface_line,
}

module _ (verbose : Bool) (a : Answers) (t : Texts) where
  -- The lines of the interfaces that the filter lets through.
  unfoldable pub interface_lines : DeviceFilter → List InterfaceInfo → List Line
  unfolding matches_interface interface_line
  interface_lines f [] = []
  interface_lines f (i ∷ is) =
      let rest = interface_lines f is in
      if not (matches_interface f i) then rest else out (interface_line t i) ∷ rest

  unfoldable pub print_listed : Row → Line
  unfolding print_row
  print_listed row = if verbose then out (upc_info ++ row.info_str) else out (print_row row)

  unfoldable pub print_info : DeviceInfo → ℕ → Result (List ℕ) → Report
  unfolding print_listed find_subclass info_text format_ids format_decimal
  print_info dev n (ok bytes) = record {
    lines =
        print_listed (record {
          dev_info = dev;
          iface_num = n;
          subclass = find_subclass n dev.interfaces;
          info_str = info_text bytes;
        })
        ∷ [];
    found = true;
  }
  print_info dev n (err e) = only_lines (
      note (
        cannot_read
        ++ format_ids dev
        ++ interface_infix
        ++ format_decimal n
        ++ separator
        ++ t.info_error dev n)
      ∷ [])
  print_info dev n diverged = no_report

  -- `is_open` is whether the device is open; where it does not open, the loop is left.
  unfoldable pub print_infos : DeviceInfo → Bool → List ℕ → Report
  unfolding print_info format_ids
  print_infos dev is_open [] = no_report
  print_infos dev is_open (n ∷ ns) =
      let rest = print_infos dev true ns in
      if is_open || a.opens dev
      then print_info dev n (a.info dev n) and_then rest
      else only_lines
          (note (cannot_open_device ++ format_ids dev ++ separator ++ t.open_error dev) ∷ [])

  unfoldable pub print_listed_device : DeviceFilter → DeviceInfo → Report
  unfolding matches_device list_ifaces interface_lines device_line print_infos
  print_listed_device f dev =
      let ifaces = list_ifaces f dev.interfaces in
      if not (matches_device f.ids dev)
      then no_report
      else if not verbose && is_empty ifaces
      then no_report
      else only_lines
          (if verbose then out (device_line t dev) ∷ interface_lines f dev.interfaces else [])
        and_then print_infos dev false ifaces

  unfoldable pub print_listed_devices : DeviceFilter → List DeviceInfo → Report
  unfolding print_listed_device
  print_listed_devices f [] = no_report
  print_listed_devices f (dev ∷ devs) =
      print_listed_device f dev and_then print_listed_devices f devs

  -- The lines, and the exit code; `none` where the devices cannot be listed.
  unfoldable pub exec_list : DeviceFilter → Option (List DeviceInfo) → List Line × Exit
  unfolding print_listed_devices
  exec_list f none = (note (cannot_enumerate ++ t.list_error) ∷ [], failure)
  exec_list f (some devs) =
      let r = print_listed_devices f devs in
      (r.lines ++ (if not r.found && not verbose then note nothing_found ∷ [] else []), exit 0)
