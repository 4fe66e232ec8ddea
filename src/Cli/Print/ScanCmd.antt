-- ===== src/Cli/Print/ScanCmd.antt =====
-- src/bin/upc.rs: `ScanCmd::exec` with all that it prints.
use upc.Common.{
  ℕ, List, [], ◌∷◌, ◌++◌, Bool, true, false, not, ◌&&◌, if◌then◌else◌, Option, none, some, Result,
  ok, err, diverged, map,
}
use upc.Cli.Devices.{DeviceInfo, Ids, matches_device, vendor_ifaces, is_empty}
use upc.Cli.Scan.{Row, Answers, find_subclass, read_info}
use upc.Cli.Commands.{Exit, exit, failure}
use upc.Cli.Texts.{
  upc_interface, indented_interface, not_upc, probe_failed, separator, cannot_open, nothing_found,
  cannot_enumerate,
}
use upc.Cli.Print.{
  Line, out, note, Report, no_report, only_lines, ◌and_then◌, Texts, format_decimal, format_ids,
  print_row, device_line, interface_line,
}

module _ (verbose : Bool) (a : Answers) (t : Texts) where
  -- The arm `Ok(true)`.
  unfoldable pub print_found : Row → Line
  unfolding print_row format_decimal
  print_found row =
      if verbose
      then out (upc_interface ++ format_decimal row.iface_num ++ separator ++ row.info_str)
      else out (print_row row)

  unfoldable pub print_probe : DeviceInfo → ℕ → Result Bool → Report
  unfolding print_found find_subclass format_decimal
  print_probe dev n (ok true) = record {
    lines =
        print_found (record {
          dev_info = dev;
          iface_num = n;
          subclass = find_subclass n dev.interfaces;
          info_str = read_info (a.info dev n);
        })
        ∷ [];
    found = true;
  }
  print_probe dev n (ok false) =
      only_lines
        (if verbose then out (indented_interface ++ format_decimal n ++ not_upc) ∷ [] else [])
  print_probe dev n (err e) = only_lines (
      if verbose
      then out (
          indented_interface
          ++ format_decimal n
          ++ probe_failed
          ++ t.probe_error dev n
          ++ (41 ∷ []))
        ∷ []
      else [])
  print_probe dev n diverged = no_report

  unfoldable pub print_probes : DeviceInfo → List ℕ → Report
  unfolding print_probe
  print_probes dev [] = no_report
  print_probes dev (n ∷ ns) = print_probe dev n (a.probe dev n) and_then print_probes dev ns

  unfoldable pub print_device : Ids → DeviceInfo → Report
  unfolding matches_device vendor_ifaces print_probes device_line interface_line format_ids
  print_device f dev =
      let ifaces = vendor_ifaces dev.interfaces in
      if not (matches_device f dev)
      then no_report
      else if not verbose && is_empty ifaces
      then no_report
      else only_lines (
          if verbose
          then out (device_line t dev) ∷ map (λ i. out (interface_line t i)) dev.interfaces
          else [])
        and_then (if is_empty ifaces
            then no_report
            else if not (a.opens dev)
            then only_lines
                (note (cannot_open ++ format_ids dev ++ separator ++ t.open_error dev) ∷ [])
            else print_probes dev ifaces)

  unfoldable pub print_devices : Ids → List DeviceInfo → Report
  unfolding print_device
  print_devices f [] = no_report
  print_devices f (dev ∷ devs) = print_device f dev and_then print_devices f devs

  -- The lines, and the exit code; `none` where the devices cannot be listed.
  unfoldable pub exec_scan : Ids → Option (List DeviceInfo) → List Line × Exit
  unfolding print_devices
  exec_scan f none = (note (cannot_enumerate ++ t.list_error) ∷ [], failure)
  exec_scan f (some devs) =
      let r = print_devices f devs in
      (r.lines ++ (if not r.found && not verbose then note nothing_found ∷ [] else []), exit 0)
