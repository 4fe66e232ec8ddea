-- ===== src/Cli/Print/Laws.antt =====
-- The output of scan and list (src/bin/upc.rs) without the option for verbose output, against the rows.
use mathlib.Core.List.{map-append}
use upc.Common.{
  ℕ, ◌≡◌, refl, sym, ap, ◌∙◌, List, [], ◌∷◌, ◌++◌, map, Bool, true, false, not, ◌&&◌, ◌||◌,
  if◌then◌else◌, some, Result, ok, err, diverged, inl, inr, Bool-cases,
}
use upc.Cli.Hex.{parse_hex_u16, format_u16}
use upc.Cli.Hex.Laws.{parse_hex-format}
use upc.Common.Lists.{take, drop}
use upc.Common.{◌<◌, ◌^◌, arith}
use upc.Cli.Devices.{DeviceInfo, Ids, DeviceFilter, matches_device, vendor_ifaces, is_empty}
use upc.Cli.Scan.{
  Row, Answers, on_probe, scan_interfaces, scan_device, scan_rows, list_ifaces, on_info,
  list_interfaces, list_device, list_rows,
}
use upc.Cli.Commands.{exit}
use upc.Cli.Texts.{nothing_found}
use upc.Cli.Print.{
  Line, out, note, Report, no_report, only_lines, ◌and_then◌, Texts, print_row, format_ids,
}
use upc.Cli.Print.ScanCmd.{
  print_found, print_probe, print_probes, print_device, print_devices, exec_scan,
}
use upc.Cli.Print.ListCmd.{
  print_listed, print_info, print_infos, print_listed_device, print_listed_devices, exec_list,
}

-- The lines on stdout.
abbrev pub on_stdout : List Line → List (List ℕ)
on_stdout [] = []
on_stdout (out l ∷ ls) = l ∷ on_stdout ls
on_stdout (note l ∷ ls) = on_stdout ls

on_stdout-append : (ls ms : List Line) → on_stdout (ls ++ ms) ≡ on_stdout ls ++ on_stdout ms
on_stdout-append [] ms = refl
on_stdout-append (out l ∷ ls) ms = ap (◌∷◌ l) (on_stdout-append ls ms)
on_stdout-append (note l ∷ ls) ms = on_stdout-append ls ms

-- A report that prints just these rows on stdout, and knows whether there are any.
record Shows (r : Report) (rows : List Row) : Type 0 where
  printed : on_stdout r.lines ≡ map print_row rows
  flagged : r.found ≡ not (is_empty rows)

Shows-nil : (ls : List Line) → on_stdout ls ≡ [] → Shows (only_lines ls) []
Shows-nil ls e = record { printed = e; flagged = refl }

found-append :
    (xs ys : List Row) → not (is_empty xs) || not (is_empty ys) ≡ not (is_empty (xs ++ ys))
found-append [] ys = refl
found-append (x ∷ xs) ys = refl

Shows-append :
    {r s : Report} {xs ys : List Row} → Shows r xs → Shows s ys → Shows (r and_then s) (xs ++ ys)
Shows-append {r} {s} {xs} {ys} x y = record {
  printed =
      on_stdout-append r.lines s.lines
      ∙ rw (x.printed, y.printed) (sym (map-append print_row xs ys));
  flagged = rw (x.flagged, y.flagged) (found-append xs ys);
}

module _ (a : Answers) (t : Texts) where
  probe-Shows :
      (dev : DeviceInfo) (n : ℕ) (p : Result Bool)
      → Shows (print_probe false a t dev n p) (on_probe a dev n p)
  unfolding print_probe on_probe print_found
  probe-Shows dev n (ok true) = record { printed = refl; flagged = refl }
  probe-Shows dev n (ok false) = Shows-nil [] refl
  probe-Shows dev n (err e) = Shows-nil _ refl
  probe-Shows dev n diverged = Shows-nil [] refl

  probes-Shows :
      (dev : DeviceInfo) (ns : List ℕ)
      → Shows (print_probes false a t dev ns) (scan_interfaces a dev ns)
  unfolding print_probes scan_interfaces
  probes-Shows dev [] = Shows-nil [] refl
  probes-Shows dev (n ∷ ns) = Shows-append (probe-Shows dev n (a.probe dev n)) (probes-Shows dev ns)

  device-Shows :
      (f : Ids) (dev : DeviceInfo) → Shows (print_device false a t f dev) (scan_device f a dev)
  unfolding print_device scan_device
  device-Shows f dev = elim (Bool-cases (matches_device f dev)) [
    | inr other ↦ rw other (Shows-nil [] refl)
    | inl wanted ↦ rw wanted (elim (Bool-cases (is_empty (vendor_ifaces dev.interfaces))) [
      | inl none ↦ rw none (Shows-nil [] refl)
      | inr any ↦ rw any (elim (Bool-cases (a.opens dev)) [
        | inr shut ↦ rw shut (Shows-nil _ refl)
        | inl opened ↦ rw opened (probes-Shows dev (vendor_ifaces dev.interfaces))
      ])
    ])
  ]

  devices-Shows :
      (f : Ids) (devs : List DeviceInfo)
      → Shows (print_devices false a t f devs) (scan_rows f a devs)
  unfolding print_devices scan_rows
  devices-Shows f [] = Shows-nil [] refl
  devices-Shows f (dev ∷ devs) = Shows-append (device-Shows f dev) (devices-Shows f devs)

  info-Shows :
      (dev : DeviceInfo) (n : ℕ) (i : Result (List ℕ))
      → Shows (print_info false a t dev n i) (on_info dev n i)
  unfolding print_info on_info print_listed
  info-Shows dev n (ok bytes) = record { printed = refl; flagged = refl }
  info-Shows dev n (err e) = Shows-nil _ refl
  info-Shows dev n diverged = Shows-nil [] refl

  infos-Shows :
      (dev : DeviceInfo) (is_open : Bool) (ns : List ℕ)
      → Shows (print_infos false a t dev is_open ns) (list_interfaces a dev is_open ns)
  unfolding print_infos list_interfaces
  infos-Shows dev is_open [] = Shows-nil [] refl
  infos-Shows dev is_open (n ∷ ns) = elim (Bool-cases (is_open || a.opens dev)) [
    | inl opened ↦
        rw opened (Shows-append (info-Shows dev n (a.info dev n)) (infos-Shows dev true ns))
    | inr shut ↦ rw shut (Shows-nil _ refl)
  ]

  listed-Shows :
      (f : DeviceFilter) (dev : DeviceInfo)
      → Shows (print_listed_device false a t f dev) (list_device f a dev)
  unfolding print_listed_device list_device list_interfaces
  listed-Shows f dev = elim (Bool-cases (matches_device f.ids dev)) [
    | inr other ↦ rw other (Shows-nil [] refl)
    | inl wanted ↦ rw wanted (wanted-Shows (list_ifaces f dev.interfaces))
  ]
    where
      wanted-Shows :
          (ns : List ℕ)
          → Shows
              (if is_empty ns
                then no_report
                else only_lines [] and_then print_infos false a t dev false ns)
              (list_interfaces a dev false ns)
      wanted-Shows [] = Shows-nil [] refl
      wanted-Shows (n ∷ ns) = infos-Shows dev false (n ∷ ns)

  all_listed-Shows :
      (f : DeviceFilter) (devs : List DeviceInfo)
      → Shows (print_listed_devices false a t f devs) (list_rows f a devs)
  unfolding print_listed_devices list_rows
  all_listed-Shows f [] = Shows-nil [] refl
  all_listed-Shows f (dev ∷ devs) = Shows-append (listed-Shows f dev) (all_listed-Shows f devs)

-- The note behind the rows.
abbrev pub ending : List Row → List Line
ending [] = note nothing_found ∷ []
ending (row ∷ rows) = []

ending_lem :
    {r : Report} {rows : List Row}
    → Shows r rows
    → (if not r.found && not false then note nothing_found ∷ [] else []) ≡ ending rows
ending_lem {rows = []} shows = rw shows.flagged refl
ending_lem {rows = row ∷ rows} shows = rw shows.flagged refl

-- Where the devices can be listed, the scan and list commands without verbose output print on
-- stdout the rows of the interfaces that they find, in order, and end with the exit code 0; the
-- last line is the note that nothing was found just where there is no row.
pub exec-rows :
    (a : Answers) (t : Texts) (f : DeviceFilter) (devs : List DeviceInfo)
    → let scanned = scan_rows f.ids a devs in
      let listed = list_rows f a devs in
      (ls ms : List Line) × (exec_scan false a t f.ids (some devs) ≡ (ls ++ ending scanned, exit 0))
      × (on_stdout ls ≡ map print_row scanned)
      × (exec_list false a t f (some devs) ≡ (ms ++ ending listed, exit 0))
      × (on_stdout ms ≡ map print_row listed)
unfolding exec_scan exec_list
exec-rows a t f devs =
    let scan = devices-Shows a t f.ids devs in
    let list = all_listed-Shows a t f devs in
    (
      (print_devices false a t f.ids devs).lines,
      (print_listed_devices false a t f devs).lines,
      ap (λ ns. ((print_devices false a t f.ids devs).lines ++ ns, exit 0)) (ending_lem scan),
      scan.printed,
      ap (λ ns. ((print_listed_devices false a t f devs).lines ++ ns, exit 0)) (ending_lem list),
      list.printed,
    )

-- The identifiers at the front of a row are arguments that stand for those of the device.
print_row-ids :
    (row : Row)
    → row.dev_info.vendor_id < 2 ^ 16
    → row.dev_info.product_id < 2 ^ 16
    → (parse_hex_u16 (take 4 (print_row row)) ≡ some row.dev_info.vendor_id)
      × (parse_hex_u16 (take 4 (drop 5 (print_row row))) ≡ some row.dev_info.product_id)
unfolding print_row format_ids format_u16
print_row-ids row vid pid = (
  (parse_hex-format row.dev_info.vendor_id 0 vid (omega arith)).0,
  (parse_hex-format row.dev_info.product_id 0 pid (omega arith)).0,
)
