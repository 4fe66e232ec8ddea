-- ===== src/Cli/Scan/Laws.antt =====
-- The connect command against the scan and list commands.
use mathlib.Core.List.{map-append}
use upc.Common.{
  ℕ, ◌≡◌, refl, sym, ap, ◌∙◌, List, [], ◌∷◌, ◌++◌, map, Bool, true, false, not, ◌||◌, ◌==◌,
  if◌then◌else◌, some, Result, ok, err, diverged, inl, inr, Bool-cases,
}
use upc.Cli.Devices.{
  InterfaceInfo, DeviceInfo, DeviceFilter, agrees, matches_device, matches_interface, is_some,
  is_empty, is_vendor, vendor_ifaces,
}
use upc.Cli.Select.{ConnectCmd, Candidate, has_class_filter, default_protocol, unwrap_or, select}
use upc.Cli.Select as Select
use upc.Cli.Select.Laws.{only, wanted_on, is_upc, probed_on, candidates_on, candidates, select-only}
use upc.Cli.Scan.{
  Row, Answers, on_probe, scan_interfaces, scan_device, scan_rows, list_ifaces, on_info,
  list_interfaces, list_device, list_rows,
}

abbrev pub answers : Answers → Select.Answers
answers a = record { opens = a.opens; probe = a.probe }

-- The interface of a printed line.
abbrev pub candidate : Row → Candidate
candidate r = (r.dev_info, r.iface_num)

on_probe-candidate :
    (a : Answers) (dev : DeviceInfo) (n : ℕ) (r : Result Bool)
    → map candidate (on_probe a dev n r) ≡ (if is_upc r then (dev, n) ∷ [] else [])
unfolding on_probe
on_probe-candidate a dev n (ok true) = refl
on_probe-candidate a dev n (ok false) = refl
on_probe-candidate a dev n (err e) = refl
on_probe-candidate a dev n diverged = refl

scan_interfaces-candidates :
    (a : Answers) (dev : DeviceInfo) (ns : List ℕ)
    → map candidate (scan_interfaces a dev ns) ≡ probed_on (answers a) dev ns
unfolding scan_interfaces
scan_interfaces-candidates a dev [] = refl
scan_interfaces-candidates a dev (n ∷ ns) =
    map-append candidate (on_probe a dev n (a.probe dev n)) (scan_interfaces a dev ns)
    ∙ ap (λ xs. xs ++ map candidate (scan_interfaces a dev ns))
        (on_probe-candidate a dev n (a.probe dev n))
    ∙ ap (λ xs. (if is_upc (a.probe dev n) then (dev, n) ∷ [] else []) ++ xs)
        (scan_interfaces-candidates a dev ns)

scan_open :
    (a : Answers) (dev : DeviceInfo) (ns : List ℕ)
    → map candidate
        (if is_empty ns then [] else if not (a.opens dev) then [] else scan_interfaces a dev ns)
      ≡ (if a.opens dev then probed_on (answers a) dev ns else [])
scan_open a dev [] = elim (Bool-cases (a.opens dev)) [ inl o ↦ rw o refl | inr o ↦ rw o refl ]
scan_open a dev (n ∷ ns) = elim (Bool-cases (a.opens dev)) [
  | inl o ↦ rw o (scan_interfaces-candidates a dev (n ∷ ns))
  | inr o ↦ rw o refl
]

scan_device-candidates :
    (cmd : ConnectCmd) (a : Answers) (dev : DeviceInfo)
    → has_class_filter cmd ≡ false
    → map candidate (scan_device cmd.ids a dev)
      ≡ (if matches_device cmd.ids dev then candidates_on cmd (answers a) dev else [])
unfolding scan_device
scan_device-candidates cmd a dev e = elim (Bool-cases (matches_device cmd.ids dev)) [
  | inr m ↦ rw m refl
  | inl m ↦ rw (m, e) (scan_open a dev (vendor_ifaces dev.interfaces))
]

scan_rows-candidates :
    (cmd : ConnectCmd) (a : Answers) (devs : List DeviceInfo)
    → has_class_filter cmd ≡ false
    → map candidate (scan_rows cmd.ids a devs) ≡ candidates cmd (answers a) devs
unfolding scan_rows candidates
scan_rows-candidates cmd a [] e = refl
scan_rows-candidates cmd a (dev ∷ devs) e =
    map-append candidate (scan_device cmd.ids a dev) (scan_rows cmd.ids a devs)
    ∙ ap (λ xs. xs ++ map candidate (scan_rows cmd.ids a devs)) (scan_device-candidates cmd a dev e)
    ∙ ap
        (λ xs. (if matches_device cmd.ids dev then candidates_on cmd (answers a) dev else []) ++ xs)
        (scan_rows-candidates cmd a devs e)

-- Without class filters, the connect command goes on with an interface exactly where it is the only
-- one that the scan command prints for the same device filters and answers; with none or several it
-- does not.
pub connect-scan :
    (cmd : ConnectCmd) (a : Answers) (devs : List DeviceInfo)
    → has_class_filter cmd ≡ false
    → select cmd (answers a) devs ≡ only (map candidate (scan_rows cmd.ids a devs))
connect-scan cmd a devs e =
    select-only cmd (answers a) devs ∙ ap only (sym (scan_rows-candidates cmd a devs e))

-- The list command with the filters of the connect command, whose default protocol is the same.
abbrev pub filter : ConnectCmd → DeviceFilter
filter cmd = record {
  ids = cmd.ids;
  interface = cmd.interface;
  subclass = cmd.subclass;
  protocol = some (unwrap_or cmd.protocol default_protocol);
}

pairs : DeviceInfo → List ℕ → List Candidate
pairs dev [] = []
pairs dev (n ∷ ns) = (dev, n) ∷ pairs dev ns

list_ifaces-wanted :
    (cmd : ConnectCmd) (dev : DeviceInfo) (is : List InterfaceInfo)
    → pairs dev (list_ifaces (filter cmd) is) ≡ wanted_on cmd dev is
unfolding list_ifaces matches_interface pairs
list_ifaces-wanted cmd dev [] = refl
list_ifaces-wanted cmd dev (i ∷ is) = elim (Bool-cases (agrees cmd.interface i.interface_number)) [
  | inr e ↦ rw e (list_ifaces-wanted cmd dev is)
  | inl e ↦ rw e (elim (Bool-cases (agrees cmd.subclass i.class.sub_class)) [
    | inr e ↦ rw e (list_ifaces-wanted cmd dev is)
    | inl e ↦
        rw e (elim (Bool-cases (i.class.protocol == unwrap_or cmd.protocol default_protocol)) [
          | inr e ↦ rw e (list_ifaces-wanted cmd dev is)
          | inl e ↦ rw e (elim (Bool-cases (is_vendor i || is_some cmd.interface)) [
            | inr e ↦ rw e (list_ifaces-wanted cmd dev is)
            | inl e ↦ rw e (ap (◌∷◌ (dev, i.interface_number)) (list_ifaces-wanted cmd dev is))
          ])
        ])
  ])
]

-- Every interface can be opened and gives its info string.
abbrev pub IsReadable : Answers → Type 0
IsReadable a =
    (dev : DeviceInfo)
    → (a.opens dev ≡ true) × ((n : ℕ) → (bytes : List ℕ) × (a.info dev n ≡ ok bytes))

on_info-candidate :
    (dev : DeviceInfo) (n : ℕ) (r : Result (List ℕ)) (bytes : List ℕ)
    → r ≡ ok bytes
    → map candidate (on_info dev n r) ≡ (dev, n) ∷ []
unfolding on_info
on_info-candidate dev n r bytes e = rw e refl

opened : (is_open opens : Bool) → opens ≡ true → (is_open || opens) ≡ true
opened true opens e = refl
opened false opens e = e

list_interfaces-pairs :
    (a : Answers) (dev : DeviceInfo) (is_open : Bool) (ns : List ℕ)
    → IsReadable a
    → map candidate (list_interfaces a dev is_open ns) ≡ pairs dev ns
unfolding list_interfaces pairs
list_interfaces-pairs a dev is_open [] h = refl
list_interfaces-pairs a dev is_open (n ∷ ns) h =
    let (bytes, e) = (h dev).1 n in
    rw (opened is_open (a.opens dev) (h dev).0) (
      map-append candidate (on_info dev n (a.info dev n)) (list_interfaces a dev true ns)
      ∙ ap (λ xs. xs ++ map candidate (list_interfaces a dev true ns))
          (on_info-candidate dev n (a.info dev n) bytes e)
      ∙ ap (◌∷◌ (dev, n)) (list_interfaces-pairs a dev true ns h))

list_device-candidates :
    (cmd : ConnectCmd) (a : Answers) (dev : DeviceInfo)
    → has_class_filter cmd ≡ true
    → IsReadable a
    → map candidate (list_device (filter cmd) a dev)
      ≡ (if matches_device cmd.ids dev then candidates_on cmd (answers a) dev else [])
unfolding list_device
list_device-candidates cmd a dev e h = elim (Bool-cases (matches_device cmd.ids dev)) [
  | inr m ↦ rw m refl
  | inl m ↦
      rw (m, e)
        (list_interfaces-pairs a dev false (list_ifaces (filter cmd) dev.interfaces) h
          ∙ list_ifaces-wanted cmd dev dev.interfaces)
]

list_rows-candidates :
    (cmd : ConnectCmd) (a : Answers) (devs : List DeviceInfo)
    → has_class_filter cmd ≡ true
    → IsReadable a
    → map candidate (list_rows (filter cmd) a devs) ≡ candidates cmd (answers a) devs
unfolding list_rows candidates
list_rows-candidates cmd a [] e h = refl
list_rows-candidates cmd a (dev ∷ devs) e h =
    map-append candidate (list_device (filter cmd) a dev) (list_rows (filter cmd) a devs)
    ∙ ap (λ xs. xs ++ map candidate (list_rows (filter cmd) a devs))
        (list_device-candidates cmd a dev e h)
    ∙ ap
        (λ xs. (if matches_device cmd.ids dev then candidates_on cmd (answers a) dev else []) ++ xs)
        (list_rows-candidates cmd a devs e h)

-- With class filters, and where every device opens and every info string can be read, the connect
-- command goes on with an interface exactly where it is the only one that the list command prints
-- for the same filters.
pub connect-list :
    (cmd : ConnectCmd) (a : Answers) (devs : List DeviceInfo)
    → has_class_filter cmd ≡ true
    → IsReadable a
    → select cmd (answers a) devs ≡ only (map candidate (list_rows (filter cmd) a devs))
connect-list cmd a devs e h =
    select-only cmd (answers a) devs ∙ ap only (sym (list_rows-candidates cmd a devs e h))
