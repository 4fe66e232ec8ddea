-- ===== src/Cli/Select/Laws.antt =====
-- The selected interface is the only candidate.
use upc.Common.{
  ℕ, ◌≡◌, refl, sym, ap, ◌∙◌, List, [], ◌∷◌, ◌++◌, Bool, true, false, ◌&&◌, ◌||◌, ◌==◌,
  if◌then◌else◌, none, some, Result, ok, err, diverged, inl, inr, Bool-cases,
}
use upc.Cli.Devices.{
  InterfaceInfo, DeviceInfo, agrees, matches_device, is_some, is_empty, is_vendor, vendor_ifaces,
}
use upc.Cli.Select.{
  ConnectCmd, Candidate, Selection, found, multiple, has_class_filter, default_protocol, unwrap_or,
  add, on_interface, on_interfaces, by_class, Answers, on_probe, on_probes, on_device, by_probe,
  select,
}

-- No interface, the only one, or too many.
unfoldable pub only : List Candidate → Selection
only [] = found none
only (c ∷ []) = found (some c)
only (c ∷ d ∷ cs) = multiple

-- All filters agree with the interface, and it is vendor specific or asked for by its number.
abbrev pub wanted : ConnectCmd → InterfaceInfo → Bool
wanted cmd iface =
    agrees cmd.interface iface.interface_number
    && (agrees cmd.subclass iface.class.sub_class
        && (iface.class.protocol == unwrap_or cmd.protocol default_protocol
            && (is_vendor iface || is_some cmd.interface)))

abbrev pub wanted_on : ConnectCmd → DeviceInfo → List InterfaceInfo → List Candidate
wanted_on cmd dev [] = []
wanted_on cmd dev (iface ∷ is) =
    (if wanted cmd iface then (dev, iface.interface_number) ∷ [] else []) ++ wanted_on cmd dev is

abbrev pub is_upc : Result Bool → Bool
is_upc (ok b) = b
is_upc (err e) = false
is_upc diverged = false

abbrev pub probed_on : Answers → DeviceInfo → List ℕ → List Candidate
probed_on a dev [] = []
probed_on a dev (n ∷ ns) =
    (if is_upc (a.probe dev n) then (dev, n) ∷ [] else []) ++ probed_on a dev ns

-- The candidates of a device that the filters of the command let through.
abbrev pub candidates_on : ConnectCmd → Answers → DeviceInfo → List Candidate
candidates_on cmd a dev =
    if has_class_filter cmd
    then wanted_on cmd dev dev.interfaces
    else if a.opens dev
    then probed_on a dev (vendor_ifaces dev.interfaces)
    else []

unfoldable pub candidates : ConnectCmd → Answers → List DeviceInfo → List Candidate
unfolding has_class_filter matches_device vendor_ifaces
candidates cmd a [] = []
candidates cmd a (dev ∷ devs) =
    (if matches_device cmd.ids dev then candidates_on cmd a dev else []) ++ candidates cmd a devs

adds : List Candidate → Selection → Selection
adds [] s = s
adds (c ∷ cs) s = adds cs (add c s)

adds-append : (cs ds : List Candidate) (s : Selection) → adds (cs ++ ds) s ≡ adds ds (adds cs s)
unfolding adds
adds-append [] ds s = refl
adds-append (c ∷ cs) ds s = adds-append cs ds (add c s)

adds-multiple : (cs : List Candidate) → adds cs multiple ≡ multiple
unfolding adds add
adds-multiple [] = refl
adds-multiple (c ∷ cs) = adds-multiple cs

adds-only : (cs : List Candidate) → adds cs (found none) ≡ only cs
unfolding adds add only
adds-only [] = refl
adds-only (c ∷ []) = refl
adds-only (c ∷ d ∷ cs) = adds-multiple cs

on_interface-adds :
    (cmd : ConnectCmd) (dev : DeviceInfo) (iface : InterfaceInfo) (s : Selection)
    → on_interface cmd dev iface s
      ≡ adds (if wanted cmd iface then (dev, iface.interface_number) ∷ [] else []) s
unfolding on_interface adds
on_interface-adds cmd dev iface s =
    elim (Bool-cases (agrees cmd.interface iface.interface_number)) [
      | inr e ↦ rw e refl
      | inl e ↦ rw e (elim (Bool-cases (agrees cmd.subclass iface.class.sub_class)) [
        | inr e ↦ rw e refl
        | inl e ↦
            rw e
              (elim (Bool-cases (iface.class.protocol == unwrap_or cmd.protocol default_protocol)) [
                | inr e ↦ rw e refl
                | inl e ↦ rw e (elim (Bool-cases (is_vendor iface || is_some cmd.interface)) [
                  | inr e ↦ rw e refl
                  | inl e ↦ rw e refl
                ])
              ])
      ])
    ]

on_interfaces-adds :
    (cmd : ConnectCmd) (dev : DeviceInfo) (is : List InterfaceInfo) (s : Selection)
    → on_interfaces cmd dev is s ≡ adds (wanted_on cmd dev is) s
unfolding on_interfaces adds
on_interfaces-adds cmd dev [] s = refl
on_interfaces-adds cmd dev (iface ∷ is) s =
    on_interfaces-adds cmd dev is _
    ∙ ap (adds (wanted_on cmd dev is)) (on_interface-adds cmd dev iface s)
    ∙ sym (
        adds-append (if wanted cmd iface then (dev, iface.interface_number) ∷ [] else [])
          (wanted_on cmd dev is) s)

on_probe-adds :
    (c : Candidate) (r : Result Bool) (s : Selection)
    → on_probe c r s ≡ adds (if is_upc r then c ∷ [] else []) s
unfolding on_probe adds
on_probe-adds c (ok true) s = refl
on_probe-adds c (ok false) s = refl
on_probe-adds c (err e) s = refl
on_probe-adds c diverged s = refl

on_probes-adds :
    (a : Answers) (dev : DeviceInfo) (ns : List ℕ) (s : Selection)
    → on_probes a dev ns s ≡ adds (probed_on a dev ns) s
unfolding on_probes adds
on_probes-adds a dev [] s = refl
on_probes-adds a dev (n ∷ ns) s =
    on_probes-adds a dev ns _
    ∙ ap (adds (probed_on a dev ns)) (on_probe-adds (dev, n) (a.probe dev n) s)
    ∙ sym
        (adds-append (if is_upc (a.probe dev n) then (dev, n) ∷ [] else []) (probed_on a dev ns) s)

on_open :
    (a : Answers) (dev : DeviceInfo) (ns : List ℕ) (s : Selection)
    → (if is_empty ns then s else on_probes a dev ns s) ≡ adds (probed_on a dev ns) s
unfolding adds
on_open a dev [] s = refl
on_open a dev (n ∷ ns) s = on_probes-adds a dev (n ∷ ns) s

not_open : (ns : List ℕ) (s : Selection) → (if is_empty ns then s else s) ≡ s
not_open [] s = refl
not_open (n ∷ ns) s = refl

by_class-adds :
    (cmd : ConnectCmd) (a : Answers) (devs : List DeviceInfo) (s : Selection)
    → has_class_filter cmd ≡ true
    → by_class cmd devs s ≡ adds (candidates cmd a devs) s
unfolding by_class candidates adds
by_class-adds cmd a [] s e = refl
by_class-adds cmd a (dev ∷ devs) s e = elim (Bool-cases (matches_device cmd.ids dev)) [
  | inr m ↦ rw m (by_class-adds cmd a devs s e)
  | inl m ↦
      rw (m, e)
        (by_class-adds cmd a devs _ e
          ∙ ap (adds (candidates cmd a devs)) (on_interfaces-adds cmd dev dev.interfaces s)
          ∙ sym (adds-append (wanted_on cmd dev dev.interfaces) (candidates cmd a devs) s))
]

on_device-adds :
    (cmd : ConnectCmd) (a : Answers) (dev : DeviceInfo) (s : Selection)
    → has_class_filter cmd ≡ false
    → on_device cmd a dev s
      ≡ adds (if matches_device cmd.ids dev then candidates_on cmd a dev else []) s
unfolding on_device adds
on_device-adds cmd a dev s e = elim (Bool-cases (matches_device cmd.ids dev)) [
  | inr m ↦ rw m refl
  | inl m ↦
      rw (m, e)
        (elim (Bool-cases (a.opens dev)) [
          | inl o ↦ rw o (on_open a dev (vendor_ifaces dev.interfaces) s)
          | inr o ↦ rw o (not_open (vendor_ifaces dev.interfaces) s)
        ])
]

by_probe-adds :
    (cmd : ConnectCmd) (a : Answers) (devs : List DeviceInfo) (s : Selection)
    → has_class_filter cmd ≡ false
    → by_probe cmd a devs s ≡ adds (candidates cmd a devs) s
unfolding by_probe candidates adds
by_probe-adds cmd a [] s e = refl
by_probe-adds cmd a (dev ∷ devs) s e =
    by_probe-adds cmd a devs _ e
    ∙ ap (adds (candidates cmd a devs)) (on_device-adds cmd a dev s e)
    ∙ sym (
        adds-append (if matches_device cmd.ids dev then candidates_on cmd a dev else [])
          (candidates cmd a devs) s)

-- The connect command goes on with an interface exactly where it is the only candidate on all
-- devices: with class filters, an interface that agrees with each of them and is vendor specific or
-- asked for by its number; without, a vendor-specific interface that a probe finds to be UPC on a
-- device that opens.
pub select-only :
    (cmd : ConnectCmd) (a : Answers) (devs : List DeviceInfo)
    → select cmd a devs ≡ only (candidates cmd a devs)
unfolding select
select-only cmd a devs = elim (Bool-cases (has_class_filter cmd)) [
  | inl e ↦ rw e (by_class-adds cmd a devs (found none) e ∙ adds-only (candidates cmd a devs))
  | inr e ↦ rw e (by_probe-adds cmd a devs (found none) e ∙ adds-only (candidates cmd a devs))
]
