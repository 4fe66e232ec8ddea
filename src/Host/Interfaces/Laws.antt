-- ===== src/Host/Interfaces/Laws.antt =====
-- What `find_interface` finds, what a probe tells, and that the guard excludes.
use upc.Common.{
  ℕ, ◌≡◌, ◌⊎◌, inl, inr, refl, ap, List, [], ◌∷◌, ◌++◌, true, false, Option, none, some, not_found,
  resource_busy, ok, err, arith, Bool-cases,
}
use upc.Common.Lists.{All}
use upc.Protocol.{Class}
use upc.Protocol.CtrlReq
use upc.Host.Errors.{TransferError, UsbErrorKind}
use upc.Host.Interfaces.{
  InterfaceDesc, has_class, find_interface, ControlIn, got, lost, same_bytes, probe, InUse,
  contains, remove, acquire, release,
}

abbrev pub Differs : Class → InterfaceDesc → Type 0
Differs c i = has_class c i ≡ false

-- `find_interface` answers with the number of the first interface of the class, and with NotFound
-- just where there is none.
pub find_interface_first :
    (is : List InterfaceDesc) (c : Class)
    → ((before : List InterfaceDesc) × (i : InterfaceDesc) × (after : List InterfaceDesc) × (is
          ≡ before ++ (i ∷ after))
        × All (Differs c) before
        × (has_class c i ≡ true)
        × (find_interface is c ≡ ok (i.number)))
      ⊎ (All (Differs c) is × (find_interface is c ≡ err not_found))
unfolding find_interface
find_interface_first [] c = inr (tt, refl)
find_interface_first (i ∷ is) c = elim (Bool-cases (has_class c i)) [
  | inl same ↦ inl ([], i, is, refl, tt, same, rw same refl)
  | inr other ↦ elim (find_interface_first is c) [
    | inl (before, j, after, e, differ, same, found) ↦
        inl (i ∷ before, j, after, ap (◌∷◌ i) e, (other, differ), same, rw other found)
    | inr (differ, missing) ↦ inr ((other, differ), rw other missing)
  ]
]

pub same_bytes_eq : (cs bs : List ℕ) → same_bytes cs bs ≡ true → cs ≡ bs
unfolding same_bytes
same_bytes_eq [] [] h = refl
same_bytes_eq [] (b ∷ bs) h = absurd (ground arith)
same_bytes_eq (c ∷ cs) [] h = absurd (ground arith)
same_bytes_eq (c ∷ cs) (b ∷ bs) h =
    let e : c ≡ b = ground arith in let es : cs ≡ bs = same_bytes_eq cs bs (ground arith) in cc

-- If a probe says yes, the interface was claimed and answered with exactly the bytes of the probe
-- response.
pub probe_yes :
    (claim : Option UsbErrorKind) (answer : ControlIn)
    → probe claim answer ≡ ok true
    → (claim ≡ none) × (answer ≡ got CtrlReq.probe_response)
unfolding probe
probe_yes (some e) answer h = absurd (ground arith)
probe_yes none (got bytes) h =
    (refl, ap got (same_bytes_eq bytes CtrlReq.probe_response (ground arith)))
probe_yes none (lost TransferError.stall) h = absurd (ground arith)
probe_yes none (lost TransferError.disconnected) h = absurd (ground arith)
probe_yes none (lost TransferError.cancelled) h = absurd (ground arith)
probe_yes none (lost TransferError.fault) h = absurd (ground arith)
probe_yes none (lost TransferError.invalid_argument) h = absurd (ground arith)
probe_yes none (lost TransferError.unknown) h = absurd (ground arith)

contains-remove : (key : ℕ × ℕ) (set : InUse) → contains key (remove key set) ≡ false
unfolding contains remove
contains-remove key [] = refl
contains-remove (handle, interface) ((h, i) ∷ set) =
    ground (arith, contains-remove (handle, interface) set)

-- A second channel on an interface in use is refused and changes nothing; once the guard is dropped,
-- the interface is free again.
pub guard_excludes :
    (key : ℕ × ℕ) (set : InUse)
    → (acquire key (acquire key set).1 ≡ (err resource_busy, (acquire key set).1))
      × (acquire key (release key set) ≡ (ok key, key ∷ release key set))
unfolding acquire release
guard_excludes (handle, interface) set =
    let free = contains-remove (handle, interface) set in (ground arith, rw free refl)
