-- ===== src/Web/Connect/Guard.antt =====
-- The guard against a second channel, as `connect_with` takes it.
use upc.Common.{
  ℕ, zero, suc, ◌≡◌, refl, List, [], ◌∷◌, ◌++◌, true, false, leb, if◌then◌else◌, resource_busy,
}
use Prim.Native.Nat.compare
use upc.Common.Lists.{length, All}
use upc.Host.Interfaces.{InUse, contains, acquire}
use upc.Host.Connect.{next, failed}
use upc.Web.Connect.{take_guard}

-- The set holds the key, so another channel has the interface.
abbrev pub Busy : ℕ × ℕ → InUse → Type 0
Busy key set = contains key set ≡ true

-- Where the interface is busy at the attempts `sets` and then free, the guard is taken if no more retries
-- were needed than are left, and refused with ResourceBusy otherwise.
pub guard_retried :
    (remaining : ℕ) (key : ℕ × ℕ) (sets : List InUse) (free : InUse) (later : List InUse)
    → All (Busy key) sets
    → contains key free ≡ false
    → take_guard remaining key (sets ++ (free ∷ later)) ≡ (
        if leb (length sets) remaining then ([], next (key ∷ free)) else ([], failed resource_busy))
unfolding take_guard acquire
guard_retried zero key [] free later busy e = rw e refl
guard_retried (suc remaining) key [] free later busy e =
    rw (e, leb, compare.zero-suc remaining) refl
guard_retried zero key (set ∷ sets) free later (b, busy) e =
    rw (b, leb, compare.suc-zero (length sets)) refl
guard_retried (suc remaining) key (set ∷ sets) free later (b, busy) e =
    rw (b, leb, compare.suc-suc (length sets) remaining)
      (guard_retried remaining key sets free later busy e)
