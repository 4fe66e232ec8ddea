-- ===== src/Framing/Cut.antt =====
-- How the controller cuts data into packets, and when a zero-length packet has to end it.
use upc.Common.{
  ℕ, zero, suc, ◌+◌, ◌%◌, ◌≤◌, ◌<◌, ◌≡◌, ◌⊎◌, inl, inr, sym, ap, ◌∙◌, List, [], ◌∷◌, ◌++◌, arith,
}
use upc.Common.Lists.{
  length, take, drop, concat, All, All-append, length-append, length-take, length-drop,
  concat-append, take-append-drop,
}
use upc.Framing.{IsFrame}
use upc.Framing.Controller.{Controller, IsFull}
use native.Mathlib.Decide.{dec_lt, ℕ_discrete}
use mathlib.Core.Path.{subst}
use mathlib.Core.List.{append-nil}
use native.Mathlib.Nat.{mod-add-mod, mod-eq_of_lt, zero-add}
use native.Mathlib.Nat

-- `ps` are the packets of the data `d`: full ones, and a short one behind them if `d` is no multiple
-- of the packet size.
abbrev pub Cut : ℕ → List ℕ → List (List ℕ) → Type 0
Cut mps d ps =
    (concat ps ≡ d)
    × (((length d % mps ≡ 0) × All (IsFull mps) ps) ⊎ ((0 < length d % mps) × IsFrame mps ps))

IsFrame-full :
    {mps : ℕ} (ps : List (List ℕ)) {qs : List (List ℕ)}
    → All (IsFull mps) ps
    → IsFrame mps qs
    → IsFrame mps (ps ++ qs)
IsFrame-full [] full frame = frame
IsFrame-full (p ∷ ps) (e, full) frame = IsFrame.more p e (IsFrame-full ps full frame)

pub mod_add : (a b m : ℕ) → a % m ≡ 0 → (a + b) % m ≡ b % m
mod_add a b m h = sym (mod-add-mod a m b) ∙ ap (λ x. (x + b) % m) h ∙ ap (λ x. x % m) (zero-add b)

mod_eq : (a m : ℕ) → a ≡ m → a % m ≡ 0
mod_eq a m h = rw h (Nat.mod_self m)

-- What is cut behind whole packets goes on where they end.
pub Cut-append :
    {mps : ℕ} {a b : List ℕ} (ps : List (List ℕ)) {qs : List (List ℕ)}
    → concat ps ≡ a
    → length a % mps ≡ 0
    → All (IsFull mps) ps
    → Cut mps b qs
    → Cut mps (a ++ b) (ps ++ qs)
Cut-append {mps} {a} {b} ps {qs} same whole full (same', inl (m, full')) = (
  concat-append ps qs ∙ ap (λ x. x ++ concat qs) same ∙ ap (λ x. a ++ x) same',
  inl (
    ap (λ x. x % mps) (length-append a b) ∙ mod_add (length a) (length b) mps whole ∙ m,
    All-append (IsFull mps) ps qs full full',
  ),
)
Cut-append {mps} {a} {b} ps {qs} same whole full (same', inr (m, frame)) = (
  concat-append ps qs ∙ ap (λ x. x ++ concat qs) same ∙ ap (λ x. a ++ x) same',
  inr (
    rw (length-append a b, mod_add (length a) (length b) mps whole) m,
    IsFrame-full ps full frame,
  ),
)

-- Whole packets and a zero-length packet are a frame.
pub IsFrame-zero :
    (mps : ℕ) (ps : List (List ℕ)) → 0 < mps → All (IsFull mps) ps → IsFrame mps (ps ++ ([] ∷ []))
IsFrame-zero mps ps pos full = IsFrame-full ps full (IsFrame.last [] pos)

module _ {mps : ℕ} (c : Controller mps) (pos : 0 < mps) where
  -- The packets of one transfer that is not empty.
  packets-Cut_fuel :
      (fuel : ℕ) (t : List ℕ) → length t ≤ fuel → 0 < length t → Cut mps t (c.packets t)
  packets-Cut_fuel zero t le lo = absurd (omega arith)
  packets-Cut_fuel (suc fuel) t le lo = elim (dec_lt (length t) mps) [
    | yes short ↦
        rw (c.packets_short t short)
          (append-nil t, inr (rw (mod-eq_of_lt short) lo, IsFrame.last t short))
    | no long ↦ elim (ℕ_discrete (length t) mps) [
      | yes exact ↦
          rw (c.packets_full t exact) (append-nil t, inl (mod_eq (length t) mps exact, (exact, tt)))
      | no longer ↦
          let n : length (take mps t) ≡ mps = omega (arith, length-take mps t) in
          let m : 0 < length (drop mps t) = omega (arith, length-drop mps t) in
          subst (λ x. Cut mps x (c.packets x)) (take-append-drop mps t)
            (rw (c.packets_more (take mps t) (drop mps t) n m) (
              Cut-append (take mps t ∷ []) (append-nil (take mps t)) (mod_eq _ mps n) (n, tt)
                (packets-Cut_fuel fuel (drop mps t) (omega (arith, length-drop mps t)) m)))
    ]
  ]

  pub packets-Cut : (t : List ℕ) → 0 < length t → Cut mps t (c.packets t)
  packets-Cut t lo = packets-Cut_fuel (length t) t (omega arith) lo
