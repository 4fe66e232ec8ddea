-- ===== src/Web/Barrier/Laws.antt =====
-- What the ECHO barrier leaves in the channel, and that it ends.
use upc.Common.{
  ℕ, zero, suc, ◌+◌, ◌≤◌, ◌<◌, ◌≡◌, ◌⊎◌, inl, inr, refl, sym, ap, ◌∙◌, List, [], ◌∷◌, ◌++◌, Option,
  none, some, timed_out, arith, Bool-cases,
}
use upc.Protocol.CtrlReq
use mathlib.Core.Path.{subst}
use mathlib.Core.List.{append_assoc}
use native.Mathlib.Nat.{add-zero}
use upc.Host.Interfaces.{same_bytes}
use upc.Host.Interfaces.Laws.{same_bytes_eq}
use upc.Host.Connect.{Request, output, next, failed, panicked, waiting, Run}
use upc.Web.Errors.{WebErrorKind, web_to_io_err}
use upc.Web.Barrier.{
  Wait, arrived, channel_closed, expired, Awaited, passed, retry, starved, await_marker, on_await,
  on_echo, barrier,
}

-- The rounds that expire.
abbrev pub expirations : List Wait → ℕ
expirations [] = 0
expirations (arrived bytes ∷ ws) = expirations ws
expirations (channel_closed ∷ ws) = expirations ws
expirations (expired ∷ ws) = suc (expirations ws)

-- The last wait of a barrier that is passed.
abbrev pub EndsBy : List ℕ → Wait → Type 0
EndsBy marker w = (w ≡ arrived marker) ⊎ (w ≡ channel_closed)

abbrev IsAwaited : List ℕ → List Wait → Awaited → Type 0
IsAwaited marker ws (passed rest) =
    (before : List Wait) × (w : Wait) × (ws ≡ before ++ (w ∷ rest)) × EndsBy marker w
IsAwaited marker ws (retry rest) =
    ((before : List Wait) × (ws ≡ before ++ (expired ∷ rest)))
    × (suc (expirations rest) ≡ expirations ws)
IsAwaited marker ws starved = expirations ws ≡ 0

IsAwaited-cons :
    (marker bytes : List ℕ) (ws : List Wait) (a : Awaited)
    → IsAwaited marker ws a
    → IsAwaited marker (arrived bytes ∷ ws) a
IsAwaited-cons marker bytes ws (passed rest) (before, w, e, ends) =
    (arrived bytes ∷ before, w, ap (◌∷◌ (arrived bytes)) e, ends)
IsAwaited-cons marker bytes ws (retry rest) ((before, e), n) =
    ((arrived bytes ∷ before, ap (◌∷◌ (arrived bytes)) e), n)
IsAwaited-cons marker bytes ws starved e = e

await_marker-IsAwaited :
    (marker : List ℕ) (ws : List Wait) → IsAwaited marker ws (await_marker marker ws)
unfolding await_marker
await_marker-IsAwaited marker [] = refl
await_marker-IsAwaited marker (arrived bytes ∷ ws) = elim (Bool-cases (same_bytes bytes marker)) [
  | inl same ↦ rw same ([], arrived bytes, refl, inl (ap arrived (same_bytes_eq bytes marker same)))
  | inr other ↦ rw other (IsAwaited-cons marker bytes ws _ (await_marker-IsAwaited marker ws))
]
await_marker-IsAwaited marker (channel_closed ∷ ws) = ([], channel_closed, refl, inr refl)
await_marker-IsAwaited marker (expired ∷ ws) = (([], refl), refl)

module _ (markers : ℕ → List ℕ) (refuses : ℕ → Option WebErrorKind) where
  -- The ECHO requests of the rounds from `i`, so many of them.
  abbrev pub echoes : ℕ → ℕ → List Request
  echoes i zero = []
  echoes i (suc n) = output CtrlReq.echo (markers i) ∷ echoes (suc i) n

  -- How a barrier of so many retries ends.
  abbrev pub IsBarrier : ℕ → ℕ → List Wait → Run (List Wait) → Type 0
  IsBarrier retries i ws (requests, next rest) =
      (n : ℕ) × (before : List Wait) × (w : Wait) × (n < retries)
      × (requests ≡ echoes i (suc n))
      × (ws ≡ before ++ (w ∷ rest))
      × EndsBy (markers (i + n)) w
  IsBarrier retries i ws (requests, failed e) =
      ((e ≡ timed_out) × (requests ≡ echoes i retries))
      ⊎ ((n : ℕ) × (x : WebErrorKind) × (n < retries)
          × (requests ≡ echoes i (suc n))
          × (refuses (i + n) ≡ some x)
          × (e ≡ web_to_io_err x))
  IsBarrier retries i ws (requests, panicked) = ⊥
  IsBarrier retries i ws (requests, waiting) =
      (n : ℕ) × (n ≤ retries) × (requests ≡ echoes i n) × (expirations ws < n)

  next_round : (i n : ℕ) → suc i + n ≡ i + suc n
  next_round i n = omega arith

  -- What holds of the later rounds, seen from the round before them.
  later_rounds :
      (retries i : ℕ) (ws rest before : List Wait) (r : Run (List Wait))
      → ws ≡ before ++ (expired ∷ rest)
      → suc (expirations rest) ≡ expirations ws
      → IsBarrier retries (suc i) rest r
      → IsBarrier (suc retries) i ws (output CtrlReq.echo (markers i) ∷ r.0, r.1)
  later_rounds retries i ws rest before (requests, next left) e count (n, b, w, lt, req, e', ends) =
      (
        suc n,
        before ++ (expired ∷ b),
        w,
        omega arith,
        ap (◌∷◌ (output CtrlReq.echo (markers i))) req,
        e
            ∙ ap (λ x. before ++ (expired ∷ x)) e'
            ∙ sym (append_assoc before (expired ∷ b) (w ∷ left)),
        subst (λ k. EndsBy (markers k) w) (next_round i n) ends,
      )
  later_rounds retries i ws rest before (requests, failed x) e count (inl (late, req)) =
      inl (late, ap (◌∷◌ (output CtrlReq.echo (markers i))) req)
  later_rounds retries i ws rest before (requests, failed x) e count
        (inr (n, y, lt, req, refused, kind)) =
      inr (
        suc n,
        y,
        omega arith,
        ap (◌∷◌ (output CtrlReq.echo (markers i))) req,
        ap refuses (sym (next_round i n)) ∙ refused,
        kind,
      )
  later_rounds retries i ws rest before (requests, panicked) e count h = elim h [ ]
  later_rounds retries i ws rest before (requests, waiting) e count (n, le, req, few) =
      (suc n, omega arith, ap (◌∷◌ (output CtrlReq.echo (markers i))) req, omega arith)

  round :
      (retries i : ℕ) (ws : List Wait) (refusal : Option WebErrorKind) (a : Awaited)
      (again : List Wait → Run (List Wait))
      → refuses i ≡ refusal
      → IsAwaited (markers i) ws a
      → ((rest : List Wait) → IsBarrier retries (suc i) rest (again rest))
      → IsBarrier
          (suc retries)
          i
          ws
          (on_echo (output CtrlReq.echo (markers i)) refusal (on_await a again))
  round retries i ws (some x) a again e h later =
      inr (0, x, omega arith, refl, ap refuses (add-zero i) ∙ e, refl)
  round retries i ws none (passed rest) again e (before, w, split, ends) later = (
    0,
    before,
    w,
    omega arith,
    refl,
    split,
    subst (λ k. EndsBy (markers k) w) (sym (add-zero i)) ends,
  )
  round retries i ws none (retry rest) again e ((before, split), count) later =
      later_rounds retries i ws rest before (again rest) split count (later rest)
  round retries i ws none starved again e count later = (1, omega arith, refl, omega arith)

  -- Whatever comes through the channel, the ECHO barrier of the browser's `connect_with` sends one
  -- ECHO for each of its rounds, with that round's marker. It is passed only on the marker of its
  -- last round or on the end of the channel, with just what came behind left; it fails as TimedOut
  -- after all its rounds, or with the error of its last request; and it waits only where fewer
  -- timeouts came than it has rounds.
  pub barrier-IsBarrier :
      (retries i : ℕ) (ws : List Wait)
      → IsBarrier retries i ws (barrier markers refuses retries i ws)
  unfolding barrier
  barrier-IsBarrier zero i ws = inl (refl, refl)
  barrier-IsBarrier (suc retries) i ws =
      round retries i ws (refuses i) (await_marker (markers i) ws)
        (λ rest. barrier markers refuses retries (suc i) rest) refl
        (await_marker-IsAwaited (markers i) ws) (λ rest. barrier-IsBarrier retries (suc i) rest)
