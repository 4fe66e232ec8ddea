-- ===== src/Host/Receiver/Schedule.antt =====
-- `UpcReceiver::recv` of src/host/mod.rs while transfers arrive in between its polls.
use upc.Common.{
  ℕ, ◌≤◌, ◌≡◌, inl, inr, refl, sym, ap, ◌∙◌, List, [], ◌∷◌, ◌++◌, false, some, ok, Poll, ready,
  pending, map,
}
use mathlib.Core.Path.{subst}
use mathlib.Core.List.{append_assoc, append-nil}
use upc.Common.Lists.{length, All}
use upc.Host.Receiver.{RecvPacket, UpcReceiver, Received, recv}
use upc.Host.Receiver.Pieces.{pieces, pieces-cons, Polled, recv_loop-Polled}

-- The task of the connection puts transfers into the queue.
abbrev pub arrive : List RecvPacket → UpcReceiver → UpcReceiver
arrive ts r = record r { rx = r.rx ++ ts }

-- What happens to an open receiver.
pub data Step : Type 0 where
  arrives : RecvPacket → Step
  polled : Step

abbrev pub arrivals : List Step → List RecvPacket
arrivals [] = []
arrivals (arrives t ∷ es) = t ∷ arrivals es
arrivals (polled ∷ es) = arrivals es

abbrev after_poll :
    Poll Received × UpcReceiver
    → (UpcReceiver → List Received × UpcReceiver)
    → List Received × UpcReceiver
after_poll (ready x, s) later = let (xs, t) = later s in (x ∷ xs, t)
after_poll (pending, s) later = later s

-- The answers of the polls, in order, and the receiver after them.
unfoldable pub answers : List Step → UpcReceiver → List Received × UpcReceiver
answers [] r = ([], r)
answers (arrives t ∷ es) r = answers es (arrive (t ∷ []) r)
answers (polled ∷ es) r = after_poll (recv r) (λ s. answers es s)

-- The messages that a receiver holds, the last of them not complete.
abbrev pub held : UpcReceiver → List (List ℕ)
held r = pieces r.max_transfer_size r.buffer r.rx

abbrev pub received : List ℕ → Received
received m = ok (some m)

-- What a receiver with these messages answers a poll with.
abbrev pub next_answer : List (List ℕ) → Poll Received
next_answer (m ∷ n ∷ ms) = ready (received m)
next_answer ms = pending

arrive-nil : (r : UpcReceiver) → arrive [] r ≡ r
arrive-nil r = ap (λ q. record r { rx = q }) (append-nil r.rx)

arrive-arrive :
    (t : RecvPacket) (ts : List RecvPacket) (r : UpcReceiver)
    → arrive ts (arrive (t ∷ []) r) ≡ arrive (t ∷ ts) r
arrive-arrive t ts r = ap (λ q. record r { rx = q }) (append_assoc r.rx (t ∷ []) ts)

arrive-open : (ts : List RecvPacket) (r : UpcReceiver) → (arrive ts r).rx_closed ≡ r.rx_closed
arrive-open ts r = refl

recv-Polled :
    (more : List RecvPacket) (r : UpcReceiver)
    → r.rx_closed ≡ false
    → All (λ m. length m ≤ r.max_size) (held (arrive more r))
    → Polled more r (held (arrive more r)) (recv r)
unfolding recv
recv-Polled more r is_open fits = recv_loop-Polled r.rx more r is_open fits

Polled-next_answer :
    (r : UpcReceiver) (whole : List (List ℕ)) (p : Poll Received × UpcReceiver)
    → Polled [] r whole p
    → p.0 ≡ next_answer whole
Polled-next_answer r whole p (inl (m, rest, e, w)) =
    let (n, ms, more) = pieces-cons r.max_transfer_size [] (rest ++ []) in rw (e, w, more) refl
Polled-next_answer r whole p (inr (part, e, w)) = rw (e, w) refl

-- While the connection is there and no message is above the maximum, the answers that the host's
-- `recv` gives to polls, however these alternate with arriving transfers, are the complete messages
-- of these transfers in order, up to those that the receiver still holds, and its next answer is
-- the first complete message that it holds, or to wait where it holds none.
pub answers-held :
    (es : List Step) (r : UpcReceiver)
    → r.rx_closed ≡ false
    → All (λ m. length m ≤ r.max_size) (held (arrive (arrivals es) r))
    → let (xs, s) = answers es r in
      (xs ++ map received (held s) ≡ map received (held (arrive (arrivals es) r)))
      × ((recv s).0 ≡ next_answer (held s))
unfolding answers
answers-held [] r is_open fits =
    let same = arrive-nil r in
    (
      ap (λ s. map received (held s)) (sym same),
      Polled-next_answer r (held r) (recv r)
          (subst (λ s. Polled [] r (held s) (recv r)) same (recv-Polled [] r is_open fits)),
    )
answers-held (arrives t ∷ es) r is_open fits =
    let same = arrive-arrive t (arrivals es) r in
    let (all, waits) =
      answers-held es (arrive (t ∷ []) r) is_open
        (subst (λ s. All (λ m. length m ≤ r.max_size) (held s)) (sym same) fits) in
    (all ∙ ap (λ s. map received (held s)) same, waits)
answers-held (polled ∷ es) r is_open fits = elim (recv-Polled (arrivals es) r is_open fits) [
  | inl (m, rest, e, w) ↦
      let s : UpcReceiver = record r { rx = rest; buffer = [] } in
      let (all, waits) =
        answers-held es s is_open (subst (All (λ m. length m ≤ r.max_size)) w fits).1 in
      rw e (ap (◌∷◌ (received m)) all ∙ sym (ap (map received) w), waits)
  | inr (part, e, w) ↦
      let s : UpcReceiver = record r { rx = []; buffer = part } in
      let (all, waits) =
        answers-held es s is_open (subst (All (λ m. length m ≤ r.max_size)) w fits) in
      rw e (all ∙ sym (ap (map received) w), waits)
]
