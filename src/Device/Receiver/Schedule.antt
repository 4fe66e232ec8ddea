-- ===== src/Device/Receiver/Schedule.antt =====
-- `UpcReceiver::recv` while transfers arrive: polls that wait, in between or dropped, change nothing.
use upc.Common.{
  ℕ, zero, suc, ◌≡◌, refl, sym, ap, ◌∙◌, List, [], ◌∷◌, ◌++◌, false, ltb, if◌then◌else◌, some,
  invalid_data, ok, err, Poll, ready, pending, Bool-cases, inl, inr,
}
use mathlib.Core.Path.{subst}
use mathlib.Core.List.{append_assoc}
use upc.Common.Lists.{length}
use upc.Device.Receiver.{UpcReceiver, Received, recv_loop, recv, end_of_channel}

-- The task of the connection puts transfers into the queue.
unfoldable pub arrive : List (List ℕ) → UpcReceiver → UpcReceiver
arrive ts r = record r { rx = r.rx ++ ts }

any_queue :
    (q x : List (List ℕ)) (r : UpcReceiver) → recv_loop q (record r { rx = x }) ≡ recv_loop q r
unfolding recv_loop
any_queue [] x r = refl
any_queue (t ∷ q) x r =
    ap
      (λ rest.
        if ltb r.max_size (length (r.buffer ++ t))
        then (ready (err invalid_data), record r { rx = q; buffer = [] })
        else if ltb (length t) r.max_transfer_size
        then (ready (ok (some (r.buffer ++ t))), record r { rx = q; buffer = [] })
        else rest)
      (any_queue q x (record r { buffer = r.buffer ++ t }))

-- What later transfers change of a poll: nothing where it answers, and where it waits, the next poll
-- goes on from its state.
abbrev Later : List (List ℕ) → Poll Received × UpcReceiver → Poll Received × UpcReceiver → Type 0
Later more (ready x, s) both = both ≡ (ready x, record s { rx = s.rx ++ more })
Later more (pending, s) both = (s.rx ≡ []) × (both ≡ recv_loop more s)

recv_loop-Later :
    (q more : List (List ℕ)) (r : UpcReceiver)
    → r.rx_closed ≡ false
    → Later more (recv_loop q r) (recv_loop (q ++ more) r)
unfolding recv_loop
recv_loop-Later [] more r is_open =
    subst
      (λ closed.
        Later more
          ((if closed then ready (end_of_channel r.error) else pending), record r { rx = [] })
          (recv_loop more r))
      (sym is_open) (refl, sym (any_queue more [] r))
recv_loop-Later (t ∷ q) more r is_open =
    elim (Bool-cases (ltb r.max_size (length (r.buffer ++ t)))) [
      | inl over ↦ rw over refl
      | inr fits ↦ rw fits (elim (Bool-cases (ltb (length t) r.max_transfer_size)) [
        | inl short ↦ rw short refl
        | inr full ↦ rw full (recv_loop-Later q more (record r { buffer = r.buffer ++ t }) is_open)
      ])
    ]

recv_loop-open : (q : List (List ℕ)) (r : UpcReceiver) → (recv_loop q r).1.rx_closed ≡ r.rx_closed
unfolding recv_loop
recv_loop-open [] r = refl
recv_loop-open (t ∷ q) r = elim (Bool-cases (ltb r.max_size (length (r.buffer ++ t)))) [
  | inl over ↦ rw over refl
  | inr fits ↦ rw fits (elim (Bool-cases (ltb (length t) r.max_transfer_size)) [
    | inl short ↦ rw short refl
    | inr full ↦ rw full (recv_loop-open q (record r { buffer = r.buffer ++ t }))
  ])
]

-- What happens to an open receiver.
pub data Step : Type 0 where
  arrives : List ℕ → Step
  polled : Step

abbrev pub arrivals : List Step → List (List ℕ)
arrivals [] = []
arrivals (arrives t ∷ es) = t ∷ arrivals es
arrivals (polled ∷ es) = arrivals es

abbrev pub answer : Poll Received × UpcReceiver → (UpcReceiver → List Received) → List Received
answer (ready x, s) later = x ∷ later s
answer (pending, s) later = later s

-- The answers of the polls, in order.
unfoldable pub answers : List Step → UpcReceiver → List Received
unfolding arrive
answers [] r = []
answers (arrives t ∷ es) r = answers es (arrive (t ∷ []) r)
answers (polled ∷ es) r = answer (recv r) (λ s. answers es s)

-- The answers of so many polls, as long as each of them has one.
unfoldable pub polls : ℕ → UpcReceiver → List Received
polls zero r = []
polls (suc n) r = answer (recv r) (λ s. polls n s)

arrive-arrive :
    (ts us : List (List ℕ)) (r : UpcReceiver) → arrive us (arrive ts r) ≡ arrive (ts ++ us) r
unfolding arrive
arrive-arrive ts us r = ap (λ q. record r { rx = q }) (append_assoc r.rx ts us)

same_polls : (n : ℕ) (r s : UpcReceiver) → recv r ≡ recv s → polls n r ≡ polls n s
unfolding polls
same_polls zero r s e = refl
same_polls (suc n) r s e = ap (λ p. answer p (λ s. polls n s)) e

recv-Later :
    (more : List (List ℕ)) (r : UpcReceiver)
    → r.rx_closed ≡ false
    → Later more (recv r) (recv (arrive more r))
unfolding recv arrive
recv-Later more r is_open =
    subst (Later more (recv_loop r.rx r)) (sym (any_queue (r.rx ++ more) (r.rx ++ more) r))
      (recv_loop-Later r.rx more r is_open)

recv-open : (r : UpcReceiver) → (recv r).1.rx_closed ≡ r.rx_closed
unfolding recv
recv-open r = recv_loop-open r.rx r

go_on :
    (more : List (List ℕ)) (s : UpcReceiver) → s.rx ≡ [] → recv (arrive more s) ≡ recv_loop more s
unfolding recv arrive
go_on more s e =
    ap (λ q. recv_loop q (record s { rx = s.rx ++ more })) (ap (λ q. q ++ more) e)
    ∙ any_queue more (s.rx ++ more) s

after_poll :
    (es : List Step) (r : UpcReceiver) (p : Poll Received × UpcReceiver)
    → Later (arrivals es) p (recv (arrive (arrivals es) r))
    → answers es p.1 ≡ polls (length (answers es p.1)) (arrive (arrivals es) p.1)
    → answer p (λ s. answers es s)
      ≡ polls (length (answer p (λ s. answers es s))) (arrive (arrivals es) r)
unfolding polls arrive
after_poll es r (ready x, s) later ih =
    let n = length (answers es s) in ap (◌∷◌ x) ih ∙ sym (ap (λ p. answer p (λ t. polls n t)) later)
after_poll es r (pending, s) (empty, later) ih =
    ih ∙ same_polls (length (answers es s)) _ _ (go_on (arrivals es) s empty ∙ sym later)

-- While the connection is there, the answers that the device's `recv` gives to polls, however these
-- alternate with arriving transfers, are those of as many polls that find all the transfers there
-- from the start: a poll that waits loses nothing.
pub answers-polls :
    (es : List Step) (r : UpcReceiver)
    → r.rx_closed ≡ false
    → answers es r ≡ polls (length (answers es r)) (arrive (arrivals es) r)
unfolding answers polls
answers-polls [] r is_open = refl
answers-polls (arrives t ∷ es) r is_open =
    answers-polls es (arrive (t ∷ []) r) (unfold arrive in is_open)
    ∙ ap (λ s. polls (length (answers es (arrive (t ∷ []) r))) s)
        (arrive-arrive (t ∷ []) (arrivals es) r)
answers-polls (polled ∷ es) r is_open =
    after_poll es r (recv r) (recv-Later (arrivals es) r is_open)
      (answers-polls es (recv r).1 (recv-open r ∙ is_open))
