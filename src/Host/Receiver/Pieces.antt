-- ===== src/Host/Receiver/Pieces.antt =====
-- The messages that the transfers at a host's `UpcReceiver` make, and what a poll of `recv` leaves of
-- them.
use upc.Common.{
  ℕ, suc, ◌≤◌, ◌≡◌, ◌⊎◌, inl, inr, refl, sym, ap, ◌∙◌, List, [], ◌∷◌, ◌++◌, true, false, ltb,
  if◌then◌else◌, Bool-cases, le→ltb, some, ok, Poll, ready, pending, map, arith,
}
use mathlib.Core.Path.{subst}
use mathlib.Core.List.{append_assoc, append-nil}
use upc.Common.Lists.{length, concat, All, length-append}
use upc.Host.Receiver.{
  RecvPacket, packet_data, UpcReceiver, Received, Batch, drain, take_batch, recv_loop,
}
use upc.Host.Receiver.Reassembly.{add_batch_lem}

-- The messages that transfers make behind the bytes of a buffer; the last one is not complete yet.
abbrev pub pieces : ℕ → List ℕ → List RecvPacket → List (List ℕ)
pieces size buffer [] = buffer ∷ []
pieces size buffer (p ∷ ps) =
    let later = pieces size [] ps in
    let longer = pieces size (buffer ++ packet_data p) ps in
    if ltb (length (packet_data p)) size then (buffer ++ packet_data p) ∷ later else longer

pieces_short :
    (size : ℕ) (buffer : List ℕ) (p : RecvPacket) (ps : List RecvPacket)
    → ltb (length (packet_data p)) size ≡ true
    → pieces size buffer (p ∷ ps) ≡ (buffer ++ packet_data p) ∷ pieces size [] ps
pieces_short size buffer p ps short = rw short refl

pieces_full :
    (size : ℕ) (buffer : List ℕ) (p : RecvPacket) (ps : List RecvPacket)
    → ltb (length (packet_data p)) size ≡ false
    → pieces size buffer (p ∷ ps) ≡ pieces size (buffer ++ packet_data p) ps
pieces_full size buffer p ps full = rw full refl

-- What taking a batch leaves of the messages.
abbrev Taken : ℕ → List ℕ → List RecvPacket → List (List ℕ) → Batch → Type 0
Taken size buffer more whole b =
    ((b.short ≡ true) × (whole ≡ buffer ∷ pieces size [] (b.rest ++ more)))
    ⊎ ((b.short ≡ false) × (b.rest ≡ []) × (whole ≡ pieces size buffer more))

append_front :
    (buffer : List ℕ) (p : RecvPacket) (ps : List RecvPacket)
    → (buffer ++ packet_data p) ++ concat (map packet_data ps)
      ≡ buffer ++ concat (map packet_data (p ∷ ps))
append_front buffer p ps = append_assoc buffer (packet_data p) (concat (map packet_data ps))

drain-Taken :
    (size : ℕ) (buffer : List ℕ) (ps more : List RecvPacket)
    → let b = drain size ps in
      Taken size
        (buffer ++ concat (map packet_data b.batch))
        more
        (pieces size buffer (ps ++ more))
        b
unfolding drain
drain-Taken size buffer [] more =
    inr (refl, refl, sym (ap (λ b. pieces size b more) (append-nil buffer)))
drain-Taken size buffer (p ∷ ps) more = elim (Bool-cases (ltb (length (packet_data p)) size)) [
  | inl short ↦ rw short (
      inl (
        refl,
        sym (ap (λ t. (buffer ++ t) ∷ pieces size [] (ps ++ more)) (append-nil (packet_data p))),
      ))
  | inr full ↦ rw full (
      subst
        (λ b.
          Taken size b more (pieces size (buffer ++ packet_data p) (ps ++ more)) (drain size ps))
        (append_front buffer p (drain size ps).batch)
        (drain-Taken size (buffer ++ packet_data p) ps more))
]

take_batch-Taken :
    (size : ℕ) (buffer : List ℕ) (p : RecvPacket) (ps more : List RecvPacket)
    → let b = take_batch size p ps in
      Taken size
        (buffer ++ concat (map packet_data (p ∷ b.batch)))
        more
        (pieces size buffer (p ∷ (ps ++ more)))
        b
unfolding take_batch
take_batch-Taken size buffer p ps more = elim (Bool-cases (ltb (length (packet_data p)) size)) [
  | inl short ↦ rw short (
      inl (
        refl,
        sym (ap (λ t. (buffer ++ t) ∷ pieces size [] (ps ++ more)) (append-nil (packet_data p))),
      ))
  | inr full ↦ rw full (
      subst
        (λ b.
          Taken size b more (pieces size (buffer ++ packet_data p) (ps ++ more)) (drain size ps))
        (append_front buffer p (drain size ps).batch)
        (drain-Taken size (buffer ++ packet_data p) ps more))
]

-- Where no message is too long, what there is of one is not either.
pieces-front :
    (size max : ℕ) (buffer : List ℕ) (ps : List RecvPacket)
    → All (λ m. length m ≤ max) (pieces size buffer ps)
    → length buffer ≤ max
pieces-front size max buffer [] (fit, u) = fit
pieces-front size max buffer (p ∷ ps) fits = elim (Bool-cases (ltb (length (packet_data p)) size)) [
  | inl short ↦
      let (fit, u) = subst (All (λ m. length m ≤ max)) (pieces_short size buffer p ps short) fits in
      omega (arith, length-append buffer (packet_data p), fit)
  | inr full ↦
      let fit =
        pieces-front size max (buffer ++ packet_data p) ps
          (subst (All (λ m. length m ≤ max)) (pieces_full size buffer p ps full) fits) in
      omega (arith, length-append buffer (packet_data p), fit)
]

-- What a poll leaves of the messages: it takes the first complete one, or waits for more of the last.
abbrev pub Polled :
    List RecvPacket → UpcReceiver → List (List ℕ) → Poll Received × UpcReceiver → Type 0
Polled more r whole answer =
    ((m : List ℕ) × (rest : List RecvPacket) × (answer
        ≡ (ready (ok (some m)), record r { rx = rest; buffer = [] }))
      × (whole ≡ m ∷ pieces r.max_transfer_size [] (rest ++ more)))
    ⊎ ((part : List ℕ) × (answer ≡ (pending, record r { rx = []; buffer = part }))
        × (whole ≡ pieces r.max_transfer_size part more))

abbrev queued_pieces : List RecvPacket → UpcReceiver → List (List ℕ)
queued_pieces q r = pieces r.max_transfer_size r.buffer q

abbrev joined : RecvPacket → List RecvPacket → UpcReceiver → List ℕ
joined p q r = r.buffer ++ concat (map packet_data (p ∷ (take_batch r.max_transfer_size p q).batch))

round_short :
    (fuel : ℕ) (p : RecvPacket) (q : List RecvPacket) (r : UpcReceiver)
    → let b = take_batch r.max_transfer_size p q in
      length (joined p q r) ≤ r.max_size
      → b.short ≡ true
      → recv_loop (suc fuel) (p ∷ q) r
        ≡ (ready (ok (some (joined p q r))), record r { rx = b.rest; buffer = [] })
unfolding recv_loop
round_short fuel p q r fit short =
    rw
      (
        add_batch_lem r.buffer p (take_batch r.max_transfer_size p q).batch,
        le→ltb r.max_size (length (joined p q r)) fit,
        short,
      )
      refl

round_full :
    (fuel : ℕ) (p : RecvPacket) (q : List RecvPacket) (r : UpcReceiver)
    → let b = take_batch r.max_transfer_size p q in
      length (joined p q r) ≤ r.max_size
      → b.short ≡ false
      → b.rest ≡ []
      → r.rx_closed ≡ false
      → recv_loop (suc fuel) (p ∷ q) r ≡ (pending, record r { rx = []; buffer = joined p q r })
unfolding recv_loop
round_full fuel p q r fit full empty is_open =
    rw
      (
        add_batch_lem r.buffer p (take_batch r.max_transfer_size p q).batch,
        le→ltb r.max_size (length (joined p q r)) fit,
        full,
        empty,
        is_open,
      )
      refl

-- While no message is above the maximum, a poll answers with the first complete message, whatever the
-- transfers that arrive later, or it takes all that is queued into the buffer and waits.
pub recv_loop-Polled :
    (q more : List RecvPacket) (r : UpcReceiver)
    → r.rx_closed ≡ false
    → All (λ m. length m ≤ r.max_size) (queued_pieces (q ++ more) r)
    → Polled more r (queued_pieces (q ++ more) r) (recv_loop (length q) q r)
unfolding recv_loop
recv_loop-Polled [] more r is_open fits = inr (r.buffer, rw is_open refl, refl)
recv_loop-Polled (p ∷ q) more r is_open fits =
    elim (take_batch-Taken r.max_transfer_size r.buffer p q more) [
      | inl (short, e) ↦
          let fit = (subst (All (λ m. length m ≤ r.max_size)) e fits).0 in
          inl (
            joined p q r,
            (take_batch r.max_transfer_size p q).rest,
            round_short (length q) p q r fit short,
            e,
          )
      | inr (full, empty, e) ↦
          let fit =
            pieces-front r.max_transfer_size r.max_size (joined p q r) more
              (subst (All (λ m. length m ≤ r.max_size)) e fits) in
          inr (joined p q r, round_full (length q) p q r fit full empty is_open, e)
    ]

pub pieces-cons :
    (size : ℕ) (buffer : List ℕ) (ps : List RecvPacket)
    → (m : List ℕ) × (ms : List (List ℕ)) × (pieces size buffer ps ≡ m ∷ ms)
pieces-cons size buffer [] = (buffer, [], refl)
pieces-cons size buffer (p ∷ ps) = elim (Bool-cases (ltb (length (packet_data p)) size)) [
  | inl short ↦ (_, _, pieces_short size buffer p ps short)
  | inr full ↦
      let (m, ms, e) = pieces-cons size (buffer ++ packet_data p) ps in
      (m, ms, pieces_full size buffer p ps full ∙ e)
]
