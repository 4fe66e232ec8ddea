-- ===== src/Host/Receiver/Reassembly.antt =====
-- The host's `UpcReceiver::recv` puts the transfers of a message together again.
use upc.Common.{
  inl, inr, ℕ, suc, ◌≤◌, ◌≡◌, refl, ap, ◌∙◌, List, [], ◌∷◌, ◌++◌, Bool, true, some, ok, ready,
  pending, arith, if◌then◌else◌, lt→ltb, le→ltb, map,
}
use upc.Common.Lists.{length, concat, All}
use upc.Framing.{IsFrame, IsStream, IsFrame-cases, IsFrame-nil, cons-injective}
use upc.Host.Receiver.{
  RecvPacket, packet_data, into_vec, UpcReceiver, end_of_channel, Batch, drain, add_batch,
  take_batch, recv_loop, recv, stream_item, into_stream,
}

-- Both ways of filling the buffer append the batch to it.
pub add_batch_lem :
    (buffer : List ℕ) (first : RecvPacket) (batch : List RecvPacket)
    → add_batch buffer first batch ≡ buffer ++ concat (map packet_data (first ∷ batch))
unfolding add_batch packet_data into_vec
add_batch_lem [] first batch = ground arith
add_batch_lem (b ∷ bs) first batch = refl

-- Queued transfers that hold a whole message: `drain` takes those and no more.
drain-IsFrame :
    (size : ℕ) (ps rest : List RecvPacket)
    → IsFrame size (map packet_data ps)
    → drain size (ps ++ rest) ≡ record { batch = ps; rest = rest; short = true }
unfolding drain
drain-IsFrame size [] rest frame = elim frame [ ]
drain-IsFrame size (p ∷ []) rest frame = elim (IsFrame-cases frame (packet_data p) [] refl) [
  | inl (short, e) ↦ rw (lt→ltb _ size short) refl
  | inr (full, none_left) ↦ absurd (IsFrame-nil none_left)
]
drain-IsFrame size (p ∷ q ∷ ps) rest frame =
    elim (IsFrame-cases frame (packet_data p) (map packet_data (q ∷ ps)) refl) [
      | inl (short, e) ↦ cc
      | inr (full, frame') ↦ rw (le→ltb (length (packet_data p)) size (omega arith)) (
          ap (λ (b : Batch). record b { batch = p ∷ b.batch })
            (drain-IsFrame size (q ∷ ps) rest frame'))
    ]

take_batch-IsFrame :
    (size : ℕ) (p : RecvPacket) (ps rest : List RecvPacket)
    → IsFrame size (map packet_data (p ∷ ps))
    → take_batch size p (ps ++ rest) ≡ record { batch = ps; rest = rest; short = true }
unfolding take_batch
take_batch-IsFrame size p [] rest frame = elim (IsFrame-cases frame (packet_data p) [] refl) [
  | inl (short, e) ↦ rw (lt→ltb _ size short) refl
  | inr (full, none_left) ↦ absurd (IsFrame-nil none_left)
]
take_batch-IsFrame size p (q ∷ ps) rest frame =
    elim (IsFrame-cases frame (packet_data p) (map packet_data (q ∷ ps)) refl) [
      | inl (short, e) ↦ cc
      | inr (full, frame') ↦
          rw (le→ltb (length (packet_data p)) size (omega arith))
            (drain-IsFrame size (q ∷ ps) rest frame')
    ]

one_round :
    (p : RecvPacket) (ps rest : List RecvPacket) (r : UpcReceiver)
    → IsFrame r.max_transfer_size (map packet_data (p ∷ ps))
    → length (r.buffer ++ concat (map packet_data (p ∷ ps))) ≤ r.max_size
    → recv_loop (length (p ∷ (ps ++ rest))) (p ∷ (ps ++ rest)) r ≡ (
      ready (ok (some (r.buffer ++ concat (map packet_data (p ∷ ps))))),
      record r { rx = rest; buffer = [] },
    )
unfolding recv_loop
one_round p ps rest r frame fits =
    rw
      (
        take_batch-IsFrame r.max_transfer_size p ps rest frame,
        add_batch_lem r.buffer p ps,
        le→ltb r.max_size _ fits,
      )
      refl

-- A message whose transfers stand at the front of the queue is returned whole, behind what the
-- buffer holds of it, if it is no longer than the maximum; its transfers leave the queue.
pub host_recv-IsFrame :
    (ps rest : List RecvPacket) (r : UpcReceiver)
    → IsFrame r.max_transfer_size (map packet_data ps)
    → r.rx ≡ ps ++ rest
    → length (r.buffer ++ concat (map packet_data ps)) ≤ r.max_size
    → recv r ≡ (
      ready (ok (some (r.buffer ++ concat (map packet_data ps)))),
      record r { rx = rest; buffer = [] },
    )
unfolding recv
host_recv-IsFrame [] rest r frame queued fits = elim frame [ ]
host_recv-IsFrame (p ∷ ps) rest r frame queued fits =
    ap (λ q. recv_loop (length q) q r) queued ∙ one_round p ps rest r frame fits

recv_empty :
    (r : UpcReceiver)
    → r.rx ≡ []
    → recv r
      ≡ ((if r.rx_closed then ready (end_of_channel r.error) else pending), record r { rx = [] })
unfolding recv recv_loop
recv_empty r e = ap (λ q. recv_loop (length q) q r) e

closed_item :
    (closed : Bool) (r : UpcReceiver)
    → let end = if closed then ready (end_of_channel r.error) else pending in
      stream_item end ([], pending) ≡ ([], end)
unfolding stream_item end_of_channel
closed_item closed r = ground arith

map_nil : (ps : List RecvPacket) → map packet_data ps ≡ [] → ps ≡ []
map_nil [] e = refl
map_nil (p ∷ ps) e = cc

-- Queued transfers split as their contents do.
split_queue :
    (rx : List RecvPacket) (ts us : List (List ℕ))
    → map packet_data rx ≡ ts ++ us
    → (ps qs : List RecvPacket) × (rx ≡ ps ++ qs)
      × (map packet_data ps ≡ ts)
      × (map packet_data qs ≡ us)
split_queue rx [] us e = ([], rx, refl, refl, e)
split_queue [] (t ∷ ts) us e = cc
split_queue (p ∷ rx) (t ∷ ts) us e =
    let (ps, qs, whole, front, back) = split_queue rx ts us (cons-injective e).1 in
    (p ∷ ps, qs, ap (λ x. p ∷ x) whole, rw front (ap (λ x. x ∷ ts) (cons-injective e).0), back)

-- If the queue of the host's receiver holds the transfers of the messages `ms`, none larger than
-- the maximum, and the buffer is empty, the stream yields exactly `ms`, in order, and then waits or
-- ends as the channel does, however `recv` batches the transfers.
pub host_into_stream-IsStream :
    {size : ℕ} (r : UpcReceiver) {ms ts : List (List ℕ)}
    → r.max_transfer_size ≡ size
    → IsStream size ms ts
    → map packet_data r.rx ≡ ts
    → r.buffer ≡ []
    → All (λ m. length m ≤ r.max_size) ms
    → into_stream (suc (length ms)) r
      ≡ (ms, (if r.rx_closed then ready (end_of_channel r.error) else pending))
unfolding into_stream
host_into_stream-IsStream r same IsStream.done queued empty fits =
    ap (λ p. stream_item p.0 (into_stream 0 p.1)) (recv_empty r (map_nil r.rx queued))
    ∙ closed_item r.rx_closed r
host_into_stream-IsStream r same
      (IsStream.next {m = m} {ms = ms} {ts = ts} {us = us} frame e queue stream) queued empty
      (fit, fits) =
    let (ps, qs, whole, front, back) = split_queue r.rx ts us (queued ∙ queue) in
    let r' : UpcReceiver = record r { rx = qs; buffer = [] } in
    let one = host_recv-IsFrame ps qs r (rw (front, same) frame) whole (rw (empty, front, e) fit) in
    ap (λ p. stream_item p.0 (into_stream (suc (length ms)) p.1)) one
    ∙ rw (host_into_stream-IsStream r' same stream back refl fits, empty, front, e) refl
