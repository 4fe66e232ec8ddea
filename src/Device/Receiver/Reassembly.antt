-- ===== src/Device/Receiver/Reassembly.antt =====
-- `UpcReceiver::recv` puts the transfers of a message together again.
use upc.Common.{
  ℕ, suc, ◌≤◌, ◌≡◌, refl, ap, ◌∙◌, List, [], ◌++◌, Bool, some, ok, ready, pending, arith,
  if◌then◌else◌, lt→ltb, le→ltb,
}
use upc.Common.Lists.{length, concat, length-append, All}
use upc.Framing.{IsFrame, IsStream}
use upc.Device.Receiver.{UpcReceiver, recv_loop, recv, into_stream, stream_item, end_of_channel}
use mathlib.Core.List.{append-nil, append_assoc}

recv_loop-IsFrame :
    {size : ℕ} (r : UpcReceiver) {ts : List (List ℕ)} (rest : List (List ℕ))
    → r.max_transfer_size ≡ size
    → IsFrame size ts
    → length (r.buffer ++ concat ts) ≤ r.max_size
    → recv_loop (ts ++ rest) r
      ≡ (ready (ok (some (r.buffer ++ concat ts))), record r { rx = rest; buffer = [] })
unfolding recv_loop
recv_loop-IsFrame r rest same (IsFrame.last t short) h =
    let h' : length (r.buffer ++ t) ≤ r.max_size = rw (append-nil t) at h in
    rw (le→ltb r.max_size _ h', lt→ltb (length t) r.max_transfer_size (rw same short), append-nil t)
      refl
recv_loop-IsFrame r rest same (IsFrame.more t {ts = ts} full frame) h =
    let r' : UpcReceiver = record r { buffer = r.buffer ++ t } in
    let h' : length ((r.buffer ++ t) ++ concat ts) ≤ r.max_size =
      rw (append_assoc r.buffer t (concat ts)) h in
    let fits : length (r.buffer ++ t) ≤ r.max_size =
      omega (arith, length-append (r.buffer ++ t) (concat ts)) in
    rw (le→ltb r.max_size _ fits, le→ltb (length t) r.max_transfer_size (omega arith))
      (recv_loop-IsFrame r' rest same frame h' ∙ rw (append_assoc r.buffer t (concat ts)) refl)

-- A message whose transfers stand at the front of the queue is returned whole, if it is no longer
-- than the maximum; its transfers leave the queue and nothing else changes.
pub recv-IsFrame :
    {ts : List (List ℕ)} (rest : List (List ℕ)) (r : UpcReceiver)
    → IsFrame r.max_transfer_size ts
    → r.rx ≡ ts ++ rest
    → r.buffer ≡ []
    → length (concat ts) ≤ r.max_size
    → recv r ≡ (ready (ok (some (concat ts))), record r { rx = rest; buffer = [] })
unfolding recv
recv-IsFrame {ts} rest r frame queued empty fits =
    ap (λ q. recv_loop q r) queued
    ∙ recv_loop-IsFrame r rest refl frame (rw empty fits)
    ∙ rw empty refl

recv_empty :
    (r : UpcReceiver)
    → r.rx ≡ []
    → recv r
      ≡ ((if r.rx_closed then ready (end_of_channel r.error) else pending), record r { rx = [] })
unfolding recv recv_loop
recv_empty r e = ap (λ q. recv_loop q r) e

closed_item :
    (closed : Bool) (r : UpcReceiver)
    → let end = if closed then ready (end_of_channel r.error) else pending in
      stream_item end ([], pending) ≡ ([], end)
unfolding stream_item end_of_channel
closed_item closed r = ground arith

-- If the queue of the device's receiver holds the transfers of the messages `ms`, none larger than
-- the maximum, and the buffer is empty, the stream yields exactly `ms`, in order, and then waits or
-- ends as the channel does.
pub into_stream-IsStream :
    {size : ℕ} (r : UpcReceiver) {ms ts : List (List ℕ)}
    → r.max_transfer_size ≡ size
    → IsStream size ms ts
    → r.rx ≡ ts
    → r.buffer ≡ []
    → All (λ m. length m ≤ r.max_size) ms
    → into_stream (suc (length ms)) r
      ≡ (ms, (if r.rx_closed then ready (end_of_channel r.error) else pending))
unfolding into_stream
into_stream-IsStream r same IsStream.done queued empty fits =
    (ap (λ p. stream_item p.0 (into_stream 0 p.1)) (recv_empty r queued)
      ∙ closed_item r.rx_closed r)
into_stream-IsStream r same (IsStream.next {m = m} {ms = ms} {us = us} frame e queue stream) queued
      empty (fit, fits) =
    let r' : UpcReceiver = record r { rx = us; buffer = [] } in
    let one = recv-IsFrame us r (rw same frame) (queued ∙ queue) empty (rw e fit) in
    (ap (λ p. stream_item p.0 (into_stream (suc (length ms)) p.1)) one
      ∙ rw (into_stream-IsStream r' same stream refl refl fits, e) refl)
