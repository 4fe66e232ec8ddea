-- ===== src/Device/Receiver/Oversize.antt =====
-- `UpcReceiver::recv` on a message that is longer than the maximum receive size.
use upc.Common.{
  ℕ, ◌+◌, ◌≤◌, ◌<◌, ◌≡◌, refl, ap, ◌∙◌, List, [], ◌∷◌, ◌++◌, some, invalid_data, ok, err, ready,
  arith, lt→ltb, le→ltb,
}
use upc.Common.Lists.{length, concat, length-append, All}
use upc.Framing.{IsFrame}
use upc.Device.Receiver.{UpcReceiver, recv_loop, recv}
use upc.Device.Receiver.Reassembly.{recv-IsFrame}
use mathlib.Core.List.{append_assoc}

recv_loop_oversized :
    (front : List (List ℕ)) (t : List ℕ) (rest : List (List ℕ)) (r : UpcReceiver)
    → All (λ p. length p ≡ r.max_transfer_size) front
    → length (r.buffer ++ concat front) ≤ r.max_size
    → r.max_size < length (r.buffer ++ concat front) + length t
    → recv_loop (front ++ (t ∷ rest)) r
      ≡ (ready (err invalid_data), record r { rx = rest; buffer = [] })
unfolding recv_loop
recv_loop_oversized [] t rest r full fits over =
    let h : r.max_size < length (r.buffer ++ t) =
      omega (arith, length-append r.buffer t, length-append r.buffer []) in
    rw (lt→ltb r.max_size _ h) refl
recv_loop_oversized (p ∷ front) t rest r (fp, full) fits over =
    let r' : UpcReceiver = record r { buffer = r.buffer ++ p } in
    let fits' : length ((r.buffer ++ p) ++ concat front) ≤ r.max_size =
      rw (append_assoc r.buffer p (concat front)) fits in
    let over' : r.max_size < length ((r.buffer ++ p) ++ concat front) + length t =
      rw (append_assoc r.buffer p (concat front)) over in
    let fits_now : length (r.buffer ++ p) ≤ r.max_size =
      omega (arith, length-append (r.buffer ++ p) (concat front)) in
    rw (le→ltb r.max_size _ fits_now, le→ltb (length p) r.max_transfer_size (omega arith))
      (recv_loop_oversized front t rest r' full fits' over')

-- If full transfers within the maximum are followed by one that takes the message over it, the
-- device's `recv` answers InvalidData at that transfer, and leaves an empty buffer and the
-- transfers behind it.
pub recv_oversized :
    (front : List (List ℕ)) (t : List ℕ) (rest : List (List ℕ)) (r : UpcReceiver)
    → r.rx ≡ front ++ (t ∷ rest)
    → r.buffer ≡ []
    → All (λ p. length p ≡ r.max_transfer_size) front
    → length (concat front) ≤ r.max_size
    → r.max_size < length (concat front) + length t
    → recv r ≡ (ready (err invalid_data), record r { rx = rest; buffer = [] })
unfolding recv
recv_oversized front t rest r queued empty full fits over =
    ap (λ q. recv_loop q r) queued
    ∙ recv_loop_oversized front t rest r full (rw empty fits) (rw empty over)

-- If an oversized message goes on behind the transfer at which the device's `recv` refuses it, with
-- a rest within the maximum, the next `recv` yields that rest as a packet.
pub recv_oversized_tail :
    (front : List (List ℕ)) (t : List ℕ) {us : List (List ℕ)} (later : List (List ℕ))
    (r : UpcReceiver)
    → r.rx ≡ front ++ (t ∷ (us ++ later))
    → r.buffer ≡ []
    → All (λ p. length p ≡ r.max_transfer_size) front
    → IsFrame r.max_transfer_size us
    → length (concat front) ≤ r.max_size
    → r.max_size < length (concat front) + length t
    → length (concat us) ≤ r.max_size
    → let refused = recv r in
      (refused.0 ≡ ready (err invalid_data))
      × ((recv refused.1).0 ≡ ready (ok (some (concat us))))
      × ((recv refused.1).1.rx ≡ later)
recv_oversized_tail front t {us} later r queued empty full frame fits over small =
    let r' : UpcReceiver = record r { rx = us ++ later; buffer = [] } in
    let first = recv_oversized front t (us ++ later) r queued empty full fits over in
    let second = ap (λ p. recv p.1) first ∙ recv-IsFrame later r' frame refl refl small in
    (ap (λ p. p.0) first, ap (λ p. p.0) second, ap (λ p. p.1.rx) second)
