-- ===== src/Channel/Loss.antt =====
-- A message whose length is a multiple of the transfer size, sent last: the device's `in_task` counts
-- bytes, and the empty transfer that ends such a message has none.
use upc.Common.{
  ℕ, ◌+◌, ◌%◌, ◌≤◌, ◌<◌, ◌≡◌, refl, ap, ◌∙◌, List, [], ◌∷◌, ◌++◌, true, false, none, some, ok,
  ready, arith, le→ltb, ==_of_ne, ==-refl,
}
use upc.Common.Lists.{length, concat, All, length-append}
use upc.Common.Words.{u64_mod}
use upc.Device.InTask.{
  InState, InEvent, announce, permit, received, running, finished, start, in_run, in_step,
  await_permit, await_transfer, loop_head, deliver, reached, in_task,
}
use upc.Device.Receiver.{UpcReceiver, recv_loop, recv, end_of_channel}
use mathlib.Core.List.{append_assoc}

-- The task takes each transfer in turn.
abbrev pub taking : List (List ℕ) → List InEvent
taking [] = []
taking (t ∷ ts) = permit ∷ received (ok (some t)) ∷ taking ts

-- Between two rounds, with the announcement of `n` bytes on record.
abbrev pub counting : ℕ → ℕ → List (List ℕ) → InState
counting n total delivered = record {
  total_received = total;
  close = some n;
  reserved = false;
  delivered = delivered;
}

take_more :
    (n total : ℕ) (delivered : List (List ℕ)) (t : List ℕ) (es : List InEvent)
    → total + length t < n
    → n < u64_mod
    → in_run (running (counting n total delivered)) (permit ∷ received (ok (some t)) ∷ es)
      ≡ in_run (running (counting n (total + length t) (delivered ++ (t ∷ [])))) es
unfolding in_run in_step await_permit await_transfer loop_head reached deliver
take_more n total delivered t es less fits =
    let e : (total + length t) % u64_mod ≡ total + length t = omega arith in
    rw (e, ==_of_ne (total + length t) n (omega arith)) refl

take_last :
    (n total : ℕ) (delivered : List (List ℕ)) (t : List ℕ)
    → total + length t ≡ n
    → n < u64_mod
    → in_run (running (counting n total delivered)) (permit ∷ received (ok (some t)) ∷ [])
      ≡ finished (ok true) (counting n n (delivered ++ (t ∷ [])))
unfolding in_run in_step await_permit await_transfer loop_head reached deliver
take_last n total delivered t eq fits =
    let e : (total + length t) % u64_mod ≡ n = omega arith in rw (e, ==-refl n) refl

-- The task ends as soon as it has all the bytes, with exactly those transfers delivered.
takes_every_byte :
    (n total : ℕ) (delivered : List (List ℕ)) (t : List ℕ) (ts : List (List ℕ))
    → All (λ p. 0 < length p) (t ∷ ts)
    → total + length (concat (t ∷ ts)) ≡ n
    → n < u64_mod
    → in_run (running (counting n total delivered)) (taking (t ∷ ts))
      ≡ finished (ok true) (counting n n (delivered ++ (t ∷ ts)))
takes_every_byte n total delivered t [] (pos, _) eq fits =
    take_last n total delivered t (omega (arith, length-append t [])) fits
takes_every_byte n total delivered t (u ∷ ts) (pos, later) eq fits =
    let less : total + length t < n =
      omega (arith, length-append t (concat (u ∷ ts)), length-append u (concat ts), later.0) in
    take_more n total delivered t (taking (u ∷ ts)) less fits
    ∙ takes_every_byte n (total + length t) (delivered ++ (t ∷ [])) u ts later
        (omega (arith, length-append t (concat (u ∷ ts)))) fits
    ∙ ap (λ x. finished (ok true) (counting n n x)) (append_assoc delivered (t ∷ []) (u ∷ ts))

-- A receiver whose queue ends in the middle of a message, the channel closed.
recv_loop_unfinished :
    (ts : List (List ℕ)) (r : UpcReceiver)
    → r.rx_closed ≡ true
    → r.error ≡ none
    → All (λ p. length p ≡ r.max_transfer_size) ts
    → length (r.buffer ++ concat ts) ≤ r.max_size
    → (recv_loop ts r).0 ≡ ready (ok none)
unfolding recv_loop end_of_channel
recv_loop_unfinished [] r closed clean full fits = rw (closed, clean) refl
recv_loop_unfinished (t ∷ ts) r closed clean (ft, full) fits =
    let r' : UpcReceiver = record r { buffer = r.buffer ++ t } in
    let fits' : length ((r.buffer ++ t) ++ concat ts) ≤ r.max_size =
      rw (append_assoc r.buffer t (concat ts)) fits in
    let now : length (r.buffer ++ t) ≤ r.max_size =
      omega (arith, length-append (r.buffer ++ t) (concat ts)) in
    rw (le→ltb r.max_size _ now, le→ltb (length t) r.max_transfer_size (omega arith))
      (recv_loop_unfinished ts r' closed clean full fits')

-- If the host's byte count comes while the transfers of a last message, all of them full, are not
-- yet taken, the device's receive task ends as complete on the last byte with just those transfers
-- delivered, and a receiver with that queue and a closed channel answers the end of the channel,
-- without the message and without an error.
pub last_message_lost :
    (t : List ℕ) (ts : List (List ℕ)) (r : UpcReceiver)
    → 0 < r.max_transfer_size
    → All (λ p. length p ≡ r.max_transfer_size) (t ∷ ts)
    → let n = length (concat (t ∷ ts)) in
      n < u64_mod
      → n ≤ r.max_size
      → r.rx ≡ t ∷ ts
      → r.rx_closed ≡ true
      → r.error ≡ none
      → r.buffer ≡ []
      → (in_task (announce n ∷ taking (t ∷ ts)) ≡ finished (ok true) (counting n n (t ∷ ts)))
        × ((recv r).0 ≡ ready (ok none))
last_message_lost t ts r pos full fits small queued closed clean empty =
    let n : ℕ = length (concat (t ∷ ts)) in
    (
      unfold in_task start in_run in_step await_permit loop_head reached in
          (takes_every_byte n 0 [] t ts (positive (t ∷ ts) full) (omega arith) fits),
      unfold recv in
          (ap (λ q. (recv_loop q r).0) queued
            ∙ recv_loop_unfinished (t ∷ ts) r closed clean full (rw empty small)),
    )
  where
    positive :
        (ps : List (List ℕ))
        → All (λ p. length p ≡ r.max_transfer_size) ps
        → All (λ p. 0 < length p) ps
    positive [] h = tt
    positive (p ∷ ps) (e, h) = (omega arith, positive ps h)
