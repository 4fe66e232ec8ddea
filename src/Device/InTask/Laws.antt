-- ===== src/Device/InTask/Laws.antt =====
-- When the device's `in_task` ends, and what it has delivered then.
use upc.Common.{
  ℕ, ◌+◌, ◌%◌, ◌≡◌, Bool-cases, inl, inr, refl, ap, ◌∙◌, List, [], ◌∷◌, ◌++◌, if◌then◌else◌, true,
  false, Option, none, some, ok, err, diverged, arith,
}
use upc.Common.Lists.{length, concat, length-append, concat-append}
use upc.Common.Words.{u64_mod}
use upc.Device.InTask.{
  InState, InEvent, announce, permit, receiver_gone, close_changed, received, InRun, running,
  finished, reached, loop_head, start, initial, deliver, await_permit, await_transfer, in_step,
  in_run, in_task,
}

-- The bytes delivered, as the counter has them.
abbrev pub delivered_bytes : InState → ℕ
delivered_bytes s = length (concat s.delivered) % u64_mod

abbrev pub Counts : InState → Type 0
Counts s = s.total_received ≡ delivered_bytes s

-- A run keeps count; it ends with `Ok(true)` only at the announced number of bytes.
abbrev pub IsSound : InRun → Type 0
IsSound (running s) = Counts s
IsSound (finished (ok true) s) = Counts s × (s.close ≡ some (delivered_bytes s))
IsSound (finished (ok false) s) = Counts s
IsSound (finished (err e) s) = Counts s
IsSound (finished diverged s) = ⊥

reached→eq : (close : Option ℕ) (total : ℕ) → reached close total ≡ true → close ≡ some total
unfolding reached
reached→eq none total h = cc
reached→eq (some n) total h = ground arith

loop_head-IsSound : (s : InState) → Counts s → IsSound (loop_head s)
unfolding loop_head
loop_head-IsSound s h = elim (Bool-cases (reached s.close s.total_received)) [
  | inl e ↦ rw e (h, reached→eq s.close s.total_received e ∙ ap some h)
  | inr e ↦ rw e h
]

deliver-Counts : (s : InState) (t : List ℕ) → Counts s → Counts (deliver s t)
unfolding deliver
deliver-Counts s t h =
    let n : ℕ = length (concat s.delivered) in
    let e : length (concat (s.delivered ++ (t ∷ []))) ≡ n + length t =
      rw
        (
          concat-append s.delivered (t ∷ []),
          length-append (concat s.delivered) (t ++ []),
          length-append t [],
        )
        (omega arith) in
    omega (arith, e)

await_permit-IsSound : (s : InState) (e : InEvent) → Counts s → IsSound (await_permit s e)
unfolding await_permit
await_permit-IsSound s (announce n) h = h
await_permit-IsSound s permit h = h
await_permit-IsSound s receiver_gone h = h
await_permit-IsSound s close_changed h = loop_head-IsSound s h
await_permit-IsSound s (received r) h = h

await_transfer-IsSound : (s : InState) (e : InEvent) → Counts s → IsSound (await_transfer s e)
unfolding await_transfer
await_transfer-IsSound s (announce n) h = h
await_transfer-IsSound s permit h = h
await_transfer-IsSound s receiver_gone h = h
await_transfer-IsSound s close_changed h = loop_head-IsSound (record s { reserved = false }) h
await_transfer-IsSound s (received (ok none)) h =
    loop_head-IsSound (record s { reserved = false }) h
await_transfer-IsSound s (received (ok (some t))) h =
    loop_head-IsSound (deliver (record s { reserved = false }) t)
      (deliver-Counts (record s { reserved = false }) t h)
await_transfer-IsSound s (received (err x)) h = h
await_transfer-IsSound s (received diverged) h = h

in_step-IsSound : (s : InState) (e : InEvent) → Counts s → IsSound (in_step s e)
unfolding in_step
in_step-IsSound s e h =
    elim s.reserved as (λ b. IsSound (if b then await_transfer s e else await_permit s e)) [
      | true ↦ await_transfer-IsSound s e h
      | false ↦ await_permit-IsSound s e h
    ]

in_run-IsSound : (run : InRun) (es : List InEvent) → IsSound run → IsSound (in_run run es)
unfolding in_run
in_run-IsSound run [] h = h
in_run-IsSound (finished r s) (e ∷ es) h = h
in_run-IsSound (running s) (e ∷ es) h = in_run-IsSound (in_step s e) es (in_step-IsSound s e h)

-- Whatever happens to the device's receive task, it counts the bytes that it delivered modulo 2^64,
-- and it ends as complete only at exactly the announced number of bytes.
pub in_task-IsSound : (es : List InEvent) → IsSound (in_task es)
unfolding in_task start
in_task-IsSound es = in_run-IsSound _ es (loop_head-IsSound initial refl)

-- If a running receive task is told the number of bytes that it has counted, it ends as complete,
-- and has delivered nothing more.
pub announce_completes :
    (s : InState) (n : ℕ)
    → s.total_received ≡ n
    → (r : InState) × (in_run (running s) (announce n ∷ close_changed ∷ []) ≡ finished (ok true) r)
      × (r.delivered ≡ s.delivered)
unfolding in_run in_step await_permit await_transfer loop_head reached
announce_completes s n e = (record s { close = some n; reserved = false }, ground arith, refl)
