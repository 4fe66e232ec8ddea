-- ===== src/Device/InTask.antt =====
-- src/device.rs: `in_task`, which hands the USB transfers from the host to the receiver.
pub mod Laws
use upc.Common.{
  ℕ, ◌+◌, ◌%◌, ◌^◌, List, [], ◌∷◌, ◌++◌, ◌==◌, if◌then◌else◌, Bool, true, false, Option, none, some,
  ErrorKind, Result, ok, err, diverged,
}
use upc.Common.Lists.{length}
use upc.Common.Words.{u64_mod}

-- `close` is the value of the watch channel, `reserved` that a place in the queue of the receiver is
-- held (the second `select!` of the loop), and `delivered` what was put into that queue.
pub record InState : Type 0 where
  pub total_received : ℕ
  pub close : Option ℕ
  pub reserved : Bool
  pub delivered : List (List ℕ)

-- What happens to the task: the main task announces a byte count; a branch of a `select!` is taken.
pub data InEvent : Type 0 where
  announce : ℕ → InEvent
  permit : InEvent
  receiver_gone : InEvent
  close_changed : InEvent
  received : Result (Option (List ℕ)) → InEvent

pub data InRun : Type 0 where
  running : InState → InRun
  finished : Result Bool → InState → InRun

-- `Some(total_received) == *close_rx.borrow()`
unfoldable pub reached : Option ℕ → ℕ → Bool
reached none total = false
reached (some n) total = total == n

-- The head of the loop.
unfoldable pub loop_head : InState → InRun
unfolding reached
loop_head s = if reached s.close s.total_received then finished (ok true) s else running s

abbrev pub initial : InState
initial = record { total_received = 0; close = none; reserved = false; delivered = [] }

unfoldable pub start : InRun
unfolding loop_head
start = loop_head initial

unfoldable pub deliver : InState → List ℕ → InState
deliver s packet = record s {
  total_received = (s.total_received + length packet) % u64_mod;
  delivered = s.delivered ++ (packet ∷ []);
}

-- The first `select!` waits for a place in the queue.
unfoldable pub await_permit : InState → InEvent → InRun
unfolding loop_head
await_permit s (announce n) = running (record s { close = some n })
await_permit s permit = running (record s { reserved = true })
await_permit s receiver_gone = finished (ok false) s
await_permit s close_changed = loop_head s
await_permit s (received r) = running s

-- The second waits for a transfer. A place that is not used is given back at the end of the round.
unfoldable pub await_transfer : InState → InEvent → InRun
unfolding loop_head deliver
await_transfer s (announce n) = running (record s { close = some n })
await_transfer s permit = running s
await_transfer s receiver_gone = finished (ok false) s
await_transfer s close_changed = loop_head (record s { reserved = false })
await_transfer s (received (ok none)) = loop_head (record s { reserved = false })
await_transfer s (received (ok (some packet))) =
    loop_head (deliver (record s { reserved = false }) packet)
await_transfer s (received (err e)) = finished (err e) s
await_transfer s (received diverged) = running s

unfoldable pub in_step : InState → InEvent → InRun
unfolding await_permit await_transfer
in_step s e = if s.reserved then await_transfer s e else await_permit s e

-- An event after the end of the task finds no task.
unfoldable pub in_run : InRun → List InEvent → InRun
unfolding in_step
in_run run [] = run
in_run (finished r s) (e ∷ es) = finished r s
in_run (running s) (e ∷ es) = in_run (in_step s e) es

unfoldable pub in_task : List InEvent → InRun
unfolding in_run start
in_task es = in_run start es
