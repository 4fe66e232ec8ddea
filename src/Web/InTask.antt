-- ===== src/Web/InTask.antt =====
-- src/host/web.rs: `in_task`, which hands the transfers from the device to the receiver.
pub mod Laws
use upc.Common.{ℕ, List, [], ◌∷◌, ◌++◌, Bool, true, false, Option, none, some, if◌then◌else◌}
use upc.Host.Receiver.{RecvPacket}
use upc.Web.Errors.{WebErrorKind, TaskError, web_usb, get_or_insert}
use upc.Web.Interfaces.{recv_packet}
use upc.Web.HalfClose.{HalfCloseHandle, close_recv}

-- `delivered` is what was put into the queue of the receiver.
pub record InState : Type 0 where
  pub delivered : List RecvPacket
  pub error : Option TaskError

-- What a round of the task meets: the receiver dropped; the device found dead; a transfer, for which
-- the queue has room or is closed; a failed transfer.
pub data InEvent : Type 0 where
  receiver_dropped : InEvent
  device_dead : InEvent
  received : List ℕ → Bool → InEvent
  failure : WebErrorKind → InEvent

pub data InRun : Type 0 where
  running : InState → InRun
  finished : Bool → InState → InRun

-- A stall is the device's way to say that it is done sending.
unfoldable pub on_failure : WebErrorKind → InState → InState
unfolding get_or_insert
on_failure WebErrorKind.stall s = s
on_failure e s = record s { error = get_or_insert s.error (web_usb e) }

unfoldable pub in_step : InState → InEvent → InRun
unfolding on_failure
in_step s receiver_dropped = finished true s
in_step s device_dead = finished false s
in_step s (received bytes has_room) =
    if has_room
    then running (record s { delivered = s.delivered ++ (recv_packet bytes ∷ []) })
    else finished true s
in_step s (failure e) = finished false (on_failure e s)

unfoldable pub in_run : InRun → List InEvent → InRun
unfolding in_step
in_run run [] = run
in_run (finished h s) (e ∷ es) = finished h s
in_run (running s) (e ∷ es) = in_run (in_step s e) es

-- The end of the task: the half-close handle is told who closed.
unfoldable pub in_finish : InRun → HalfCloseHandle → HalfCloseHandle
unfolding close_recv
in_finish (running s) h = h
in_finish (finished host_initiated s) h = close_recv host_initiated h
