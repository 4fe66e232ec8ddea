-- ===== src/Web/InTask/Laws.antt =====
-- The browser's `in_task` and the native one on the same events.
use upc.Common.{◌≡◌, refl, List, [], ◌∷◌, Bool, true, false, Option, none, some, arith}
use upc.Host.Errors.{TransferError}
use upc.Host.InTask as Native
use upc.Web.Errors.{WebErrorKind}
use upc.Web.Interfaces.{recv_packet}
use upc.Web.InTask.{
  InState, InEvent, receiver_dropped, device_dead, received, failure, InRun, running, finished,
  on_failure, in_step, in_run,
}

-- An event of the browser as a native one: only a stall stays a stall.
abbrev pub native_error : WebErrorKind → TransferError
native_error WebErrorKind.stall = TransferError.stall
native_error e = TransferError.unknown

abbrev pub native_event : InEvent → Native.InEvent
native_event receiver_dropped = Native.receiver_dropped
native_event device_dead = Native.device_dead
native_event (received bytes has_room) = Native.completed (recv_packet bytes) has_room
native_event (failure e) = Native.failure (native_error e)

abbrev pub native_events : List InEvent → List Native.InEvent
native_events [] = []
native_events (e ∷ es) = native_event e ∷ native_events es

-- The two runs are at the same point: both go on or both have ended, closed by the same side, with the
-- same packets delivered, and with an error or without.
abbrev pub has_error {ℓ} : {A : Type ℓ} → Option A → Bool
has_error none = false
has_error (some e) = true

pub record SameState (s : InState) (n : Native.InState) : Type 0 where
  pub delivered_same : s.delivered ≡ n.delivered
  pub error_same : has_error s.error ≡ has_error n.error

abbrev pub SameRun : InRun → Native.InRun → Type 0
SameRun (running s) (Native.running n) = SameState s n
SameRun (finished h s) (Native.finished k n) = (h ≡ k) × SameState s n
SameRun (running s) (Native.finished k n) = ⊥
SameRun (finished h s) (Native.running n) = ⊥

on_failure-SameState :
    (e : WebErrorKind) (s : InState) (n : Native.InState)
    → SameState s n
    → SameState (on_failure e s) (Native.on_failure (native_error e) n)
unfolding on_failure Native.on_failure
on_failure-SameState WebErrorKind.stall s n v = v
on_failure-SameState WebErrorKind.unsupported s n v = ground arith
on_failure-SameState WebErrorKind.already_open s n v = ground arith
on_failure-SameState WebErrorKind.disconnected s n v = ground arith
on_failure-SameState WebErrorKind.security s n v = ground arith
on_failure-SameState WebErrorKind.babble s n v = ground arith
on_failure-SameState WebErrorKind.transfer s n v = ground arith
on_failure-SameState WebErrorKind.invalid_access s n v = ground arith
on_failure-SameState WebErrorKind.other s n v = ground arith
on_failure-SameState WebErrorKind.unknown s n v = ground arith

in_step-SameRun :
    (s : InState) (n : Native.InState) (e : InEvent)
    → SameState s n
    → SameRun (in_step s e) (Native.in_step n (native_event e))
unfolding in_step Native.in_step
in_step-SameRun s n receiver_dropped v = (refl, v)
in_step-SameRun s n device_dead v = (refl, v)
in_step-SameRun s n (received bytes true) v = ground arith
in_step-SameRun s n (received bytes false) v = (refl, v)
in_step-SameRun s n (failure e) v = (refl, on_failure-SameState e s n v)

in_run-SameRun :
    (r : InRun) (m : Native.InRun) (es : List InEvent)
    → SameRun r m
    → SameRun (in_run r es) (Native.in_run m (native_events es))
unfolding in_run Native.in_run
in_run-SameRun r m [] v = v
in_run-SameRun (finished h s) (Native.finished k n) (e ∷ es) v = v
in_run-SameRun (finished h s) (Native.running n) (e ∷ es) v = elim v [ ]
in_run-SameRun (running s) (Native.finished k n) (e ∷ es) v = elim v [ ]
in_run-SameRun (running s) (Native.running n) (e ∷ es) v =
    in_run-SameRun (in_step s e) (Native.in_step n (native_event e)) es (in_step-SameRun s n e v)

-- On the same events, the browser's receive task and the native one go on or end together, closed by
-- the same side, with the same packets delivered, and with an error recorded or without.
pub web_in_run-SameRun :
    (es : List InEvent)
    → SameRun (in_run (running (record { delivered = []; error = none })) es) (
        Native.in_run (Native.running (record { delivered = []; error = none })) (native_events es))
web_in_run-SameRun es = in_run-SameRun _ _ es (record { delivered_same = refl; error_same = refl })
