-- ===== src/Host/InTask/Laws.antt =====
-- What the receiver sees of the host's `in_task`.
use upc.Common.{
  ◌≡◌, refl, sym, ap, ◌∙◌, List, [], ◌∷◌, ◌++◌, Bool, true, false, Option, none, some, ok, err,
  ErrorKind,
}
use upc.Host.Errors.{TransferError, TaskError, transfer_to_io_err, to_io_err}
use upc.Host.Receiver.{RecvPacket, end_of_channel, Received}
use upc.Host.InTask.{
  InState, InEvent, completed, failure, running, finished, on_failure, in_step, in_run,
}
use mathlib.Core.List.{append-nil, append_assoc}

abbrev pub arriving : List RecvPacket → List InEvent
arriving [] = []
arriving (p ∷ ps) = completed p true ∷ arriving ps

-- What the receiver answers once its queue is empty and the task that filled it has ended.
unfoldable pub final_answer : TransferError → Received
unfolding transfer_to_io_err
final_answer TransferError.stall = ok none
final_answer e = err (transfer_to_io_err e)

-- The shared error as the receiver reads it.
abbrev pub error_kind : Option TaskError → Option ErrorKind
error_kind none = none
error_kind (some e) = some (to_io_err e)

finished_run :
    {h : Bool} {s : InState} (es : List InEvent) → in_run (finished h s) es ≡ finished h s
unfolding in_run
finished_run [] = refl
finished_run (e ∷ es) = refl

arriving_run :
    (ps : List RecvPacket) (s : InState) (es : List InEvent)
    → in_run (running s) (arriving ps ++ es)
      ≡ in_run (running (record s { delivered = s.delivered ++ ps })) es
unfolding in_run in_step
arriving_run [] s es =
    ap (λ d. in_run (running (record s { delivered = d })) es) (sym (append-nil s.delivered))
arriving_run (p ∷ ps) s es =
    arriving_run ps (record s { delivered = s.delivered ++ (p ∷ []) }) es
    ∙ ap (λ d. in_run (running (record s { delivered = d })) es)
        (append_assoc s.delivered (p ∷ []) ps)

failure_answer :
    (e : TransferError) (ps : List RecvPacket)
    → end_of_channel (error_kind (on_failure e (record { delivered = ps; error = none })).error)
      ≡ final_answer e
unfolding on_failure end_of_channel final_answer to_io_err
failure_answer TransferError.stall ps = refl
failure_answer TransferError.disconnected ps = refl
failure_answer TransferError.cancelled ps = refl
failure_answer TransferError.fault ps = refl
failure_answer TransferError.invalid_argument ps = refl
failure_answer TransferError.unknown ps = refl

on_failure-delivered : (e : TransferError) (s : InState) → (on_failure e s).delivered ≡ s.delivered
unfolding on_failure
on_failure-delivered TransferError.stall s = refl
on_failure-delivered TransferError.disconnected s = refl
on_failure-delivered TransferError.cancelled s = refl
on_failure-delivered TransferError.fault s = refl
on_failure-delivered TransferError.invalid_argument s = refl
on_failure-delivered TransferError.unknown s = refl

-- If transfers arrive at the host's receive task, with room for each, and then one fails, the task
-- ends as closed by the device with those transfers delivered in order, and the error left behind
-- makes the receiver answer the end of the channel for a stall and the kind of the failure for any
-- other.
pub in_task_ends :
    (ps : List RecvPacket) (e : TransferError) (es : List InEvent)
    → (s : InState) × (in_run
          (running (record { delivered = []; error = none }))
          (arriving ps ++ (failure e ∷ es))
        ≡ finished false s)
      × (s.delivered ≡ ps)
      × (end_of_channel (error_kind s.error) ≡ final_answer e)
unfolding in_run in_step
in_task_ends ps e es = (
  on_failure e (record { delivered = ps; error = none }),
  arriving_run ps _ (failure e ∷ es) ∙ finished_run es,
  on_failure-delivered e _,
  failure_answer e ps,
)
