-- ===== src/Tests/Device.antt =====
-- The device's receiver, its two data tasks and its buffer pool.
use upc.Common.{
  ℕ, ◌≡◌, refl, List, [], ◌∷◌, true, false, Option, none, some, ErrorKind, invalid_data, ok, err,
  ready, arith,
}
use upc.Common.Lists.{length, concat}
use upc.Framing.{IsFrame, IsStream}
use upc.Framing.Controller.{wire}
use upc.Tests.Usb.{usb}
use upc.Device.Receiver.{UpcReceiver, recv}
use upc.Device.Receiver.Schedule.{
  Step, arrives, polled, arrivals as arriving, arrive, answers, polls, answers-polls,
}
use upc.Device.Receiver.Oversize.{recv_oversized_tail}
use upc.Device.OutTask.{EpOp, transfer, flush, out_task}
use upc.Device.OutTask.Frames.{transfers, out_task-IsStream}
use upc.Device.OutTask.Failures.{IsTrace, out_task-IsTrace}
use upc.Device.InTask.{InState, InEvent, announce, permit, received, finished, in_task}
use upc.Device.InTask.Laws.{IsSound, in_task-IsSound}

-- Transfers of eight bytes: a full one and a short one, and a message of one short transfer.
abbrev eight : List ℕ
eight = 1 ∷ 2 ∷ 3 ∷ 4 ∷ 5 ∷ 6 ∷ 7 ∷ 8 ∷ []

abbrev long_message : List (List ℕ)
long_message = eight ∷ (9 ∷ []) ∷ []

abbrev receiver : List (List ℕ) → ℕ → UpcReceiver
receiver rx max_size = record {
  topic = [];
  rx = rx;
  rx_closed = true;
  buffer = [];
  max_size = max_size;
  max_transfer_size = 8;
  error = none;
}

abbrev oversized : UpcReceiver
oversized = receiver (eight ∷ eight ∷ (9 ∷ []) ∷ []) 8

recv_oversized_tail_example :
    ((recv oversized).0 ≡ ready (err invalid_data))
    × ((recv (recv oversized).1).0 ≡ ready (ok (some (9 ∷ []))))
    × ((recv (recv oversized).1).1.rx ≡ [])
recv_oversized_tail_example =
    recv_oversized_tail (eight ∷ []) eight [] oversized refl refl (refl, tt)
      (IsFrame.last (9 ∷ []) (omega arith)) (omega arith) (omega arith) (omega arith)

abbrev never : List EpOp → EpOp → Option ErrorKind
never log op = none

-- Four bytes are a multiple of the packet size of four, so an empty packet follows.
zero_packet_sent :
    out_task never 4 8 ((1 ∷ 2 ∷ 3 ∷ 4 ∷ []) ∷ [])
    ≡ (transfer (1 ∷ 2 ∷ 3 ∷ 4 ∷ []) ∷ flush ∷ transfer [] ∷ flush ∷ [], ok tt)
unfolding out_task
zero_packet_sent = refl

out_task-IsStream_example :
    (ops : List EpOp) × (out_task never 4 8 (eight ∷ (5 ∷ []) ∷ []) ≡ (ops, ok tt))
    × IsStream 4 (eight ∷ (5 ∷ []) ∷ []) (wire (usb 3) (transfers ops))
out_task-IsStream_example =
    out_task-IsStream (usb 3) 2 (omega arith) (omega arith) never (λ log op. refl)
      (eight ∷ (5 ∷ []) ∷ [])

abbrev second_fails : List EpOp → EpOp → Option ErrorKind
second_fails [] op = none
second_fails (o ∷ log) op = some ErrorKind.broken_pipe

out_task-IsTrace_example : IsTrace second_fails (out_task second_fails 4 8 (eight ∷ (5 ∷ []) ∷ []))
out_task-IsTrace_example = out_task-IsTrace second_fails 4 8 (eight ∷ (5 ∷ []) ∷ []) (omega arith)

abbrev arrivals : List InEvent
arrivals =
    permit ∷ received (ok (some eight)) ∷ announce 9 ∷ permit ∷ received (ok (some (9 ∷ []))) ∷ []

in_task_complete :
    in_task arrivals
    ≡ finished
        (ok true)
        (record { total_received = 9; close = some 9; reserved = false; delivered = long_message })
unfolding in_task
in_task_complete = refl

in_task-IsSound_example : IsSound (in_task arrivals)
in_task-IsSound_example = in_task-IsSound arrivals

abbrev waiting : InState
waiting = record { total_received = 9; close = none; reserved = true; delivered = long_message }

abbrev exact : ℕ → ℕ
exact n = n

-- A poll between the two transfers of a message, and one behind it.
abbrev schedule : List Step
schedule =
    arrives eight ∷ polled ∷ arrives (9 ∷ []) ∷ polled ∷ polled ∷ arrives (5 ∷ []) ∷ polled ∷ []

abbrev connected : UpcReceiver
connected = record (receiver [] 16) { rx_closed = false }

both_answered :
    answers schedule connected ≡ ok (some (concat long_message)) ∷ ok (some (5 ∷ [])) ∷ []
unfolding answers arrive recv
both_answered = refl

answers-polls_example :
    answers schedule connected
    ≡ polls (length (answers schedule connected)) (arrive (arriving schedule) connected)
answers-polls_example = answers-polls schedule connected refl
