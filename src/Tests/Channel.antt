-- ===== src/Tests/Channel.antt =====
-- Whole channels over a bulk endpoint with packets of four bytes and buffers of two packets.
use upc.Common.{
  ℕ, zero, suc, ◌*◌, ◌≡◌, ◌%◌, refl, List, [], ◌∷◌, true, false, Option, none, some, ErrorKind, ok,
  if◌then◌else◌, arith, ready, pending, map,
}
use upc.Common.Lists.{length, concat}
use upc.Common.Words.{u64_mod}
use upc.Framing.Controller.{wire}
use upc.Tests.Usb.{usb, collect, split}
use upc.Device.OutTask.{EpOp, out_task}
use upc.Device.OutTask.Frames.{transfers}
use upc.Device.InTask.{
  InState, announce, permit, received, close_changed, running, finished, in_run, in_task,
}
use upc.Device.Receiver
use upc.Host.Receiver.{RecvPacket, packet_data}
use upc.Host.Receiver as HostReceiver
use upc.Host.HalfClose.{new, close_send}
use upc.Host.OutTask.{Completion, OutState, initial, go, stop, out_loop, out_finish}
use upc.Host.OutTask.Wire.{submission, submissions, rounds, packets_of, out_task_announces}
use upc.Host.Errors.{TransferError}
use upc.Host.InTask as HostIn
use upc.Host.InTask.Laws.{arriving, error_kind, final_answer}
use upc.Common.{◌++◌}
use upc.Channel.ToHost.{packets_then_end}
use upc.Channel.ToDevice.{reaching, packets_reach_device, half_close_delivers}
use upc.Channel.Loss.{taking, counting, last_message_lost}

-- A message of one packet, whose length is a multiple of the packet size, a short one, and an empty one.
abbrev messages : List (List ℕ)
messages = (1 ∷ 2 ∷ 3 ∷ 4 ∷ []) ∷ (5 ∷ 6 ∷ []) ∷ [] ∷ []

abbrev arrived : List ℕ → RecvPacket
arrived bytes = record { buffer = bytes; actual_len = length bytes; zero_copy = true }

abbrev never : List EpOp → EpOp → Option ErrorKind
never log op = none

abbrev to_host : List RecvPacket
to_host = arrived (1 ∷ 2 ∷ 3 ∷ 4 ∷ []) ∷ arrived (5 ∷ 6 ∷ []) ∷ arrived [] ∷ []

host_queue :
    map packet_data to_host
    ≡ (usb 3).receive 2 (wire (usb 3) (transfers (out_task never 4 8 messages).0))
unfolding packet_data wire transfers out_task collect split
host_queue = refl

packets_then_end_example :
    (s : HostIn.InState) × (HostIn.in_run
        (HostIn.running (record { delivered = []; error = none }))
        (arriving to_host ++ (HostIn.failure TransferError.stall ∷ []))
      ≡ HostIn.finished false s)
    × (HostReceiver.into_stream 4 (record {
      rx = s.delivered;
      rx_closed = true;
      error = error_kind s.error;
      buffer = [];
      max_size = 16;
      max_transfer_size = 8;
    })
        ≡ (messages, ready (final_answer TransferError.stall)))
packets_then_end_example =
    packets_then_end (usb 3) 2 (omega arith) (omega arith) never (λ log op. refl) messages to_host
      TransferError.stall [] 16 host_queue (omega arith)

abbrev sent : List (List ℕ × ℕ)
sent = (1 ∷ 2 ∷ 3 ∷ 4 ∷ [], 0) ∷ (5 ∷ 6 ∷ [], 0) ∷ []

-- The transfers are of four, none and two bytes, and all go out whole.
abbrev whole : ℕ → Completion
whole zero = record { status = none; actual_len = 4 }
whole (suc n) = record { status = none; actual_len = 2 * n }

whole_good : (n : ℕ) → (whole n).status ≡ none
whole_good zero = refl
whole_good (suc n) = refl

abbrev all_submitted : OutState
all_submitted = record {
  submitted = (1 ∷ 2 ∷ 3 ∷ 4 ∷ []) ∷ [] ∷ (5 ∷ 6 ∷ []) ∷ [];
  pending = 4 ∷ 0 ∷ 2 ∷ [];
  completed = 0;
  total_bytes_sent = 6;
  error = none;
}

host_ran : out_loop whole 4 (rounds sent) (go initial) ≡ stop true all_submitted
unfolding out_loop
host_ran = refl

abbrev device_receiver : List (List ℕ) → Receiver.UpcReceiver
device_receiver rx = record {
  topic = [];
  rx = rx;
  rx_closed = false;
  buffer = [];
  max_size = 16;
  max_transfer_size = 8;
  error = none;
}

abbrev two : List (List ℕ)
two = (1 ∷ 2 ∷ 3 ∷ 4 ∷ []) ∷ (5 ∷ 6 ∷ []) ∷ []

device_queue : two ≡ (usb 3).receive 2 (wire (usb 3) all_submitted.submitted)
unfolding wire collect split
device_queue = refl

packets_reach_device_example :
    Receiver.into_stream 3 (device_receiver two)
    ≡ (two, (if false then ready (Receiver.end_of_channel none) else pending))
packets_reach_device_example =
    packets_reach_device (usb 3) 2 (omega arith) (omega arith) whole sent all_submitted
      (device_receiver two) whole_good host_ran refl device_queue refl (omega arith)

out_task_announces_example :
    (s s' : OutState) × (out_loop whole 4 (rounds sent) (go initial) ≡ stop true s)
    × (out_finish whole true s new
        ≡ (s', close_send true (length (concat (packets_of sent)) % u64_mod) new))
    × (s'.submitted ≡ submissions 4 (packets_of sent))
    × (s.submitted ≡ submissions 4 (packets_of sent))
out_task_announces_example = out_task_announces whole whole_good 4 sent

abbrev taken_both : InState
taken_both = record { total_received = 6; close = none; reserved = false; delivered = two }

device_ran :
    in_task (
      permit
      ∷ received (ok (some (1 ∷ 2 ∷ 3 ∷ 4 ∷ [])))
      ∷ permit
      ∷ received (ok (some (5 ∷ 6 ∷ [])))
      ∷ [])
    ≡ running taken_both
unfolding in_task
device_ran = refl

all_delivered : two ≡ reaching (usb 3) 2 (omega arith) (omega arith) two
unfolding wire submissions submission collect split
all_delivered = refl

half_close_delivers_example :
    (t : InState) × (in_run (running taken_both) (announce (6 % u64_mod) ∷ close_changed ∷ [])
      ≡ finished (ok true) t)
    × (Receiver.into_stream 3 (record {
      topic = [];
      rx = t.delivered;
      rx_closed = true;
      buffer = [];
      max_size = 16;
      max_transfer_size = 8;
      error = none;
    })
        ≡ (two, ready (ok none)))
half_close_delivers_example =
    half_close_delivers (usb 3) 2 (omega arith) (omega arith) two
      (permit
        ∷ received (ok (some (1 ∷ 2 ∷ 3 ∷ 4 ∷ [])))
        ∷ permit
        ∷ received (ok (some (5 ∷ 6 ∷ [])))
        ∷ [])
      taken_both [] 16 device_ran all_delivered (omega arith)

abbrev full : List ℕ
full = 1 ∷ 2 ∷ 3 ∷ 4 ∷ 5 ∷ 6 ∷ 7 ∷ 8 ∷ []

abbrev cut_off : Receiver.UpcReceiver
cut_off = record (device_receiver (full ∷ [])) { rx_closed = true }

last_message_lost_example :
    (in_task (announce 8 ∷ taking (full ∷ [])) ≡ finished (ok true) (counting 8 8 (full ∷ [])))
    × ((Receiver.recv cut_off).0 ≡ ready (ok none))
last_message_lost_example =
    last_message_lost full [] cut_off (omega arith) (refl, tt) (omega arith) (omega arith) refl refl
      refl refl
