-- ===== src/Tests/Host.antt =====
-- The host's side on concrete inputs.
use upc.Common.{
  ℕ, ◌*◌, ◌≡◌, refl, List, [], ◌∷◌, ◌++◌, true, false, Option, none, some, ok, arith, map,
}
use upc.Common.Lists.{length}
use upc.Protocol.{Class, transfer_packets}
use upc.Caps.Device.{DeviceCapabilities, from_millis}
use upc.Caps.Device
use upc.Device.Task.{to_usize}
use upc.Host.Errors.{UsbErrorKind}
use upc.Host.Options.{UpcOptions, status_interval}
use upc.Host.Receiver.{RecvPacket, UpcReceiver, packet_data}
use upc.Host.Receiver.{recv}
use upc.Common.{err, out_of_memory}
use upc.Host.Receiver.Schedule.{
  Step, arrives, polled, arrivals, arrive, answers, held, received, next_answer, answers-held,
}
use upc.Host.Receiver.Oversize.{idle, oversized_by_time}
use upc.Host.HalfClose.{new, sending, receiving, calls}
use upc.Host.HalfClose.Laws.{IsOnce, calls-new-IsOnce}
use upc.Host.StatusTask.{Watched}
use upc.Host.Interfaces.{bulk_in, bulk_out, InterfaceDesc, got, probe}
use upc.Host.Connect.{Answers, stale, timed_out, Connection, next, connect_with, build}
use upc.Host.Connect.Limits.{connect_with_limits}

abbrev pub word : ℕ
word = 18_446_744_073_709_551_615

abbrev arrived : List ℕ → RecvPacket
arrived bytes = record { buffer = bytes; actual_len = length bytes; zero_copy = true }

abbrev eight : List ℕ
eight = 1 ∷ 2 ∷ 3 ∷ 4 ∷ 5 ∷ 6 ∷ 7 ∷ 8 ∷ []

abbrev receiver : UpcReceiver
receiver = record {
  rx = arrived eight ∷ arrived (9 ∷ []) ∷ arrived (5 ∷ []) ∷ [];
  rx_closed = false;
  error = none;
  buffer = [];
  max_size = 16;
  max_transfer_size = 8;
}

abbrev empty_receiver : UpcReceiver
empty_receiver = record receiver { rx = [] }

-- A poll between the transfers of a message, and two behind it.
abbrev schedule : List Step
schedule =
    arrives (arrived eight)
    ∷ polled
    ∷ arrives (arrived (9 ∷ []))
    ∷ polled
    ∷ polled
    ∷ arrives (arrived (5 ∷ []))
    ∷ polled
    ∷ arrives (arrived eight)
    ∷ polled
    ∷ []

answered_in_order :
    (answers schedule empty_receiver).0 ≡ received (eight ++ (9 ∷ [])) ∷ received (5 ∷ []) ∷ []
unfolding answers recv packet_data
answered_in_order = refl

answers-held_example :
    let (xs, s) = answers schedule empty_receiver in
    (xs ++ map received (held s) ≡ map received (held (arrive (arrivals schedule) empty_receiver)))
    × ((recv s).0 ≡ next_answer (held s))
answers-held_example =
    answers-held schedule empty_receiver refl (unfold packet_data in (omega arith))

abbrev small : UpcReceiver
small = record receiver { max_size = 7 }

oversized_by_time_example :
    ((answers
        (map arrives (arrived eight ∷ arrived (9 ∷ []) ∷ []) ++ polled ∷ polled ∷ [])
        (idle small)).0
      ≡ err out_of_memory ∷ [])
    × ((answers
          (map arrives (arrived eight ∷ []) ++ polled ∷ arrives (arrived (9 ∷ [])) ∷ polled ∷ [])
          (idle small)).0
        ≡ err out_of_memory ∷ ok (some (packet_data (arrived (9 ∷ [])))) ∷ [])
oversized_by_time_example =
    oversized_by_time small refl (arrived eight) [] (arrived (9 ∷ []))
      (unfold packet_data in (omega arith)) (unfold packet_data in (omega arith))
      (unfold packet_data in (omega arith)) (unfold packet_data in (omega arith))

calls-new-IsOnce_example :
    IsOnce (calls (sending true 9 ∷ sending true 9 ∷ receiving false ∷ []) new)
calls-new-IsOnce_example = calls-new-IsOnce (sending true 9 ∷ sending true 9 ∷ receiving false ∷ [])

abbrev upc_class : Class
upc_class = record { class = 255; sub_class = 1; protocol = 2 }

abbrev pub interfaces : List InterfaceDesc
interfaces =
    record { number = 0; class = record { class = 3; sub_class = 0; protocol = 0 }; endpoints = [] }
    ∷ record {
      number = 1;
      class = upc_class;
      endpoints =
          record { kind = bulk_in; max_packet_size = 512; address = 0x81 }
          ∷ record { kind = bulk_out; max_packet_size = 512; address = 0x01 }
          ∷ [];
    }
    ∷ []

abbrev no_error : Option UsbErrorKind
no_error = none

answered : probe none (got (b'U' ∷ b'P' ∷ b'C' ∷ [])) ≡ ok true
unfolding probe
answered = refl

abbrev pub caps : DeviceCapabilities
caps = record {
  ping_timeout = some (from_millis 10_000);
  status_supported = true;
  echo_supported = true;
  max_size = 65_536;
}

-- The first claim finds the interface busy, and the flush finds one stale transfer.
abbrev pub device_answers : Answers
device_answers = record {
  configuration = some interfaces;
  claims = (0, some UsbErrorKind.busy) ∷ (50_000_000, none) ∷ [];
  open_in = none;
  open_out = none;
  clear_in = none;
  clear_out = none;
  close = none;
  flushes = stale ∷ timed_out ∷ [];
  caps = got (Device.encode caps);
  host_caps = none;
  open_connection = none;
}

abbrev pub options : UpcOptions
options = record { topic = 7 ∷ []; ping_interval = some 5_000_000_000; max_size = 1_000 }

abbrev pub connected : Connection
connected = build word options caps 512

pub connects : (connect_with word device_answers 1 options).1 ≡ next connected
unfolding connect_with upc.Tlv.decode Device.encode upc.Tlv.encode Device.apply_entry
connects = refl

connect_with_limits_example :
    (connected.sender.max_size ≡ to_usize word 65_536)
    × (connected.receiver.max_size ≡ 1_000)
    × (connected.receiver.max_transfer_size ≡ connected.mps * transfer_packets)
    × (connected.status_interval ≡ status_interval options caps)
connect_with_limits_example =
    connect_with_limits word device_answers 1 options connected caps 10_000 (omega arith)
      (omega arith) (omega arith) refl refl connects

abbrev watched : Watched
watched = record { status = record { recv_closed = false; dead = false }; error = none }
