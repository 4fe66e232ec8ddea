-- ===== src/Tests/Programs.antt =====
-- Both example programs with a generator that counts.
use upc.Common.{ℕ, ◌*◌, ◌≡◌, refl, ap, List, [], ◌∷◌, true, false, none, some, map, arith}
use upc.Common.Lists.{length, take_all}
use upc.Framing.Controller.{wire}
use upc.Tests.Usb.{usb}
use upc.Tests.Examples.{counter, counter_laws, never}
use upc.Host.Sender.{UpcSender as HostSender}
use upc.Device.Sender.{UpcSender as DeviceSender}
use upc.Host.OutTask.{Completion, OutState, initial, go, stop, out_loop}
use upc.Host.OutTask.Wire.{rounds, packets_of, out_task_announces}
use upc.Device.OutTask.{out_task}
use upc.Device.OutTask.Frames.{transfers}
use upc.Device.Receiver.{UpcReceiver as DeviceReceiver}
use upc.Host.Receiver.{RecvPacket, UpcReceiver as HostReceiver, packet_data}
use upc.Examples.TestData.{host_seed, device_seed}
use upc.Examples.Halves.{closed}
use upc.Examples.Programs.{info, topic, host_program, device_program}
use upc.Channel.Programs.{packets, programs_complete}
use upc.Host.Interfaces.{same_bytes}

abbrev without_completions : List (List ℕ) → List (List ℕ × ℕ)
without_completions [] = []
without_completions (d ∷ ds) = (d, 0) ∷ without_completions ds

packets_of-without_completions : (ds : List (List ℕ)) → packets_of (without_completions ds) ≡ ds
packets_of-without_completions [] = refl
packets_of-without_completions (d ∷ ds) = ap (◌∷◌ d) (packets_of-without_completions ds)

abbrev all_good : ℕ → Completion
all_good n = record { status = none; actual_len = 0 }

abbrev queued : List (List ℕ × ℕ)
queued = without_completions (packets counter host_seed)

ran : (o : OutState) × (out_loop all_good 512 (rounds queued) (go initial) ≡ stop true o)
ran =
    let (s, s', run, fin, sub, sub') = out_task_announces all_good (λ n. refl) 512 queued in
    (s, run)

abbrev arrived : List ℕ → RecvPacket
arrived bytes = record { buffer = bytes; actual_len = length bytes; zero_copy = true }

arrived-packet_data : (ts : List (List ℕ)) → map packet_data (map arrived ts) ≡ ts
unfolding packet_data
arrived-packet_data [] = refl
arrived-packet_data (t ∷ ts) = rw (take_all (length t) t (omega arith), arrived-packet_data ts) refl

abbrev to_host : List (List ℕ)
to_host =
    (usb 511).receive 128
      (wire (usb 511) (transfers (out_task never 512 (128 * 512) (packets counter device_seed)).0))

abbrev to_device : List (List ℕ)
to_device = (usb 511).receive 128 (wire (usb 511) ran.0.submitted)

abbrev host_tx : HostSender
host_tx = record { tx = []; tx_closed = false; error = none; max_size = 16_777_216 }

abbrev host_rx : HostReceiver
host_rx = record {
  rx = map arrived to_host;
  rx_closed = true;
  error = none;
  buffer = [];
  max_size = 16_777_216;
  max_transfer_size = 128 * 512;
}

abbrev device_tx : DeviceSender
device_tx = record { tx = []; tx_closed = false; error = none; max_size = 16_777_216 }

abbrev device_rx : DeviceReceiver
device_rx = record {
  topic = topic;
  rx = to_device;
  rx_closed = true;
  buffer = [];
  max_size = 16_777_216;
  max_transfer_size = 128 * 512;
  error = none;
}

same_info : same_bytes info info ≡ true
unfolding same_bytes
same_info = refl

same_topic : same_bytes topic topic ≡ true
unfolding same_bytes
same_topic = refl

programs_complete_example :
    (a b : ℕ) × (s' : HostSender) × (d' : DeviceSender) × (host_program counter info host_tx host_rx
      ≡ some (record { sending = some (a, s'); receiving = closed b }))
    × (device_program counter device_tx device_rx
        ≡ some (record { sending = some (b, d'); receiving = closed a }))
programs_complete_example =
    programs_complete counter counter_laws (usb 511) 128 (omega arith) (omega arith) all_good
      (λ n. refl) never (λ log op. refl) queued ran.0 host_tx host_rx device_tx device_rx info
      (packets_of-without_completions (packets counter host_seed)) ran.1
      (record {
        unsent = refl;
        is_open = refl;
        send_room = omega arith;
        transfer_size = refl;
        queued = arrived-packet_data to_host;
        empty = refl;
        room = omega arith;
        is_closed = refl;
        no_error = refl;
      })
      (record {
        unsent = refl;
        is_open = refl;
        send_room = omega arith;
        transfer_size = refl;
        queued = refl;
        empty = refl;
        room = omega arith;
        is_closed = refl;
        no_error = refl;
      })
      same_info same_topic
