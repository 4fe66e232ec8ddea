-- ===== src/Channel/Programs.antt =====
-- examples/host.rs and examples/device.rs as a whole, over the channel in both directions.
use upc.Common.{
  ℕ, ◌*◌, ◌≤◌, ◌<◌, ◌≡◌, refl, List, [], true, not, Option, none, some, ErrorKind, map,
}
use upc.Framing.Controller.{Controller, wire}
use upc.Host.Sender.{UpcSender as HostSender}
use upc.Device.Sender.{UpcSender as DeviceSender}
use upc.Host.Interfaces.{same_bytes}
use upc.Host.OutTask.{Completion, OutState, initial, go, stop, out_loop}
use upc.Host.OutTask.Wire.{rounds, packets_of}
use upc.Device.OutTask.{EpOp, out_task}
use upc.Device.OutTask.Frames.{transfers}
use upc.Device.Receiver.{UpcReceiver as DeviceReceiver}
use upc.Host.Receiver.{UpcReceiver as HostReceiver, packet_data}
use upc.Channel.Examples.{device_example_validates, host_example_validates}
use upc.Examples.TestData.{
  ChaCha8Rng, new, test_packet_max_size, test_packet_count, host_seed, device_seed,
}
use upc.Examples.Halves.{closed}
use upc.Examples.Laws.{RngLaws, new-Bounded, test_packets}
use upc.Examples.Programs.{info, topic, host_program, device_program}

abbrev pub packets : {Rng : Type 0} → ChaCha8Rng Rng → ℕ → List (List ℕ)
packets chacha seed = test_packets chacha test_packet_count (new chacha seed test_packet_max_size)

-- A queue between an open sender and its task, and one between a task and a receiver that is closed
-- without an error and holds the transfers `ts`.
pub record HostReady (s : HostSender) (r : HostReceiver) (size : ℕ) (ts : List (List ℕ))
    : Type 0 where
  pub unsent : s.tx ≡ []
  pub is_open : not s.tx_closed ≡ true
  pub send_room : test_packet_max_size ≤ s.max_size
  pub transfer_size : r.max_transfer_size ≡ size
  pub queued : map packet_data r.rx ≡ ts
  pub empty : r.buffer ≡ []
  pub room : test_packet_max_size ≤ r.max_size
  pub is_closed : r.rx_closed ≡ true
  pub no_error : r.error ≡ none

pub record DeviceReady (s : DeviceSender) (r : DeviceReceiver) (size : ℕ) (ts : List (List ℕ))
    : Type 0 where
  pub unsent : s.tx ≡ []
  pub is_open : not s.tx_closed ≡ true
  pub send_room : test_packet_max_size ≤ s.max_size
  pub transfer_size : r.max_transfer_size ≡ size
  pub queued : r.rx ≡ ts
  pub empty : r.buffer ≡ []
  pub room : test_packet_max_size ≤ r.max_size
  pub is_closed : r.rx_closed ≡ true
  pub no_error : r.error ≡ none

module _ {Rng : Type 0} (chacha : ChaCha8Rng Rng) (laws : RngLaws chacha) {mps : ℕ}
    (c : Controller mps) (k : ℕ) (pos : 0 < mps) (kpos : 0 < k) (outcome : ℕ → Completion)
    (good : (n : ℕ) → (outcome n).status ≡ none) (fails : List EpOp → EpOp → Option ErrorKind)
    (never : (log : List EpOp) (op : EpOp) → fails log op ≡ none) where
  -- Where rand gives numbers within the range and fills slices, neither the host's transfers nor
  -- the device's endpoint fail, both senders are open and all limits are not below the largest test
  -- packet, the host's task ends on the close of its queue after the test packets of the host, the
  -- queues of both receivers hold the transfers of `k` packets that the endpoint model makes of
  -- what the other side sent, nothing is sent or buffered before, both receivers are closed without
  -- an error, and the info and the topic are the expected ones: then both example programs send and
  -- validate all packets without a panic, and each ends with the total that the other one sent.
  pub programs_complete :
      (rs : List (List ℕ × ℕ)) (o : OutState) (s : HostSender) (h : HostReceiver) (d : DeviceSender)
      (r : DeviceReceiver) (device_info : List ℕ)
      → packets_of rs ≡ packets chacha host_seed
      → out_loop outcome mps (rounds rs) (go initial) ≡ stop true o
      → HostReady s h (k * mps) (
          c.receive k
            (wire c (transfers (out_task fails mps (k * mps) (packets chacha device_seed)).0)))
      → DeviceReady d r (k * mps) (c.receive k (wire c o.submitted))
      → same_bytes device_info info ≡ true
      → same_bytes r.topic topic ≡ true
      → (a b : ℕ) × (s' : HostSender) × (d' : DeviceSender) × (host_program chacha device_info s h
          ≡ some (record { sending = some (a, s'); receiving = closed b }))
        × (device_program chacha d r
            ≡ some (record { sending = some (b, d'); receiving = closed a }))
  unfolding host_program device_program
  programs_complete rs o s h d r device_info carried run host device info_read topic_read =
      let (a, s', sent, q, validated) =
        device_example_validates chacha laws c k pos kpos test_packet_count test_packet_max_size
          (new chacha host_seed test_packet_max_size) (new-Bounded chacha host_seed) outcome rs o s
          r good host.unsent host.is_open host.send_room carried run device.transfer_size
          device.queued device.empty device.room device.is_closed device.no_error in
      let (b, d', sent', q', validated') =
        host_example_validates chacha laws c k pos kpos test_packet_count test_packet_max_size
          (new chacha device_seed test_packet_max_size) (new-Bounded chacha device_seed) fails never
          d h device.unsent device.is_open device.send_room host.transfer_size host.queued
          host.empty host.room host.is_closed host.no_error in
      (a, b, s', d', rw (info_read, sent, validated') refl, rw (topic_read, sent', validated) refl)
