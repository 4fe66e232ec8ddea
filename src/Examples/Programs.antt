-- ===== src/Examples/Programs.antt =====
-- examples/host.rs and examples/device.rs from the connection on, with their seeds and assertions.
use upc.Common.{ℕ, List, [], ◌∷◌, if◌then◌else◌, Option, none, some}
use upc.Host.Interfaces.{same_bytes}
use upc.Host.Sender.{UpcSender as HostSender}
use upc.Host.Receiver.{UpcReceiver as HostReceiver, recv as host_recv}
use upc.Device.Sender.{UpcSender as DeviceSender}
use upc.Device.Receiver.{UpcReceiver as DeviceReceiver, recv as device_recv}
use upc.Cli.Sender.{host_sender, device_sender}
use upc.Examples.TestData.{
  ChaCha8Rng, new, host_seed, device_seed, test_packet_count, test_packet_max_size,
}
use upc.Examples.Halves.{ReceiveEnd, send_half, receive_half}

-- "TEST TOPIC" and "TEST INFO".
abbrev pub topic : List ℕ
topic = b'T' ∷ b'E' ∷ b'S' ∷ b'T' ∷ 32 ∷ b'T' ∷ b'O' ∷ b'P' ∷ b'I' ∷ b'C' ∷ []

abbrev pub info : List ℕ
info = b'T' ∷ b'E' ∷ b'S' ∷ b'T' ∷ 32 ∷ b'I' ∷ b'N' ∷ b'F' ∷ b'O' ∷ []

-- How both halves of a program end; a sending half that panics gives `none`.
pub record Ends (S : Type 0) : Type 0 where
  pub sending : Option (ℕ × S)
  pub receiving : ReceiveEnd

-- A failed assertion at the start is `none`.
module _ {Rng : Type 0} (chacha : ChaCha8Rng Rng) where
  -- `device_info` is what the host reads before it connects.
  unfoldable pub host_program : List ℕ → HostSender → HostReceiver → Option (Ends HostSender)
  unfolding same_bytes new send_half receive_half
  host_program device_info tx rx =
      if same_bytes device_info info
      then some (record {
        sending =
            send_half chacha host_sender test_packet_count
              (new chacha host_seed test_packet_max_size) 0 tx;
        receiving =
            receive_half chacha host_recv test_packet_count
              (new chacha device_seed test_packet_max_size) 0 rx;
      })
      else none

  unfoldable pub device_program : DeviceSender → DeviceReceiver → Option (Ends DeviceSender)
  unfolding same_bytes new send_half receive_half
  device_program tx rx =
      if same_bytes rx.topic topic
      then some (record {
        sending =
            send_half chacha device_sender test_packet_count
              (new chacha device_seed test_packet_max_size) 0 tx;
        receiving =
            receive_half chacha device_recv test_packet_count
              (new chacha host_seed test_packet_max_size) 0 rx;
      })
      else none
