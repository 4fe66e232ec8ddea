-- ===== src/Channel/Examples.antt =====
-- The two programs of examples/ over the channel: host.rs with device.rs, in both directions.
use upc.Common.{
  ℕ, suc, ◌*◌, ◌≤◌, ◌<◌, ◌≡◌, refl, sym, ap, ◌∙◌, List, [], ◌∷◌, ◌++◌, Bool, true, not, Option,
  none, some, ErrorKind, Result, ok, err, diverged, Poll, ready, pending, map, if◌then◌else◌, arith,
}
use mathlib.Core.Path.{subst}
use upc.Common.Lists.{length, concat, All}
use upc.Framing.Controller.{Controller, wire}
use upc.Cli.Sender.{host_sender, device_sender}
use upc.Host.Sender.{UpcSender as HostSender}
use upc.Device.Sender.{UpcSender as DeviceSender}
use upc.Host.OutTask.{Completion, OutState, initial, go, stop, out_loop}
use upc.Host.OutTask.Wire.{rounds, packets_of}
use upc.Device.OutTask.{EpOp, out_task}
use upc.Device.OutTask.Frames.{transfers}
use upc.Device.Receiver.{
  UpcReceiver as DeviceReceiver, recv as device_recv, into_stream as device_stream,
  end_of_channel as device_end, stream_item as device_item,
}
use upc.Host.Receiver.{
  UpcReceiver as HostReceiver, recv as host_recv, into_stream as host_stream, packet_data,
  end_of_channel as host_end, stream_item as host_item,
}
use upc.Channel.ToDevice.{packets_reach_device}
use upc.Channel.ToHost.{packets_reach_host}
use upc.Examples.TestData.{ChaCha8Rng, TestData}
use upc.Examples.Halves.{closed, send_half, receive_half}
use upc.Examples.Laws.{
  RngLaws, Bounded, test_packets, test_packets-fit, send_half-packets, Yields, receive_half-closed,
}

abbrev Received : Type 0
Received = Result (Option (List ℕ))

abbrev Streamed : Type 0
Streamed = List (List ℕ) × Poll Received

abbrev item : Poll Received → Streamed → Streamed
item (ready (ok (some packet))) later = (packet ∷ later.0, later.1)
item polled later = ([], polled)

item_end :
    (p : Poll Received) (later : Streamed) {end : Poll Received}
    → item p later ≡ ([], end)
    → p ≡ end
item_end (ready (ok (some packet))) later e = cc
item_end (ready (ok none)) later e = ap (λ x. x.1) e
item_end (ready (err k)) later e = ap (λ x. x.1) e
item_end (ready diverged) later e = ap (λ x. x.1) e
item_end pending later e = ap (λ x. x.1) e

item_packet :
    (p : Poll Received) (later : Streamed) {d : List ℕ} {ds : List (List ℕ)} {end : Poll Received}
    → item p later ≡ (d ∷ ds, end)
    → (p ≡ ready (ok (some d))) × (later ≡ (ds, end))
item_packet (ready (ok (some packet))) later e = (cc, cc)
item_packet (ready (ok none)) later e = cc
item_packet (ready (err k)) later e = cc
item_packet (ready diverged) later e = cc
item_packet pending later e = cc

-- A receiver whose stream is these packets and then the end answers `recv` with them and the end.
module _ {R : Type 0} (recv : R → Poll Received × R) (stream : ℕ → R → Streamed)
    (polls : (n : ℕ) (r : R) → stream (suc n) r ≡ item (recv r).0 (stream n (recv r).1)) where
  stream-Yields :
      (ds : List (List ℕ)) (r : R)
      → stream (suc (length ds)) r ≡ (ds, ready (ok none))
      → Yields recv r ds
  stream-Yields [] r e = item_end (recv r).0 (stream 0 (recv r).1) (sym (polls 0 r) ∙ e)
  stream-Yields (d ∷ ds) r e =
      let (given, later) =
        item_packet (recv r).0 (stream (suc (length ds)) (recv r).1)
          (sym (polls (suc (length ds)) r) ∙ e) in
      (given, stream-Yields ds (recv r).1 later)

device_polls :
    (n : ℕ) (r : DeviceReceiver)
    → device_stream (suc n) r ≡ item (device_recv r).0 (device_stream n (device_recv r).1)
unfolding device_stream device_item
device_polls n r = refl

host_polls :
    (n : ℕ) (r : HostReceiver)
    → host_stream (suc n) r ≡ item (host_recv r).0 (host_stream n (host_recv r).1)
unfolding host_stream host_item
host_polls n r = refl

abbrev end_of_stream : Bool → Received → Poll Received
end_of_stream is_closed end = if is_closed then ready end else pending

device_done :
    (r : DeviceReceiver)
    → r.rx_closed ≡ true
    → r.error ≡ none
    → end_of_stream r.rx_closed (device_end r.error) ≡ ready (ok none)
unfolding device_end
device_done r is_closed no_error = rw (is_closed, no_error) refl

host_done :
    (r : HostReceiver)
    → r.rx_closed ≡ true
    → r.error ≡ none
    → end_of_stream r.rx_closed (host_end r.error) ≡ ready (ok none)
unfolding host_end
host_done r is_closed no_error = rw (is_closed, no_error) refl

shorter :
    (m n : ℕ)
    → m ≤ n
    → (ds : List (List ℕ)) → All (λ d. length d ≤ m) ds
    → All (λ d. length d ≤ n) ds
shorter m n h [] u = tt
shorter m n h (d ∷ ds) (fit, fits) = (omega arith, shorter m n h ds fits)

-- Test data whose packets are all within `max`, as those of the examples are.
module _ {Rng : Type 0} (chacha : ChaCha8Rng Rng) (laws : RngLaws chacha) {mps : ℕ}
    (c : Controller mps) (k : ℕ) (pos : 0 < mps) (kpos : 0 < k) (n max : ℕ) (td : TestData Rng)
    (bounded : Bounded max td) where
  validated :
      {R : Type 0} (recv : R → Poll Received × R) (r : R)
      → Yields recv r (test_packets chacha n td)
      → receive_half chacha recv n td 0 r ≡ closed (length (concat (test_packets chacha n td)))
  validated recv r yields =
      receive_half-closed chacha laws max recv n td 0 r bounded yields ∙ ap closed (omega arith)

  -- The host's packets, sent and received without failures, are validated by the device example with
  -- the total that the host example sent.
  pub device_example_validates :
      (outcome : ℕ → Completion) (rs : List (List ℕ × ℕ)) (o : OutState) (s : HostSender)
      (r : DeviceReceiver)
      → ((n : ℕ) → (outcome n).status ≡ none)
      → s.tx ≡ []
      → not s.tx_closed ≡ true
      → max ≤ s.max_size
      → packets_of rs ≡ test_packets chacha n td
      → out_loop outcome mps (rounds rs) (go initial) ≡ stop true o
      → r.max_transfer_size ≡ k * mps
      → r.rx ≡ c.receive k (wire c o.submitted)
      → r.buffer ≡ []
      → max ≤ r.max_size
      → r.rx_closed ≡ true
      → r.error ≡ none
      → (total : ℕ) × (s' : HostSender) × (send_half chacha host_sender n td 0 s ≡ some (total, s'))
        × (s'.tx ≡ packets_of rs)
        × (receive_half chacha device_recv n td 0 r ≡ closed total)
  device_example_validates outcome rs o s r good unsent is_open room carried run size queued empty
        fits is_closed no_error =
      let (s', sent, tx) =
        send_half-packets chacha laws max host_sender n td 0 s bounded is_open room in
      let ds = test_packets chacha n td in
      let fit = shorter max r.max_size fits ds (test_packets-fit chacha laws max n td bounded).1 in
      let streamed =
        packets_reach_device c k pos kpos outcome rs o r good run size queued empty
          (subst (All (λ d. length d ≤ r.max_size)) (sym carried) fit) in
      let yields =
        subst
          (λ ds.
            device_stream (suc (length ds)) r
            ≡ (ds, end_of_stream r.rx_closed (device_end r.error)))
          carried streamed in
      (
        length (concat ds),
        s',
        sent ∙ ap (λ t. some (t, s')) (omega arith),
        tx ∙ ap (λ q. q ++ ds) unsent ∙ sym carried,
        validated device_recv r (
            stream-Yields device_recv device_stream device_polls ds r
              (yields ∙ ap (λ end. (ds, end)) (device_done r is_closed no_error))),
      )

  -- The device's packets, sent and received without failures, are validated by the host example with
  -- the total that the device example sent.
  pub host_example_validates :
      (fails : List EpOp → EpOp → Option ErrorKind)
      → ((log : List EpOp) (op : EpOp) → fails log op ≡ none)
      → (s : DeviceSender) (r : HostReceiver) → s.tx ≡ []
      → not s.tx_closed ≡ true
      → max ≤ s.max_size
      → r.max_transfer_size ≡ k * mps
      → map packet_data r.rx
        ≡ c.receive k
            (wire c (transfers (out_task fails mps (k * mps) (test_packets chacha n td)).0))
      → r.buffer ≡ []
      → max ≤ r.max_size
      → r.rx_closed ≡ true
      → r.error ≡ none
      → (total : ℕ) × (s' : DeviceSender) × (send_half chacha device_sender n td 0 s
          ≡ some (total, s'))
        × (s'.tx ≡ test_packets chacha n td)
        × (receive_half chacha host_recv n td 0 r ≡ closed total)
  host_example_validates fails never s r unsent is_open room size queued empty fits is_closed
        no_error =
      let (s', sent, tx) =
        send_half-packets chacha laws max device_sender n td 0 s bounded is_open room in
      let ds = test_packets chacha n td in
      let fit = shorter max r.max_size fits ds (test_packets-fit chacha laws max n td bounded).1 in
      let streamed = packets_reach_host c k pos kpos fails never ds r size queued empty fit in
      (
        length (concat ds),
        s',
        sent ∙ ap (λ t. some (t, s')) (omega arith),
        tx ∙ ap (λ q. q ++ ds) unsent,
        validated host_recv r (
            stream-Yields host_recv host_stream host_polls ds r
              (streamed ∙ ap (λ end. (ds, end)) (host_done r is_closed no_error))),
      )
