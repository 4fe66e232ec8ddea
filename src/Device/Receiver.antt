-- ===== src/Device/Receiver.antt =====
-- src/device.rs: `UpcReceiver` and `UpcReceiver::recv`.
pub mod Reassembly
pub mod Oversize
pub mod Schedule
use upc.Common.{
  ℕ, zero, suc, List, [], ◌∷◌, ◌++◌, ltb, if◌then◌else◌, Bool, true, false, Option, none, some,
  ErrorKind, invalid_data, Result, ok, err, Poll, ready, pending,
}
use upc.Common.Lists.{length}

-- `rx` is the queue of the mpsc channel, `rx_closed` that its sender is gone, and `error` the value
-- of the watch channel.
pub record UpcReceiver : Type 0 where
  pub topic : List ℕ
  pub rx : List (List ℕ)
  pub rx_closed : Bool
  pub buffer : List ℕ
  pub max_size : ℕ
  pub max_transfer_size : ℕ
  pub error : Option ErrorKind

-- `Ok(Some(packet))`, `Ok(None)` or an error.
abbrev pub Received : Type 0
Received = Result (Option (List ℕ))

-- The channel is closed: an error, or a clean half-close. `channel_error` keeps the kind.
unfoldable pub end_of_channel : Option ErrorKind → Received
end_of_channel (some kind) = err kind
end_of_channel none = ok none

-- The loop of `recv`, over what the queue holds. A future that waits keeps its state in the receiver,
-- so polling it again is calling it again.
unfoldable pub recv_loop : List (List ℕ) → UpcReceiver → Poll Received × UpcReceiver
unfolding end_of_channel
recv_loop [] r =
    (if r.rx_closed then ready (end_of_channel r.error) else pending, record r { rx = [] })
recv_loop (packet ∷ rx) r =
    let buffer = r.buffer ++ packet in
    let rest = recv_loop rx (record r { buffer = buffer }) in
    if ltb r.max_size (length buffer)
    then (ready (err invalid_data), record r { rx = rx; buffer = [] })
    else if ltb (length packet) r.max_transfer_size
    then (ready (ok (some buffer)), record r { rx = rx; buffer = [] })
    else rest

unfoldable pub recv : UpcReceiver → Poll Received × UpcReceiver
unfolding recv_loop
recv r = recv_loop r.rx r

-- One item of the stream in front of the later ones, or what ends the series.
unfoldable pub stream_item :
    Poll Received → List (List ℕ) × Poll Received → List (List ℕ) × Poll Received
stream_item (ready (ok (some packet))) later = (packet ∷ later.0, later.1)
stream_item polled later = ([], polled)

-- `into_stream`, polled at most so many times: the packets, and what the last poll answered.
unfoldable pub into_stream : ℕ → UpcReceiver → List (List ℕ) × Poll Received
unfolding stream_item
into_stream zero r = ([], pending)
into_stream (suc n) r = stream_item (recv r).0 (into_stream n (recv r).1)
