-- ===== src/Host/Receiver.antt =====
-- src/host/mod.rs: `UpcReceiver` and its `recv`, over the `RecvPacket` of src/host/native.rs.
pub mod Reassembly
pub mod Pieces
pub mod Schedule
pub mod Oversize
use upc.Common.{
  ℕ, zero, suc, List, [], ◌∷◌, ◌++◌, ltb, if◌then◌else◌, Bool, true, false, not, ◌&&◌, Option, none,
  some, ErrorKind, out_of_memory, Result, ok, err, diverged, Poll, ready, pending, map,
}
use upc.Common.Lists.{length, take, concat}

-- A DMA buffer with the number of bytes that arrived in it.
pub record RecvPacket : Type 0 where
  pub buffer : List ℕ
  pub actual_len : ℕ
  pub zero_copy : Bool

unfoldable pub packet_data : RecvPacket → List ℕ
packet_data p = take p.actual_len p.buffer

-- `Vec::truncate` keeps the first `actual_len` bytes.
unfoldable pub into_vec : RecvPacket → List ℕ
into_vec p = take p.actual_len p.buffer

-- `error` is the error of the tasks, as the ErrorKind that `to_io_err` makes of it.
pub record UpcReceiver : Type 0 where
  pub rx : List RecvPacket
  pub rx_closed : Bool
  pub error : Option ErrorKind
  pub buffer : List ℕ
  pub max_size : ℕ
  pub max_transfer_size : ℕ

abbrev pub Received : Type 0
Received = Result (Option (List ℕ))

unfoldable pub end_of_channel : Option ErrorKind → Received
end_of_channel (some kind) = err kind
end_of_channel none = ok none

-- The `try_recv` loop: the transfers up to the first short one, what stays queued, and whether a
-- short one was found.
pub record Batch : Type 0 where
  pub batch : List RecvPacket
  pub rest : List RecvPacket
  pub short : Bool

unfoldable pub drain : ℕ → List RecvPacket → Batch
drain size [] = record { batch = []; rest = []; short = false }
drain size (p ∷ rx) =
    let later = drain size rx in
    if ltb (length (packet_data p)) size
    then record { batch = p ∷ []; rest = rx; short = true }
    else record later { batch = p ∷ later.batch }

abbrev is_empty : List ℕ → Bool
is_empty [] = true
is_empty (b ∷ bs) = false

-- The buffer after a batch: an empty one adopts the allocation of the first transfer.
unfoldable pub add_batch : List ℕ → RecvPacket → List RecvPacket → List ℕ
unfolding packet_data into_vec
add_batch buffer first batch =
    if is_empty buffer && not first.zero_copy
    then into_vec first ++ concat (map packet_data batch)
    else buffer ++ concat (map packet_data (first ∷ batch))

-- The transfers taken by one round: the first, and unless it is short those queued behind it.
unfoldable pub take_batch : ℕ → RecvPacket → List RecvPacket → Batch
unfolding drain packet_data
take_batch size first rx =
    if ltb (length (packet_data first)) size
    then record { batch = []; rest = rx; short = true }
    else drain size rx

-- The loop of `recv`; a round takes a transfer at least, so the length of the queue is enough fuel.
unfoldable pub recv_loop : ℕ → List RecvPacket → UpcReceiver → Poll Received × UpcReceiver
unfolding end_of_channel take_batch add_batch
recv_loop fuel [] r =
    (if r.rx_closed then ready (end_of_channel r.error) else pending, record r { rx = [] })
recv_loop zero (first ∷ rx) r = (ready diverged, r)
recv_loop (suc fuel) (first ∷ rx) r =
    let b = take_batch r.max_transfer_size first rx in
    let buffer = add_batch r.buffer first b.batch in
    let again = recv_loop fuel b.rest (record r { buffer = buffer }) in
    if ltb r.max_size (length buffer)
    then (ready (err out_of_memory), record r { rx = b.rest; buffer = [] })
    else if b.short
    then (ready (ok (some buffer)), record r { rx = b.rest; buffer = [] })
    else again

unfoldable pub recv : UpcReceiver → Poll Received × UpcReceiver
unfolding recv_loop
recv r = recv_loop (length r.rx) r.rx r

-- One item of `into_stream` in front of the later ones, or what ends the series.
unfoldable pub stream_item :
    Poll Received → List (List ℕ) × Poll Received → List (List ℕ) × Poll Received
stream_item (ready (ok (some packet))) later = (packet ∷ later.0, later.1)
stream_item polled later = ([], polled)

-- `into_stream`, polled at most so many times: the packets, and what the last poll answered.
unfoldable pub into_stream : ℕ → UpcReceiver → List (List ℕ) × Poll Received
unfolding stream_item
into_stream zero r = ([], pending)
into_stream (suc n) r = stream_item (recv r).0 (into_stream n (recv r).1)
