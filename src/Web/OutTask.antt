-- ===== src/Web/OutTask.antt =====
-- src/host/web.rs: `out_task`, which sends each queued packet and waits for its transfers.
pub mod Faults
pub mod Laws
pub mod Same
use upc.Common.{
  ℕ, suc, ◌+◌, ◌%◌, List, [], ◌∷◌, ◌++◌, Bool, true, false, ◌&&◌, ltb, ◌==◌, if◌then◌else◌, Option,
  none, some,
}
use upc.Common.Lists.{length}
use upc.Common.Words.{u64_mod}
use upc.Web.Errors.{WebErrorKind, TaskError, web_usb, partial_send, get_or_insert}
use upc.Web.HalfClose.{HalfCloseHandle, close_send}

-- How `transfer_out` ends: with the number of bytes sent, or with an error.
pub data Transfer : Type 0 where
  sent : ℕ → Transfer
  failed : WebErrorKind → Transfer

-- `submitted` are the transfers tried, `error` the error that the tasks share.
pub record OutState : Type 0 where
  pub submitted : List (List ℕ)
  pub total_bytes_sent : ℕ
  pub error : Option TaskError

abbrev pub initial : OutState
initial = record { submitted = []; total_bytes_sent = 0; error = none }

-- What the environment gives to one round: a status that says that the device closed, the end of the
-- queue, or a packet.
pub data Round : Type 0 where
  device_closed : Round
  queue_closed : Round
  packet : List ℕ → Round

-- The loop goes on, or breaks with `host_initiated`.
pub data Flow : Type 0 where
  go : OutState → Flow
  stop : Bool → OutState → Flow

-- A failed transfer: a stall is the device's way to say that it is done receiving.
unfoldable pub record_failure : WebErrorKind → OutState → OutState
unfolding get_or_insert
record_failure WebErrorKind.stall s = s
record_failure e s = record s { error = get_or_insert s.error (web_usb e) }

unfoldable pub submit : List ℕ → OutState → OutState
submit d s = record s { submitted = s.submitted ++ (d ∷ []) }

-- The `match` on the transfer of the packet.
unfoldable pub after_packet : List ℕ → Transfer → OutState → Flow
unfolding record_failure
after_packet d (sent n) s =
    if n == length d
    then go s
    else stop false (record s { error = some (partial_send (length d) n) })
after_packet d (failed e) s = stop false (record_failure e s)

-- The `match` on the zero-length transfer.
unfoldable pub after_terminator : Transfer → OutState → Flow
unfolding record_failure
after_terminator (sent n) s = go s
after_terminator (failed e) s = stop false (record_failure e s)

-- `outcome ts` is how the transfer behind the transfers `ts` ends.
module _ (outcome : List (List ℕ) → List ℕ → Transfer) where
  -- The zero-length packet, if the length is a multiple of `mps`.
  unfoldable pub terminate : ℕ → List ℕ → Flow → Flow
  unfolding submit after_terminator
  terminate mps d (stop host_initiated s) = stop host_initiated s
  terminate mps d (go s) =
      if ltb 0 (length d) && length d % mps == 0
      then after_terminator (outcome s.submitted []) (submit [] s)
      else go s

  unfoldable pub send_packet : ℕ → List ℕ → OutState → Flow
  unfolding submit after_packet terminate
  send_packet mps d s =
      let counted = record s { total_bytes_sent = (s.total_bytes_sent + length d) % u64_mod } in
      terminate mps d (after_packet d (outcome s.submitted d) (submit d counted))

  unfoldable pub out_round : ℕ → Round → OutState → Flow
  unfolding send_packet
  out_round mps device_closed s = stop false s
  out_round mps queue_closed s = stop true s
  out_round mps (packet d) s = send_packet mps d s

  unfoldable pub out_loop : ℕ → List Round → Flow → Flow
  unfolding out_round
  out_loop mps [] flow = flow
  out_loop mps (r ∷ rs) (stop host_initiated s) = stop host_initiated s
  out_loop mps (r ∷ rs) (go s) = out_loop mps rs (out_round mps r s)

-- After the loop: the report to the half-close handle.
unfoldable pub out_finish : Flow → HalfCloseHandle → HalfCloseHandle
unfolding close_send
out_finish (go s) h = h
out_finish (stop host_initiated s) h = close_send host_initiated s.total_bytes_sent h
