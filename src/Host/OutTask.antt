-- ===== src/Host/OutTask.antt =====
-- src/host/native.rs: `out_task`, which submits queued packets as USB transfers.
pub mod Wire
use upc.Common.{
  ℕ, zero, suc, ◌+◌, ◌-◌, ◌%◌, List, [], ◌∷◌, ◌++◌, Bool, true, false, ◌&&◌, ◌||◌, ltb, leb, ◌==◌,
  if◌then◌else◌, Option, none, some,
}
use upc.Common.Lists.{length}
use upc.Common.Words.{u64_mod}
use upc.Host.Errors.{TransferError, TaskError, transfer, partial_send, get_or_insert}
use upc.Host.HalfClose.{HalfCloseHandle, close_send}

abbrev pub dma_buffers : ℕ
dma_buffers = 8

-- How a submitted transfer ends: an error if there is one, and the bytes that went out.
pub record Completion : Type 0 where
  pub status : Option TransferError
  pub actual_len : ℕ

-- `pending` are the lengths of the transfers that have not completed, the oldest first.
pub record OutState : Type 0 where
  pub submitted : List (List ℕ)
  pub pending : List ℕ
  pub completed : ℕ
  pub total_bytes_sent : ℕ
  pub error : Option TaskError

abbrev pub initial : OutState
initial = record { submitted = []; pending = []; completed = 0; total_bytes_sent = 0; error = none }

unfoldable pub submit : List ℕ → OutState → OutState
submit d s = record s {
  submitted = s.submitted ++ (d ∷ []);
  pending = s.pending ++ (length d ∷ []);
}

-- A packet in one transfer, and an empty one behind it if its length is a multiple of `mps`.
unfoldable pub submit_packet : ℕ → List ℕ → OutState → OutState
unfolding submit
submit_packet mps d s =
    let s' = submit d (record s { total_bytes_sent = (s.total_bytes_sent + length d) % u64_mod }) in
    if ltb 0 (length d) && length d % mps == 0 then submit [] s' else s'

-- A failed transfer: a stall is the device's way to say that it is done receiving.
unfoldable pub record_failure : TransferError → OutState → OutState
unfolding get_or_insert
record_failure TransferError.stall s = s
record_failure e s = record s { error = get_or_insert s.error (transfer e) }

-- The loop goes on or breaks, with `host_initiated` then.
pub data Flow : Type 0 where
  go : OutState → Flow
  stop : Bool → OutState → Flow

-- What the environment gives to one round: a status that says that the device closed, the end of the
-- queue, or a packet, and then the number of transfers that are found complete without waiting.
pub data Round : Type 0 where
  device_closed : Round
  queue_closed : Round
  packet : List ℕ → ℕ → Round

-- `outcome n` is how the n-th transfer of the connection ends.
module _ (outcome : ℕ → Completion) where
  -- A completion that is no error; too few bytes are recorded, and the task goes on.
  unfoldable pub check_len : ℕ → OutState → OutState
  check_len len s =
      if (outcome s.completed).actual_len == len
      then s
      else record s { error = some (partial_send len (outcome s.completed).actual_len) }

  abbrev pub taken : List ℕ → OutState → OutState
  taken rest s = record s { pending = rest; completed = suc s.completed }

  -- The `get_complete` loop: with `dma_buffers` transfers pending it waits, with fewer it takes those
  -- that are complete.
  unfoldable pub complete_loop : List ℕ → ℕ → OutState → Flow
  unfolding check_len record_failure
  complete_loop [] ready s = go s
  complete_loop (len ∷ rest) ready s =
      let good = complete_loop rest (ready - 1) (taken rest (check_len len s)) in
      if leb dma_buffers (length (len ∷ rest)) || ltb 0 ready
      then elim (outcome s.completed).status [
        | some e ↦ stop false (taken rest (record_failure e s))
        | none ↦ good
      ]
      else go s

  -- A round of the task's loop.
  unfoldable pub out_round : ℕ → Round → OutState → Flow
  unfolding complete_loop submit_packet
  out_round mps device_closed s = stop false s
  out_round mps queue_closed s = stop true s
  out_round mps (packet d ready) s =
      let s' = submit_packet mps d s in complete_loop s'.pending ready s'

  unfoldable pub out_loop : ℕ → List Round → Flow → Flow
  unfolding out_round
  out_loop mps [] flow = flow
  out_loop mps (r ∷ rs) (stop host_initiated s) = stop host_initiated s
  out_loop mps (r ∷ rs) (go s) = out_loop mps rs (out_round mps r s)

  -- The pending transfers are waited for; any error takes the close for the device's.
  unfoldable pub drain_loop : List ℕ → Bool → OutState → Bool × OutState
  unfolding record_failure
  drain_loop [] host_initiated s = (host_initiated, s)
  drain_loop (len ∷ rest) host_initiated s =
      let s' : OutState = elim (outcome s.completed).status [
        | some e ↦ record_failure e s
        | none ↦ s
      ] in
      let h : Bool = elim (outcome s.completed).status [ some e ↦ false | none ↦ host_initiated ] in
      drain_loop rest h (taken rest s')

  -- After the loop: the drain, and the report to the half-close handle.
  unfoldable pub out_finish : Bool → OutState → HalfCloseHandle → OutState × HalfCloseHandle
  unfolding drain_loop
  out_finish host_initiated s h =
      let (host_initiated', s') = drain_loop s.pending host_initiated s in
      (s', close_send host_initiated' s'.total_bytes_sent h)
