-- ===== src/Device/OutTask.antt =====
-- src/device.rs: `out_task`, which turns queued packets into USB transfers.
pub mod Frames
pub mod Failures
use upc.Common.{
  ℕ, zero, suc, ◌%◌, List, [], ◌∷◌, ◌++◌, min, ◌==◌, if◌then◌else◌, Option, none, some, ErrorKind,
  Result, ok, err, diverged,
}
use upc.Common.Lists.{length, take, drop}

-- What the task asks of the IN endpoint.
pub data EpOp : Type 0 where
  transfer : List ℕ → EpOp
  flush : EpOp

-- The operations so far, and whether the task goes on.
abbrev pub Run : Type 0
Run = List EpOp × Result (Unit {0})

-- `fails` is the endpoint: the error, if any, of an operation after the operations before it.
module _ (fails : List EpOp → EpOp → Option ErrorKind) where
  abbrev outcome : Option ErrorKind → Result (Unit {0})
  outcome none = ok tt
  outcome (some e) = err e

  -- One awaited operation, with `?`.
  unfoldable pub perform : EpOp → Run → Run
  perform op (log, ok u) = (log ++ (op ∷ []), outcome (fails log op))
  perform op (log, err e) = (log, err e)
  perform op (log, diverged) = (log, diverged)

  -- The inner loop: `data.split_to(data.len().min(max_transfer_size))` until nothing is left.
  unfoldable pub send_parts : ℕ → ℕ → List ℕ → Run → Run
  unfolding perform
  send_parts fuel size [] run = run
  send_parts zero size (b ∷ bs) run = (run.0, diverged)
  send_parts (suc fuel) size (b ∷ bs) run =
      let n = min (length (b ∷ bs)) size in
      send_parts fuel size (drop n (b ∷ bs)) (perform (transfer (take n (b ∷ bs))) run)

  -- The body of the outer loop. The fuel of the inner one is the length of the packet.
  unfoldable pub send_packet : ℕ → ℕ → List ℕ → Run → Run
  unfolding send_parts
  send_packet mps max_transfer_size packet run =
      let sent = send_parts (length packet) max_transfer_size packet run in
      if length packet % mps == 0 then perform (transfer []) (perform flush sent) else sent

  -- The outer loop, over the packets that the queue gives until the sender is dropped.
  unfoldable pub out_loop : ℕ → ℕ → List (List ℕ) → Run → Run
  unfolding send_packet
  out_loop mps max_transfer_size [] run = perform flush run
  out_loop mps max_transfer_size (packet ∷ packets) run =
      out_loop mps max_transfer_size packets (send_packet mps max_transfer_size packet run)

  unfoldable pub out_task : ℕ → ℕ → List (List ℕ) → Run
  unfolding out_loop
  out_task mps max_transfer_size packets = out_loop mps max_transfer_size packets ([], ok tt)
