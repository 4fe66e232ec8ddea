-- ===== src/Trace/OutTask.antt =====
-- src/device.rs: `out_task` with the calls of its tracer.
pub mod Same
pub mod Reports
use upc.Common.{
  ℕ, zero, suc, ◌%◌, List, [], ◌∷◌, ◌++◌, min, ◌==◌, if◌then◌else◌, Option, ErrorKind, Result, ok,
  err, diverged,
}
use upc.Common.Lists.{length, take, drop}
use upc.Device.OutTask.{EpOp, transfer, flush, Run, perform}
use upc.Trace.{Event, Tracing, device_out}

-- The operations on the endpoint, the tracer, and the events so far. A task that has failed traces no
-- more.
pub record Traced (Tracer : Type 0) : Type 0 where
  pub run : Run
  pub tracer : Tracer
  pub events : List Event

module _ (fails : List EpOp → EpOp → Option ErrorKind) {T : Type 0} (tr : Tracing T) where
  abbrev while_ok : Result (Unit {0}) → Traced T → Traced T → Traced T
  while_ok (ok u) s s' = s'
  while_ok (err e) s s' = s
  while_ok diverged s s' = s

  unfoldable pub report : (T → List Event) → Traced T → Traced T
  report events s = while_ok s.run.1 s (record s { events = s.events ++ events s.tracer })

  unfoldable pub begin : Traced T → Traced T
  begin s = while_ok s.run.1 s (record s { tracer = tr.next s.tracer })

  unfoldable pub perform_traced : EpOp → Traced T → Traced T
  unfolding perform
  perform_traced op s = record s { run = perform fails op s.run }

  unfoldable pub send_parts_traced : ℕ → ℕ → List ℕ → Traced T → Traced T
  unfolding perform_traced report
  send_parts_traced fuel size [] s = s
  send_parts_traced zero size (b ∷ bs) s = record s { run = (s.run.0, diverged) }
  send_parts_traced (suc fuel) size (b ∷ bs) s =
      let n = min (length (b ∷ bs)) size in
      let part = take n (b ∷ bs) in
      send_parts_traced fuel size (drop n (b ∷ bs))
        (perform_traced (transfer part) (report (tr.on_send_part (length part)) s))

  -- The flush, and the empty transfer that ends a packet.
  unfoldable pub terminate_traced : Traced T → Traced T
  unfolding report perform_traced
  terminate_traced s =
      perform_traced (transfer []) (report tr.on_send_terminator (perform_traced flush s))

  unfoldable pub send_packet_traced : ℕ → ℕ → List ℕ → Traced T → Traced T
  unfolding begin report send_parts_traced terminate_traced
  send_packet_traced mps max_transfer_size packet s =
      let begun = report (tr.on_sending_data (length packet)) (begin s) in
      let sent = send_parts_traced (length packet) max_transfer_size packet begun in
      report tr.on_data_finished (if length packet % mps == 0 then terminate_traced sent else sent)

  unfoldable pub out_loop_traced : ℕ → ℕ → List (List ℕ) → Traced T → Traced T
  unfolding send_packet_traced
  out_loop_traced mps max_transfer_size [] s = perform_traced flush s
  out_loop_traced mps max_transfer_size (d ∷ ds) s =
      out_loop_traced mps max_transfer_size ds (send_packet_traced mps max_transfer_size d s)

  unfoldable pub out_task_traced : ℕ → ℕ → List (List ℕ) → Traced T
  unfolding out_loop_traced
  out_task_traced mps max_transfer_size ds =
      out_loop_traced mps max_transfer_size ds
        (record { run = ([], ok tt); tracer = tr.new device_out; events = [] })
