-- ===== src/Trace/OutTask/Same.antt =====
-- The device's `out_task` (src/device.rs) with a tracer against the one without.
use upc.Common.{
  ℕ, zero, suc, ◌%◌, ◌≡◌, refl, ap, ◌∙◌, List, [], ◌∷◌, Bool, true, false, min, ◌==◌, if◌then◌else◌,
  Option, ErrorKind, Result, ok, err, diverged,
}
use upc.Common.Lists.{length, take, drop}
use upc.Device.OutTask.{
  EpOp, transfer, flush, Run, perform, send_parts, send_packet, out_loop, out_task,
}
use upc.Trace.{Event, Tracing}
use upc.Trace.OutTask.{
  Traced, while_ok, report, begin, perform_traced, send_parts_traced, send_packet_traced,
  terminate_traced, out_loop_traced, out_task_traced,
}

module _ (fails : List EpOp → EpOp → Option ErrorKind) {T : Type 0} (tr : Tracing T) where
  while_ok-run :
      (r : Result (Unit {0})) (s s' : Traced T)
      → s'.run ≡ s.run
      → (while_ok fails tr r s s').run ≡ s.run
  while_ok-run (ok u) s s' same = same
  while_ok-run (err e) s s' same = refl
  while_ok-run diverged s s' same = refl

  report-run : (events : T → List Event) (s : Traced T) → (report fails tr events s).run ≡ s.run
  unfolding report
  report-run events s = while_ok-run s.run.1 s _ refl

  begin-run : (s : Traced T) → (begin fails tr s).run ≡ s.run
  unfolding begin
  begin-run s = while_ok-run s.run.1 s _ refl

  perform-run :
      (op : EpOp) (s : Traced T) → (perform_traced fails tr op s).run ≡ perform fails op s.run
  unfolding perform_traced
  perform-run op s = refl

  parts-run :
      (fuel size : ℕ) (d : List ℕ) (s : Traced T)
      → (send_parts_traced fails tr fuel size d s).run ≡ send_parts fails fuel size d s.run
  unfolding send_parts_traced send_parts
  parts-run zero size [] s = refl
  parts-run (suc fuel) size [] s = refl
  parts-run zero size (b ∷ bs) s = refl
  parts-run (suc fuel) size (b ∷ bs) s =
      let n = min (length (b ∷ bs)) size in
      let part = take n (b ∷ bs) in
      parts-run fuel size (drop n (b ∷ bs)) _
      ∙ ap (λ r. send_parts fails fuel size (drop n (b ∷ bs)) (perform fails (transfer part) r))
          (report-run (tr.on_send_part (length part)) s)

  terminate-run :
      (s : Traced T)
      → (terminate_traced fails tr s).run ≡ perform fails (transfer []) (perform fails flush s.run)
  unfolding terminate_traced
  terminate-run s =
      ap (perform fails (transfer []))
        (report-run tr.on_send_terminator (perform_traced fails tr flush s))

  if-run :
      (b : Bool) (x y : Traced T) {p q : Run}
      → x.run ≡ p
      → y.run ≡ q
      → (if b then x else y).run ≡ (if b then p else q)
  if-run true x y e f = e
  if-run false x y e f = f

  packet-run :
      (mps size : ℕ) (d : List ℕ) (s : Traced T)
      → (send_packet_traced fails tr mps size d s).run ≡ send_packet fails mps size d s.run
  unfolding send_packet_traced send_packet
  packet-run mps size d s =
      let begun = report fails tr (tr.on_sending_data (length d)) (begin fails tr s) in
      let sent = send_parts_traced fails tr (length d) size d begun in
      let same : sent.run ≡ send_parts fails (length d) size d s.run =
        parts-run (length d) size d begun
        ∙ ap (send_parts fails (length d) size d)
            (report-run (tr.on_sending_data (length d)) (begin fails tr s) ∙ begin-run s) in
      report-run tr.on_data_finished _
      ∙ if-run (length d % mps == 0) (terminate_traced fails tr sent) sent
          (terminate-run sent ∙ ap (λ r. perform fails (transfer []) (perform fails flush r)) same)
          same

  loop-run :
      (mps size : ℕ) (ds : List (List ℕ)) (s : Traced T)
      → (out_loop_traced fails tr mps size ds s).run ≡ out_loop fails mps size ds s.run
  unfolding out_loop_traced out_loop
  loop-run mps size [] s = refl
  loop-run mps size (d ∷ ds) s =
      loop-run mps size ds (send_packet_traced fails tr mps size d s)
      ∙ ap (out_loop fails mps size ds) (packet-run mps size d s)

  pub out_task_traced-run :
      (mps size : ℕ) (ds : List (List ℕ))
      → (out_task_traced fails tr mps size ds).run ≡ out_task fails mps size ds
  unfolding out_task_traced out_task
  out_task_traced-run mps size ds = loop-run mps size ds _
