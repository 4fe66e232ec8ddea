-- ===== src/Trace/OutTask/Reports.antt =====
-- What the tracer of the device's `out_task` (src/device.rs) reports against what the task does.
use upc.Common.{
  ℕ, zero, suc, ◌%◌, ◌≡◌, refl, sym, ap, ◌∙◌, List, [], ◌∷◌, ◌++◌, Bool, true, false, min, ◌==◌,
  if◌then◌else◌, Option, ErrorKind, Result, ok, err, diverged, map,
}
use mathlib.Core.List.{map-append, append-nil, append_assoc}
use upc.Common.Lists.{length, take, drop}
use upc.Device.OutTask.{EpOp, transfer, flush, perform, out_task}
use upc.Device.OutTask.Frames.{transfers, transfers-append}
use upc.Trace.{Event, Message, send_part, send_terminator, Tracing, device_out}
use upc.Trace.Packets.{
  Tracer, packets, say, on_send_part, on_send_terminator, on_sending_data, on_data_finished,
}
use upc.Trace.OutTask.{
  Traced, while_ok, report, begin, perform_traced, send_parts_traced, send_packet_traced,
  terminate_traced, out_loop_traced, out_task_traced,
}
use upc.Trace.NoOp.{no_op}
use upc.Trace.OutTask.Same.{out_task_traced-run}

abbrev pub told : Message → List ℕ
told (send_part len) = len ∷ []
told send_terminator = 0 ∷ []
told other = []

-- The lengths of the transfers that events report.
abbrev pub reported : List Event → List ℕ
reported [] = []
reported (e ∷ es) = told e.message ++ reported es

reported-append : (es fs : List Event) → reported (es ++ fs) ≡ reported es ++ reported fs
reported-append [] fs = refl
reported-append (e ∷ es) fs =
    ap (λ ns. told e.message ++ ns) (reported-append es fs)
    ∙ sym (append_assoc (told e.message) (reported es) (reported fs))

module _ (fails : List EpOp → EpOp → Option ErrorKind) (usize_max : ℕ) where
  abbrev tr : Tracing Tracer
  tr = packets usize_max

  -- The events report the transfers made.
  abbrev Mirrors : Traced Tracer → Type 0
  Mirrors s = reported s.events ≡ map length (transfers s.run.0)

  while_ok-Mirrors :
      (r : Result (Unit {0})) (s s' : Traced Tracer)
      → Mirrors s
      → Mirrors s'
      → Mirrors (while_ok fails tr r s s')
  while_ok-Mirrors (ok u) s s' m m' = m'
  while_ok-Mirrors (err e) s s' m m' = m
  while_ok-Mirrors diverged s s' m m' = m

  begin-Mirrors : (s : Traced Tracer) → Mirrors s → Mirrors (begin fails tr s)
  unfolding begin
  begin-Mirrors s m = while_ok-Mirrors s.run.1 s _ m m

  quiet :
      (events : Tracer → List Event) (s : Traced Tracer)
      → reported (events s.tracer) ≡ []
      → Mirrors s
      → Mirrors (report fails tr events s)
  unfolding report
  quiet events s none m = while_ok-Mirrors s.run.1 s _ m (
      reported-append s.events (events s.tracer)
      ∙ ap (λ ns. reported s.events ++ ns) none
      ∙ append-nil (reported s.events)
      ∙ m)

  flush-Mirrors :
      (log : List EpOp) (r : Result (Unit {0})) (t : Tracer) (es : List Event)
      → let s : Traced Tracer = record { run = (log, r); tracer = t; events = es } in
        Mirrors s → Mirrors (perform_traced fails tr flush s)
  unfolding perform_traced perform transfers
  flush-Mirrors log (ok u) t es m =
      m ∙ ap (map length) (sym (transfers-append log (flush ∷ []) ∙ append-nil (transfers log)))
  flush-Mirrors log (err e) t es m = m
  flush-Mirrors log diverged t es m = m

  -- A report of a transfer, and then the transfer.
  loud :
      (bytes : List ℕ) (events : Tracer → List Event) (log : List EpOp) (r : Result (Unit {0}))
      (t : Tracer) (es : List Event)
      → let s : Traced Tracer = record { run = (log, r); tracer = t; events = es } in
        reported (events t) ≡ length bytes ∷ []
        → Mirrors s
        → Mirrors (perform_traced fails tr (transfer bytes) (report fails tr events s))
  unfolding perform_traced perform report transfers
  loud bytes events log (ok u) t es says m =
      reported-append es (events t)
      ∙ ap (λ ns. reported es ++ ns) says
      ∙ ap (λ ns. ns ++ length bytes ∷ []) m
      ∙ sym (
          ap (map length) (transfers-append log (transfer bytes ∷ []))
          ∙ map-append length (transfers log) (bytes ∷ []))
  loud bytes events log (err e) t es says m = m
  loud bytes events log diverged t es says m = m

  parts-Mirrors :
      (fuel size : ℕ) (d : List ℕ) (s : Traced Tracer)
      → Mirrors s
      → Mirrors (send_parts_traced fails tr fuel size d s)
  unfolding send_parts_traced
  parts-Mirrors zero size [] s m = m
  parts-Mirrors (suc fuel) size [] s m = m
  parts-Mirrors zero size (b ∷ bs) s m = m
  parts-Mirrors (suc fuel) size (b ∷ bs) s m =
      let n = min (length (b ∷ bs)) size in
      let part = take n (b ∷ bs) in
      parts-Mirrors fuel size (drop n (b ∷ bs)) _ (
        loud part (tr.on_send_part (length part)) s.run.0 s.run.1 s.tracer s.events
          (unfold packets on_send_part say in refl) m)

  terminate-Mirrors : (s : Traced Tracer) → Mirrors s → Mirrors (terminate_traced fails tr s)
  unfolding terminate_traced
  terminate-Mirrors s m =
      let f = perform_traced fails tr flush s in
      loud [] tr.on_send_terminator f.run.0 f.run.1 f.tracer f.events
        (unfold packets on_send_terminator say in refl)
        (flush-Mirrors s.run.0 s.run.1 s.tracer s.events m)

  if-Mirrors :
      (b : Bool) (x y : Traced Tracer) → Mirrors x → Mirrors y → Mirrors (if b then x else y)
  if-Mirrors true x y m m' = m
  if-Mirrors false x y m m' = m'

  finished_quiet : (t : Tracer) → reported (tr.on_data_finished t) ≡ []
  unfolding packets on_data_finished say
  finished_quiet t = refl

  packet-Mirrors :
      (mps size : ℕ) (d : List ℕ) (s : Traced Tracer)
      → Mirrors s
      → Mirrors (send_packet_traced fails tr mps size d s)
  unfolding send_packet_traced
  packet-Mirrors mps size d s m =
      let begun = begin fails tr s in
      let sent = parts-Mirrors (length d) size d _ (
        quiet (tr.on_sending_data (length d)) begun (unfold packets on_sending_data say in refl)
          (begin-Mirrors s m)) in
      quiet tr.on_data_finished _ (finished_quiet _)
        (if-Mirrors (length d % mps == 0) _ _ (terminate-Mirrors _ sent) sent)

  loop-Mirrors :
      (mps size : ℕ) (ds : List (List ℕ)) (s : Traced Tracer)
      → Mirrors s
      → Mirrors (out_loop_traced fails tr mps size ds s)
  unfolding out_loop_traced
  loop-Mirrors mps size [] s m = flush-Mirrors s.run.0 s.run.1 s.tracer s.events m
  loop-Mirrors mps size (d ∷ ds) s m =
      loop-Mirrors mps size ds (send_packet_traced fails tr mps size d s)
        (packet-Mirrors mps size d s m)

  start-Mirrors : (t : Tracer) → Mirrors (record { run = ([], ok tt); tracer = t; events = [] })
  unfolding transfers
  start-Mirrors t = refl

  reports-Mirrors :
      (mps size : ℕ) (ds : List (List ℕ))
      → reported (out_task_traced fails (packets usize_max) mps size ds).events
        ≡ map length (transfers (out_task fails mps size ds).0)
  reports-Mirrors mps size ds =
      unfold out_task_traced in
      loop-Mirrors mps size ds _ (start-Mirrors (tr.new device_out))
      ∙ ap (λ r. map length (transfers r.0)) (out_task_traced-run fails tr mps size ds)

-- Whatever the endpoint answers, the device's send task with either tracer uses the endpoint and
-- ends as it does without one, and what the packet tracer reports as sent are the lengths of the
-- transfers that it asks for, in order.
pub out_task_traced-reports :
    (fails : List EpOp → EpOp → Option ErrorKind) (usize_max mps size : ℕ) (ds : List (List ℕ))
    → let traced = out_task_traced fails (packets usize_max) mps size ds in
      (traced.run ≡ out_task fails mps size ds)
      × ((out_task_traced fails no_op mps size ds).run ≡ out_task fails mps size ds)
      × (reported traced.events ≡ map length (transfers (out_task fails mps size ds).0))
out_task_traced-reports fails usize_max mps size ds = (
  out_task_traced-run fails (packets usize_max) mps size ds,
  out_task_traced-run fails no_op mps size ds,
  reports-Mirrors fails usize_max mps size ds,
)
