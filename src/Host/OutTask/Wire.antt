-- ===== src/Host/OutTask/Wire.antt =====
-- What the host's `out_task` puts on the wire and announces, where no transfer fails.
use upc.Common.{
  ℕ, ◌+◌, ◌-◌, ◌%◌, ◌<◌, ◌≡◌, inl, inr, refl, sym, ap, ◌∙◌, List, [], ◌∷◌, ◌++◌, true, ◌&&◌, ◌||◌,
  ltb, leb, ◌==◌, if◌then◌else◌, none, arith, Bool-cases, lt→ltb, ==_of_eq, ==_of_ne,
}
use upc.Common.Lists.{length, concat, length-append, concat-append}
use upc.Common.Words.{u64_mod}
use upc.Framing.{IsFrame, IsStream}
use upc.Framing.Controller.{Controller, wire, wire-append}
use upc.Framing.Cut.{Cut, packets-Cut, IsFrame-zero}
use upc.Host.HalfClose.{new, close_send}
use upc.Host.OutTask.{
  Completion, OutState, initial, submit_packet, Flow, go, stop, Round, queue_closed, packet,
  check_len, complete_loop, out_round, taken, dma_buffers, out_loop, drain_loop, out_finish,
}
use mathlib.Core.List.{append-nil, append_assoc}
use mathlib.Core.Path.{subst}

-- The transfers of one packet, and of several.
unfoldable pub submission : ℕ → List ℕ → List (List ℕ)
submission mps d = if ltb 0 (length d) && length d % mps == 0 then d ∷ [] ∷ [] else d ∷ []

unfoldable pub submissions : ℕ → List (List ℕ) → List (List ℕ)
submissions mps [] = []
submissions mps (d ∷ ds) = submission mps d ++ submissions mps ds

module _ {mps : ℕ} (c : Controller mps) (pos : 0 < mps) where
  -- The transfers of one packet make one frame of packets.
  submission-IsFrame :
      (d : List ℕ)
      → IsFrame mps (wire c (submission mps d)) × (concat (wire c (submission mps d)) ≡ d)
  submission-IsFrame [] =
      unfold submission wire in (rw (c.packets_short [] pos) (IsFrame.last [] pos, refl))
  submission-IsFrame (b ∷ bs) = closed_by (packets-Cut c pos (b ∷ bs) (omega arith))
    where
      closed_by :
          Cut mps (b ∷ bs) (c.packets (b ∷ bs))
          → IsFrame mps (wire c (submission mps (b ∷ bs)))
            × (concat (wire c (submission mps (b ∷ bs))) ≡ b ∷ bs)
      closed_by (same, inl (whole, full)) =
          unfold submission wire in
          (rw
            (
              lt→ltb 0 (length (b ∷ bs)) (omega arith),
              ==_of_eq (length (b ∷ bs) % mps) 0 whole,
              c.packets_short [] pos,
            )
            (
              IsFrame-zero mps _ pos full,
              concat-append (c.packets (b ∷ bs)) ([] ∷ []) ∙ append-nil _ ∙ same,
            ))
      closed_by (same, inr (broken, frame)) =
          unfold submission wire in
          (rw
            (
              lt→ltb 0 (length (b ∷ bs)) (omega arith),
              ==_of_ne (length (b ∷ bs) % mps) 0 (omega arith),
              append-nil (c.packets (b ∷ bs)),
            )
            (frame, same))

  wire-submissions :
      (d : List ℕ) (ds : List (List ℕ))
      → wire c (submissions mps (d ∷ ds)) ≡ wire c (submission mps d) ++ wire c (submissions mps ds)
  unfolding submissions
  wire-submissions d ds = wire-append c (submission mps d) (submissions mps ds)

  -- The transfers of the packets `ds` put them on the wire in order, each framed by a short packet.
  pub submissions-IsStream : (ds : List (List ℕ)) → IsStream mps ds (wire c (submissions mps ds))
  submissions-IsStream [] = unfold submissions wire in IsStream.done
  submissions-IsStream (d ∷ ds) =
      IsStream.next (submission-IsFrame d).0 (submission-IsFrame d).1 (wire-submissions d ds)
        (submissions-IsStream ds)

-- The transfers submitted when the loop is left or goes on.
abbrev pub submitted_by : Flow → List (List ℕ)
submitted_by (go s) = s.submitted
submitted_by (stop h s) = s.submitted

-- Rounds that bring one packet each, and then the end of the queue.
abbrev pub rounds : List (List ℕ × ℕ) → List Round
rounds [] = queue_closed ∷ []
rounds ((d, ready) ∷ rs) = packet d ready ∷ rounds rs

abbrev pub packets_of : List (List ℕ × ℕ) → List (List ℕ)
packets_of [] = []
packets_of ((d, ready) ∷ rs) = d ∷ packets_of rs

submit_packet_lem :
    (mps : ℕ) (d : List ℕ) (s : OutState)
    → ((submit_packet mps d s).submitted ≡ s.submitted ++ submission mps d)
      × ((submit_packet mps d s).total_bytes_sent ≡ (s.total_bytes_sent + length d) % u64_mod)
unfolding submit_packet submission
submit_packet_lem mps d s = ground (arith, append_assoc s.submitted (d ∷ []) ([] ∷ []))

module _ (outcome : ℕ → Completion) (good : (n : ℕ) → (outcome n).status ≡ none) where
  abbrev Continues : OutState → Flow → Type 0
  Continues s flow =
      (s' : OutState) × (flow ≡ go s')
      × (s'.submitted ≡ s.submitted)
      × (s'.total_bytes_sent ≡ s.total_bytes_sent)

  check_len_keeps :
      (len : ℕ) (s : OutState)
      → ((check_len outcome len s).submitted ≡ s.submitted)
        × ((check_len outcome len s).total_bytes_sent ≡ s.total_bytes_sent)
  unfolding check_len
  check_len_keeps len s = ground arith

  complete_loop-Continues :
      (pending : List ℕ) (ready : ℕ) (s : OutState)
      → Continues s (complete_loop outcome pending ready s)
  unfolding complete_loop
  complete_loop-Continues [] ready s = (s, refl, refl, refl)
  complete_loop-Continues (len ∷ rest) ready s =
      let later =
        complete_loop-Continues rest (ready - 1) (taken outcome rest (check_len outcome len s)) in
      elim (Bool-cases (leb dma_buffers (length (len ∷ rest)) || ltb 0 ready)) [
        | inl waits ↦
            rw (waits, good s.completed)
              (
                later.0,
                later.1,
                later.2 ∙ (check_len_keeps len s).0,
                later.3 ∙ (check_len_keeps len s).1,
              )
        | inr full ↦ rw full (s, refl, refl, refl)
      ]

  -- The task takes every packet, and ends by the host's own close.
  abbrev Ends : ℕ → List (List ℕ × ℕ) → OutState → Type 0
  Ends mps rs s =
      (s' : OutState) × (out_loop outcome mps (rounds rs) (go s) ≡ stop true s')
      × (s'.submitted ≡ s.submitted ++ submissions mps (packets_of rs))
      × (s'.total_bytes_sent ≡ (s.total_bytes_sent + length (concat (packets_of rs))) % u64_mod)

  out_loop-Ends :
      (mps : ℕ) (rs : List (List ℕ × ℕ)) (s : OutState)
      → s.total_bytes_sent < u64_mod
      → Ends mps rs s
  unfolding out_loop out_round submissions
  out_loop-Ends mps [] s small = (s, refl, sym (append-nil s.submitted), omega arith)
  out_loop-Ends mps ((d, ready) ∷ rs) s small =
      let s₁ : OutState = submit_packet mps d s in
      let (s₂, flow, sub, tot) = complete_loop-Continues s₁.pending ready s₁ in
      let (sub₁, tot₁) = submit_packet_lem mps d s in
      let (s₃, run, sub₃, tot₃) = out_loop-Ends mps rs s₂ (omega (arith, tot, tot₁)) in
      (
        s₃,
        ap (out_loop outcome mps (rounds rs)) flow ∙ run,
        sub₃
            ∙ ap (λ x. x ++ submissions mps (packets_of rs)) (sub ∙ sub₁)
            ∙ append_assoc s.submitted (submission mps d) (submissions mps (packets_of rs)),
        omega (arith, tot₃, tot, tot₁, length-append d (concat (packets_of rs))),
      )

  drain_good :
      (pending : List ℕ) (s : OutState)
      → (s' : OutState) × (drain_loop outcome pending true s ≡ (true, s'))
        × (s'.submitted ≡ s.submitted)
        × (s'.total_bytes_sent ≡ s.total_bytes_sent)
  unfolding drain_loop
  drain_good [] s = (s, refl, refl, refl)
  drain_good (len ∷ rest) s =
      let (s', run, sub, tot) = drain_good rest (taken outcome rest s) in
      (s', rw (good s.completed) run, sub, tot)

  -- Where no transfer fails, the host's send task, its queue closed behind the packets of `rs`,
  -- ends by itself, has submitted their transfers in order, whatever number of completions was
  -- found in between, and reports to the device the number of their bytes modulo 2^64.
  pub out_task_announces :
      (mps : ℕ) (rs : List (List ℕ × ℕ))
      → (s s' : OutState) × (out_loop outcome mps (rounds rs) (go initial) ≡ stop true s)
        × (out_finish outcome true s new
            ≡ (s', close_send true (length (concat (packets_of rs)) % u64_mod) new))
        × (s'.submitted ≡ submissions mps (packets_of rs))
        × (s.submitted ≡ submissions mps (packets_of rs))
  unfolding out_finish
  out_task_announces mps rs =
      let (s, run, sub, tot) = out_loop-Ends mps rs initial (omega arith) in
      let (s', drained, sub', tot') = drain_good s.pending s in
      (
        s,
        s',
        run,
        ap (λ p. (p.1, close_send p.0 p.1.total_bytes_sent new)) drained
            ∙ ap (λ n. (s', close_send true n new)) (tot' ∙ tot ∙ omega arith),
        sub' ∙ sub,
        sub,
      )

-- Where no transfer fails and the queue is closed behind the packets of `rs`, what the host's send
-- task has submitted puts those packets on the wire in order, each as full USB packets and a short
-- one.
pub host_out_loop-IsStream :
    {mps : ℕ} (c : Controller mps)
    → 0 < mps
    → (outcome : ℕ → Completion) → ((n : ℕ) → (outcome n).status ≡ none)
    → (rs : List (List ℕ × ℕ)) (s : OutState)
    → out_loop outcome mps (rounds rs) (go initial) ≡ stop true s
    → IsStream mps (packets_of rs) (wire c s.submitted)
host_out_loop-IsStream {mps} c pos outcome good rs s run =
    let (s₁, s₂, run', fin, sub', sub) = out_task_announces outcome good mps rs in
    subst (λ ts. IsStream mps (packets_of rs) (wire c ts))
      (sym (ap submitted_by (sym run ∙ run') ∙ sub)) (submissions-IsStream c pos (packets_of rs))
