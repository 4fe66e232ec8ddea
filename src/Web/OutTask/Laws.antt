-- ===== src/Web/OutTask/Laws.antt =====
-- What the browser's `out_task` has sent when it ends, and the native task on the same packets.
use upc.Common.{
  ℕ, ◌+◌, ◌%◌, ◌<◌, ◌≡◌, ◌⊎◌, inl, inr, refl, sym, ap, ◌∙◌, List, [], ◌∷◌, ◌++◌, Bool, true, false,
  ◌&&◌, ltb, ◌==◌, none, arith, Bool-cases,
}
use upc.Common.Lists.{length, concat, length-append}
use upc.Common.Words.{u64_mod}
use mathlib.Core.Path.{subst}
use mathlib.Core.List.{append-nil, append_assoc}
use upc.Host.OutTask.Wire.{submission, submissions}
use upc.Web.OutTask.Faults.{
  after_packet_cases, after_terminator_cases, Try, whole, terminator, packet_tries, tries, IsGood,
  IsFault, End, all_good, stopped, IsTried,
}
use upc.Web.OutTask.{
  Transfer, OutState, initial, Round, queue_closed, packet, go, stop, submit, after_packet,
  terminate, send_packet, out_loop,
}

-- Rounds that bring the packets, and then the end of the queue.
abbrev pub rounds : List (List ℕ) → List Round
rounds [] = queue_closed ∷ []
rounds (d ∷ ds) = packet d ∷ rounds ds

submission_split :
    (mps : ℕ) (d : List ℕ) → (rest : List (List ℕ)) × ((d ∷ []) ++ rest ≡ submission mps d)
unfolding submission
submission_split mps d = elim (Bool-cases (ltb 0 (length d) && length d % mps == 0)) [
  | inl full ↦ ([] ∷ [], rw full refl)
  | inr short ↦ ([], rw short refl)
]

unfoldable pub counted : List ℕ → OutState → OutState
counted d s = record s { total_bytes_sent = (s.total_bytes_sent + length d) % u64_mod }

-- A packet that was sent whole, with its terminator.
abbrev Sent : ℕ → List ℕ → OutState → OutState → Type 0
Sent mps d s t =
    (t.submitted ≡ s.submitted ++ submission mps d)
    × (t.total_bytes_sent ≡ (s.total_bytes_sent + length d) % u64_mod)
    × (t.error ≡ s.error)

-- What is left of the transfers of some packets.
abbrev pub Remains : List (List ℕ) → OutState → OutState → Type 0
Remains ts s t = (rest : List (List ℕ)) × (t.submitted ++ rest ≡ s.submitted ++ ts)

module _ (outcome : List (List ℕ) → List ℕ → Transfer) where
  -- The packet was sent, and whatever is tried behind it counts on; or it stopped the loop.
  abbrev Packet : ℕ → List ℕ → OutState → Type 0
  Packet mps d s =
      ((t : OutState) × (send_packet outcome mps d s ≡ go t)
        × Sent mps d s t
        × ((xs : List Try) (us : List (List ℕ)) (end : End)
            → IsTried outcome t.submitted xs us end
            → IsTried outcome s.submitted (packet_tries mps d ++ xs) us end))
      ⊎ ((t : OutState) × (send_packet outcome mps d s ≡ stop false t)
          × Remains (submission mps d) s t
          × ((xs : List Try)
              → IsTried outcome s.submitted (packet_tries mps d ++ xs) t.submitted
                  (stopped t.error)))

  stopped_early :
      (mps : ℕ) (d : List ℕ) (s t : OutState)
      → t.submitted ≡ s.submitted ++ (d ∷ [])
      → Remains (submission mps d) s t
  stopped_early mps d s t e =
      let (rest, same) = submission_split mps d in
      (rest, rw e (append_assoc s.submitted (d ∷ []) rest ∙ ap (λ x. s.submitted ++ x) same))

  first_fails :
      (mps : ℕ) (d : List ℕ) (s t : OutState) (xs : List Try)
      → IsFault (whole d) (outcome s.submitted d) t.error
      → t.submitted ≡ s.submitted ++ (d ∷ [])
      → IsTried outcome s.submitted (packet_tries mps d ++ xs) t.submitted (stopped t.error)
  first_fails mps d s t xs bad e =
      subst (λ us. IsTried outcome s.submitted (packet_tries mps d ++ xs) us (stopped t.error))
        (sym e) (IsTried.fails (whole d) bad)

  terminated :
      (mps : ℕ) (d : List ℕ) (s : OutState)
      → s.error ≡ none
      → IsGood (whole d) (outcome s.submitted d)
      → after_packet d (outcome s.submitted d) (submit d (counted d s))
        ≡ go (submit d (counted d s))
      → Packet mps d s
  unfolding send_packet counted submit submission
  terminated mps d s clean sent_d e =
      let c : OutState = submit d (counted d s) in
      elim (Bool-cases (ltb 0 (length d) && length d % mps == 0)) [
        | inl full ↦ elim (after_terminator_cases (outcome c.submitted []) (submit [] c) clean) [
          | inl (good, is_good) ↦ inl (
            submit [] c,
            ap (terminate outcome mps d) e ∙ rw full good,
            (rw full (append_assoc s.submitted (d ∷ []) ([] ∷ [])), refl, refl),
            λ xs us end h.
                rw full (IsTried.good (whole d) sent_d (IsTried.good terminator is_good h)),
          )
          | inr (t, bad, same, is_fault) ↦ inr (
            t,
            ap (terminate outcome mps d) e ∙ rw full bad,
            (
              [],
              append-nil t.submitted ∙ same ∙ rw full (append_assoc s.submitted (d ∷ []) ([] ∷ [])),
            ),
            λ xs.
                rw (full, same) (IsTried.good (whole d) sent_d (IsTried.fails terminator is_fault)),
          )
        ]
        | inr short ↦ inl (
          c,
          ap (terminate outcome mps d) e ∙ rw short refl,
          (rw short refl, refl, refl),
          λ xs us end h. rw short (IsTried.good (whole d) sent_d h),
        )
      ]

  sends-Packet : (mps : ℕ) (d : List ℕ) (s : OutState) → s.error ≡ none → Packet mps d s
  sends-Packet mps d s clean =
      elim (after_packet_cases d (outcome s.submitted d) (submit d (counted d s))
        (unfold submit counted in clean)) [
          | inl (good, is_good) ↦ terminated mps d s clean is_good good
          | inr (t, bad, same, is_fault) ↦
              let e : t.submitted ≡ s.submitted ++ (d ∷ []) =
                same ∙ unfold submit counted in refl in
              inr (
                t,
                unfold send_packet counted in (ap (terminate outcome mps d) bad),
                stopped_early mps d s t e,
                λ xs. first_fails mps d s t xs is_fault e,
              )
        ]

  -- All packets sent, each transfer good; or an end by the device at the first transfer that fails,
  -- with its error.
  abbrev pub Ends : ℕ → List (List ℕ) → OutState → Type 0
  Ends mps ds s =
      ((t : OutState) × (out_loop outcome mps (rounds ds) (go s) ≡ stop true t)
        × (t.submitted ≡ s.submitted ++ submissions mps ds)
        × (t.total_bytes_sent ≡ (s.total_bytes_sent + length (concat ds)) % u64_mod)
        × (t.error ≡ s.error)
        × IsTried outcome s.submitted (tries mps ds) t.submitted all_good)
      ⊎ ((t : OutState) × (out_loop outcome mps (rounds ds) (go s) ≡ stop false t)
          × Remains (submissions mps ds) s t
          × IsTried outcome s.submitted (tries mps ds) t.submitted (stopped t.error))

  stopped_loop :
      (mps : ℕ) (ds : List (List ℕ)) (h : Bool) (s : OutState)
      → out_loop outcome mps (rounds ds) (stop h s) ≡ stop h s
  unfolding out_loop
  stopped_loop mps [] h s = refl
  stopped_loop mps (d ∷ ds) h s = refl

  later_packets :
      (mps : ℕ) (d : List ℕ) (ds : List (List ℕ)) (s t : OutState)
      → send_packet outcome mps d s ≡ go t
      → Sent mps d s t
      → ((xs : List Try) (us : List (List ℕ)) (end : End)
          → IsTried outcome t.submitted xs us end
          → IsTried outcome s.submitted (packet_tries mps d ++ xs) us end)
      → Ends mps ds t
      → Ends mps (d ∷ ds) s
  unfolding out_loop submissions
  later_packets mps d ds s t run (sub, tot, err) on (inl (u, run', sub', tot', err', tried)) = inl (
    u,
    ap (out_loop outcome mps (rounds ds)) run ∙ run',
    sub' ∙ ap (λ x. x ++ submissions mps ds) sub ∙ append_assoc s.submitted (submission mps d) _,
    omega (arith, tot, tot', length-append d (concat ds)),
    err' ∙ err,
    on (tries mps ds) _ all_good tried,
  )
  later_packets mps d ds s t run (sub, tot, err) on (inr (u, run', (rest, same), tried)) = inr (
    u,
    ap (out_loop outcome mps (rounds ds)) run ∙ run',
    (
      rest,
      same ∙ ap (λ x. x ++ submissions mps ds) sub ∙ append_assoc s.submitted (submission mps d) _,
    ),
    on (tries mps ds) _ _ tried,
  )

  out_loop-Ends :
      (mps : ℕ) (ds : List (List ℕ)) (s : OutState)
      → s.total_bytes_sent < u64_mod
      → s.error ≡ none
      → Ends mps ds s
  out_loop-Ends mps [] s small clean = inl (
    s,
    unfold out_loop in refl,
    unfold submissions in sym (append-nil s.submitted),
    omega arith,
    refl,
    IsTried.nothing s.submitted,
  )
  out_loop-Ends mps (d ∷ ds) s small clean = elim (sends-Packet mps d s clean) [
    | inl (t, run, kept, on) ↦
        later_packets mps d ds s t run kept on
          (out_loop-Ends mps ds t (omega (arith, kept.1)) (kept.2 ∙ clean))
    | inr (t, run, (rest, same), tried) ↦ inr (
      t,
      unfold out_loop in (ap (out_loop outcome mps (rounds ds)) run ∙ stopped_loop mps ds false t),
      (
        rest ++ submissions mps ds,
        unfold submissions in
            (sym (append_assoc t.submitted rest _)
              ∙ ap (λ x. x ++ submissions mps ds) same
              ∙ append_assoc s.submitted (submission mps d) _),
      ),
      tried (tries mps ds),
    )
  ]

  -- Whatever the outcomes of its transfers, the browser's send task ends on a queue that brings the
  -- packets `ds` and is closed: as closed by the host, with the transfers of all packets made in
  -- order, each of them good, their bytes counted modulo 2^64 and no error; or as closed by the
  -- device, with a beginning of those transfers made, the last of them the first that failed, and
  -- with the error that this failure leaves. A packet is good where all of it is sent, a zero-
  -- length transfer behind it where it does not fail; a stall leaves no error, a part sent the two
  -- lengths.
  pub web_out_task-Ends : (mps : ℕ) (ds : List (List ℕ)) → Ends mps ds initial
  web_out_task-Ends mps ds = out_loop-Ends mps ds initial (omega arith) refl
