-- ===== src/Web/OutTask/Same.antt =====
-- The browser's `out_task` and the native one on the same packets, where no transfer fails.
use upc.Common.{
  ℕ, ◌%◌, ◌≡◌, inl, inr, refl, sym, ap, ◌∙◌, List, [], ◌∷◌, ◌++◌, true, ◌&&◌, ltb, ◌==◌, none,
  arith, Bool-cases, ==-refl,
}
use upc.Common.Lists.{length, concat}
use upc.Common.Words.{u64_mod}
use upc.Host.OutTask as Native
use upc.Host.OutTask.Wire.{submissions, packets_of, out_task_announces}
use upc.Host.OutTask.Wire as NativeWire
use upc.Host.HalfClose as NativeHandle
use upc.Web.HalfClose.{new}
use upc.Web.HalfClose.Laws.{erase, erase-new, close_send-same}
use upc.Web.OutTask.{
  Transfer, sent, OutState, initial, go, stop, submit, send_packet, out_loop, out_finish,
}
use upc.Web.OutTask.Laws.{counted, rounds, web_out_task-Ends, Ends}

module _ (outcome : List (List ℕ) → List ℕ → Transfer)
    (whole : (ts : List (List ℕ)) (d : List ℕ) → outcome ts d ≡ sent (length d)) where
  send_packet_whole :
      (mps : ℕ) (d : List ℕ) (s : OutState) → (t : OutState) × (send_packet outcome mps d s ≡ go t)
  unfolding send_packet submit counted
  send_packet_whole mps d s = elim (Bool-cases (ltb 0 (length d) && length d % mps == 0)) [
    | inl full ↦ (
      submit [] (submit d (counted d s)),
      rw (whole s.submitted d, ==-refl (length d), full, whole (s.submitted ++ (d ∷ [])) []) refl,
    )
    | inr short ↦ (submit d (counted d s), rw (whole s.submitted d, ==-refl (length d), short) refl)
  ]

  loop_whole :
      (mps : ℕ) (ds : List (List ℕ)) (s : OutState)
      → (t : OutState) × (out_loop outcome mps (rounds ds) (go s) ≡ stop true t)
  unfolding out_loop
  loop_whole mps [] s = (s, refl)
  loop_whole mps (d ∷ ds) s =
      let (t, run) = send_packet_whole mps d s in
      let (u, later) = loop_whole mps ds t in (u, ap (out_loop outcome mps (rounds ds)) run ∙ later)

  agreed :
      (mps : ℕ) (rs : List (List ℕ × ℕ)) (t : OutState)
      → out_loop outcome mps (rounds (packets_of rs)) (go initial) ≡ stop true t
      → Ends outcome mps (packets_of rs) initial
      → (t.submitted ≡ submissions mps (packets_of rs))
        × (t.total_bytes_sent ≡ length (concat (packets_of rs)) % u64_mod)
  agreed mps rs t run (inl (u, run', sub, tot, error, tried)) =
      let e : t ≡ u = cc in
      (ap (λ x. x.submitted) e ∙ sub, ap (λ x. x.total_bytes_sent) e ∙ tot ∙ omega arith)
  agreed mps rs t run (inr (u, run', left, tried)) = absurd (cc)

  -- Where no transfer fails on either backend, the browser's send task and the native one, on the
  -- same packets with their queue closed behind them, submit the same transfers, end by themselves
  -- and send the same requests.
  pub web_out_task-same :
      (completion : ℕ → Native.Completion)
      → ((n : ℕ) → (completion n).status ≡ none)
      → (mps : ℕ) (rs : List (List ℕ × ℕ))
      → (t : OutState) × (s s' : Native.OutState) × (h : NativeHandle.HalfCloseHandle) × (out_loop
            outcome mps
            (rounds (packets_of rs))
            (go initial)
          ≡ stop true t)
        × (Native.out_loop completion mps (NativeWire.rounds rs) (Native.go Native.initial)
            ≡ Native.stop true s)
        × (Native.out_finish completion true s NativeHandle.new ≡ (s', h))
        × (t.submitted ≡ s'.submitted)
        × (erase (out_finish (stop true t) new) ≡ h)
  web_out_task-same completion good mps rs =
      let (t, run) = loop_whole mps (packets_of rs) initial in
      let (sub, tot) = agreed mps rs t run (web_out_task-Ends outcome mps (packets_of rs)) in
      let (s, s', run', fin, sub', _) = out_task_announces completion good mps rs in
      (
        t,
        s,
        s',
        NativeHandle.close_send true (length (concat (packets_of rs)) % u64_mod) NativeHandle.new,
        run,
        run',
        fin,
        sub ∙ sym sub',
        unfold out_finish in
            (close_send-same true t.total_bytes_sent new)
            ∙ ap (λ n. NativeHandle.close_send true n (erase new)) tot
            ∙ ap (NativeHandle.close_send true _) erase-new,
      )
