-- ===== src/Device/OutTask/Failures.antt =====
-- The device's `out_task` over an endpoint that may fail at any operation.
use upc.Common.{
  ℕ, zero, suc, ◌%◌, ◌≤◌, ◌<◌, ◌≡◌, inl, inr, refl, List, [], ◌∷◌, ◌++◌, arith, min, Option, none,
  some, ErrorKind, ok, err, diverged, ◌==◌, Option-cases, Bool-cases,
}
use upc.Common.Lists.{length, drop, length-drop}
use upc.Device.OutTask.{
  EpOp, Run, transfer, flush, perform, send_parts, send_packet, out_loop, out_task,
}

module _ (fails : List EpOp → EpOp → Option ErrorKind) where
  -- Operations that all succeeded.
  pub data Performed : List EpOp → Type 0 where
    nothing : Performed []
    one_more :
        {log log' : List EpOp} (op : EpOp)
        → Performed log
        → fails log op ≡ none
        → log' ≡ log ++ (op ∷ [])
        → Performed log'

  -- A run that is going on has had no failure; one that stopped did so at its last operation, which
  -- is the first that failed, with the error of that operation.
  abbrev pub IsTrace : Run → Type 0
  IsTrace (log, ok u) = Performed log
  IsTrace (log, err e) =
      (front : List EpOp) × (op : EpOp) × Performed front
      × (log ≡ front ++ (op ∷ []))
      × (fails front op ≡ some e)
  IsTrace (log, diverged) = ⊥

  perform-IsTrace : (op : EpOp) (run : Run) → IsTrace run → IsTrace (perform fails op run)
  unfolding perform
  perform-IsTrace op (log, ok u) h = elim (Option-cases (fails log op)) [
    | inl e ↦ rw e (Performed.one_more op h e refl)
    | inr (x, e) ↦ rw e (log, op, h, refl, e)
  ]
  perform-IsTrace op (log, err e) h = h
  perform-IsTrace op (log, diverged) h = h

  send_parts-IsTrace :
      (fuel size : ℕ) (d : List ℕ) (run : Run)
      → 0 < size
      → length d ≤ fuel
      → IsTrace run
      → IsTrace (send_parts fails fuel size d run)
  unfolding send_parts
  send_parts-IsTrace zero size [] run pos h t = t
  send_parts-IsTrace (suc fuel) size [] run pos h t = t
  send_parts-IsTrace zero size (b ∷ bs) run pos h t = absurd (omega arith)
  send_parts-IsTrace (suc fuel) size (b ∷ bs) run pos h t =
      let n : ℕ = min (length (b ∷ bs)) size in
      send_parts-IsTrace fuel size (drop n (b ∷ bs)) (perform fails _ run) pos
        (omega (arith, length-drop n (b ∷ bs))) (perform-IsTrace _ run t)

  send_packet-IsTrace :
      (mps size : ℕ) (d : List ℕ) (run : Run)
      → 0 < size
      → IsTrace run
      → IsTrace (send_packet fails mps size d run)
  unfolding send_packet
  send_packet-IsTrace mps size d run pos t =
      let sent = send_parts-IsTrace (length d) size d run pos (omega arith) t in
      elim (Bool-cases (length d % mps == 0)) [
        | inl e ↦ rw e (perform-IsTrace (transfer []) _ (perform-IsTrace flush _ sent))
        | inr e ↦ rw e sent
      ]

  out_loop-IsTrace :
      (mps size : ℕ) (ds : List (List ℕ)) (run : Run)
      → 0 < size
      → IsTrace run
      → IsTrace (out_loop fails mps size ds run)
  unfolding out_loop
  out_loop-IsTrace mps size [] run pos t = perform-IsTrace flush run t
  out_loop-IsTrace mps size (d ∷ ds) run pos t =
      out_loop-IsTrace mps size ds _ pos (send_packet-IsTrace mps size d run pos t)

  -- The device's send task always ends: after all its operations succeeded, or with the error of
  -- the first operation that failed, which is then its last one.
  pub out_task-IsTrace :
      (mps size : ℕ) (ds : List (List ℕ)) → 0 < size → IsTrace (out_task fails mps size ds)
  unfolding out_task
  out_task-IsTrace mps size ds pos = out_loop-IsTrace mps size ds ([], ok tt) pos Performed.nothing
