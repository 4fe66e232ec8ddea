-- ===== src/Device/OutTask/Frames.antt =====
-- What the device's `out_task` puts on the wire, where the endpoint does not fail.
use upc.Common.{
  ℕ, zero, suc, ◌*◌, ◌%◌, ◌≤◌, ◌<◌, ◌≡◌, inl, inr, refl, sym, ap, ◌∙◌, List, [], ◌∷◌, ◌++◌, arith,
  min, Option, none, ErrorKind, ok, ==_of_eq, ==_of_ne, ◌≢◌,
}
use upc.Common.Lists.{
  length, take, drop, concat, All, length-take, length-drop, concat-append, take-append-drop,
  take_all, drop_all,
}
use upc.Framing.{IsFrame, IsStream}
use upc.Framing.Controller.{Controller, IsFull, wire, wire-append}
use upc.Framing.Cut.{Cut, Cut-append, packets-Cut, IsFrame-zero}
use upc.Device.OutTask.{
  EpOp, Run, transfer, flush, perform, send_parts, send_packet, out_loop, out_task,
}
use native.Mathlib.Decide.{dec_le, ℕ_discrete}
use native.Mathlib.Nat.{zero-mod, mul-mod_left}
use mathlib.Core.Path.{subst}
use mathlib.Core.List.{append-nil, append_assoc}

-- The transfers among the operations on the endpoint.
unfoldable pub transfers : List EpOp → List (List ℕ)
transfers [] = []
transfers (transfer t ∷ ops) = t ∷ transfers ops
transfers (flush ∷ ops) = transfers ops

pub transfers-append : (xs ys : List EpOp) → transfers (xs ++ ys) ≡ transfers xs ++ transfers ys
unfolding transfers
transfers-append [] ys = refl
transfers-append (transfer t ∷ xs) ys = ap (λ x. t ∷ x) (transfers-append xs ys)
transfers-append (flush ∷ xs) ys = transfers-append xs ys

two_more :
    (log ops : List EpOp)
    → ((log ++ ops) ++ (flush ∷ [])) ++ (transfer [] ∷ [])
      ≡ log ++ (ops ++ (flush ∷ transfer [] ∷ []))
two_more log ops = simp append_assoc

module _ {mps : ℕ} (c : Controller mps) (k : ℕ) (pos : 0 < mps) (kpos : 0 < k)
    (fails : List EpOp → EpOp → Option ErrorKind)
    (never : (log : List EpOp) (op : EpOp) → fails log op ≡ none) where
  perform_lem :
      (op : EpOp) (log : List EpOp) → perform fails op (log, ok tt) ≡ (log ++ (op ∷ []), ok tt)
  unfolding perform
  perform_lem op log = rw (never log op) refl

  -- A run that appends `ops` to the log, with what they put on the wire.
  abbrev Parts : ℕ → List ℕ → List EpOp → Type 0
  Parts fuel d log =
      (ops : List EpOp) × (send_parts fails fuel (k * mps) d (log, ok tt) ≡ (log ++ ops, ok tt))
      × Cut mps d (wire c (transfers ops))

  whole-Cut :
      (d : List ℕ) (ps : List (List ℕ)) → length d ≡ k * mps → Cut mps d ps → All (IsFull mps) ps
  whole-Cut d ps e (_, inl (m, full)) = full
  whole-Cut d ps e (_, inr (m, frame)) = absurd (omega (arith, rw e at m, mul-mod_left k mps))

  size_pos : 0 < k * mps
  size_pos = grind arith

  next_part :
      (fuel n : ℕ) (b : ℕ) (bs t rest : List ℕ) (log : List EpOp)
      → min (length (b ∷ bs)) (k * mps) ≡ n
      → take n (b ∷ bs) ≡ t
      → drop n (b ∷ bs) ≡ rest
      → send_parts fails (suc fuel) (k * mps) (b ∷ bs) (log, ok tt)
        ≡ send_parts fails fuel (k * mps) rest (log ++ (transfer t ∷ []), ok tt)
  next_part fuel n b bs t rest log e et er =
      let go : List ℕ → Run → Run = send_parts fails fuel (k * mps) in
      unfold send_parts in
      (ap (λ m. go (drop m (b ∷ bs)) (perform fails (transfer (take m (b ∷ bs))) (log, ok tt))) e
        ∙ ap (λ x. go x (perform fails (transfer (take n (b ∷ bs))) (log, ok tt))) er
        ∙ ap (λ x. go rest (perform fails (transfer x) (log, ok tt))) et
        ∙ ap (go rest) (perform_lem (transfer t) log))

  nothing_left :
      (fuel : ℕ) (log : List EpOp) → send_parts fails fuel (k * mps) [] (log, ok tt) ≡ (log, ok tt)
  unfolding send_parts
  nothing_left zero log = refl
  nothing_left (suc fuel) log = refl

  part_in_front :
      (d : List ℕ) (ops : List EpOp)
      → ¬ (length d ≤ k * mps)
      → Cut mps (drop (k * mps) d) (wire c (transfers ops))
      → Cut mps d (wire c (transfers (transfer (take (k * mps) d) ∷ ops)))
  unfolding transfers wire
  part_in_front d ops large cut =
      let n : ℕ = k * mps in
      let t : List ℕ = take n d in
      let e : length t ≡ n = omega (arith, length-take n d) in
      let one = packets-Cut c pos t (omega (arith, size_pos)) in
      subst (λ x. Cut mps x (c.packets t ++ wire c (transfers ops))) (take-append-drop n d)
        (Cut-append (c.packets t) one.0 (ap (λ x. x % mps) e ∙ mul-mod_left k mps)
          (whole-Cut t (c.packets t) e one) cut)

  parts : (fuel : ℕ) (d : List ℕ) (log : List EpOp) → length d ≤ fuel → Parts fuel d log
  parts fuel [] log h = (
    [],
    nothing_left fuel log ∙ ap (λ x. (x, ok tt)) (sym (append-nil log)),
    unfold transfers wire in (refl, inl (zero-mod mps, tt)),
  )
  parts zero (b ∷ bs) log h = absurd (omega arith)
  parts (suc fuel) (b ∷ bs) log h = elim (dec_le (length (b ∷ bs)) (k * mps)) [
    | yes small ↦
        let d : List ℕ = b ∷ bs in
        let all : length d ≤ length d = omega arith in
        (
          transfer d ∷ [],
          next_part fuel (length d) b bs d [] log (omega arith) (take_all _ d all)
                (drop_all _ d all)
              ∙ nothing_left fuel (log ++ (transfer d ∷ [])),
          unfold transfers wire in
              (rw (append-nil (c.packets d)) (packets-Cut c pos d (omega arith))),
        )
    | no large ↦
        let d : List ℕ = b ∷ bs in
        let n : ℕ = k * mps in
        let t : List ℕ = take n d in
        let e : length t ≡ n = omega (arith, length-take n d) in
        let less : length (drop n d) ≤ fuel = omega (arith, length-drop n d, size_pos) in
        let (ops, run, cut) = parts fuel (drop n d) (log ++ (transfer t ∷ [])) less in
        (
          transfer t ∷ ops,
          next_part fuel n b bs t (drop n d) log (omega arith) refl refl
              ∙ run
              ∙ ap (λ x. (x, ok tt)) (append_assoc log (transfer t ∷ []) ops),
          part_in_front d ops large cut,
        )
  ]

  -- A run of one packet, or of all.
  abbrev Sends : List ℕ → List EpOp → Type 0
  Sends d log =
      (ops : List EpOp) × (send_packet fails mps (k * mps) d (log, ok tt) ≡ (log ++ ops, ok tt))
      × IsFrame mps (wire c (transfers ops))
      × (concat (wire c (transfers ops)) ≡ d)

  -- The flush and the zero-length packet behind data that is a multiple of the packet size.
  zero_packet :
      (ops : List EpOp)
      → wire c (transfers (ops ++ (flush ∷ transfer [] ∷ []))) ≡ wire c (transfers ops) ++ ([] ∷ [])
  zero_packet ops =
      ap (wire c) (transfers-append ops (flush ∷ transfer [] ∷ []))
      ∙ wire-append c (transfers ops) (transfers (flush ∷ transfer [] ∷ []))
      ∙ ap (λ x. wire c (transfers ops) ++ x)
          (unfold transfers wire in (rw (c.packets_short [] pos) refl))

  terminated :
      (d : List ℕ) (log : List EpOp) → length d % mps ≡ 0 → Parts (length d) d log → Sends d log
  unfolding send_packet
  terminated d log whole (ops, run, (same, inr (m, frame))) = absurd (omega arith)
  terminated d log whole (ops, run, (same, inl (m, full))) = (
    ops ++ (flush ∷ transfer [] ∷ []),
    rw (==_of_eq (length d % mps) 0 whole) (
        ap (λ x. perform fails (transfer []) (perform fails flush x)) run
        ∙ ap (perform fails (transfer [])) (perform_lem flush (log ++ ops))
        ∙ perform_lem (transfer []) ((log ++ ops) ++ (flush ∷ []))
        ∙ ap (λ x. (x, ok tt)) (two_more log ops)),
    rw (zero_packet ops) (IsFrame-zero mps _ pos full),
    ap concat (zero_packet ops)
        ∙ concat-append (wire c (transfers ops)) ([] ∷ [])
        ∙ append-nil _
        ∙ same,
  )

  unterminated :
      (d : List ℕ) (log : List EpOp) → length d % mps ≢ 0 → Parts (length d) d log → Sends d log
  unfolding send_packet
  unterminated d log broken (ops, run, (same, inl (m, full))) = absurd (broken m)
  unterminated d log broken (ops, run, (same, inr (m, frame))) =
      (ops, rw (==_of_ne (length d % mps) 0 broken) run, frame, same)

  sends : (d : List ℕ) (log : List EpOp) → Sends d log
  sends d log = elim (ℕ_discrete (length d % mps) 0) [
    | yes whole ↦ terminated d log whole (parts (length d) d log (omega arith))
    | no broken ↦ unterminated d log broken (parts (length d) d log (omega arith))
  ]

  out_loop-IsStream :
      (ds : List (List ℕ)) (log : List EpOp)
      → (ops : List EpOp) × (out_loop fails mps (k * mps) ds (log, ok tt) ≡ (log ++ ops, ok tt))
        × IsStream mps ds (wire c (transfers ops))
  unfolding out_loop
  out_loop-IsStream [] log =
      (flush ∷ [], perform_lem flush log, unfold transfers wire in IsStream.done)
  out_loop-IsStream (d ∷ ds) log =
      let (ops, run, frame, same) = sends d log in
      let (ops', run', stream) = out_loop-IsStream ds (log ++ ops) in
      (
        ops ++ ops',
        ap (out_loop fails mps (k * mps) ds) run
            ∙ run'
            ∙ ap (λ x. (x, ok tt)) (append_assoc log ops ops'),
        IsStream.next frame same
            (ap (wire c) (transfers-append ops ops')
              ∙ wire-append c (transfers ops) (transfers ops'))
            stream,
      )

  -- Over an endpoint that does not fail, with transfers of `k` packets, the device's send task ends
  -- without an error and puts the queued packets on the wire in order, each as full USB packets and
  -- a short one.
  pub out_task-IsStream :
      (ds : List (List ℕ))
      → (ops : List EpOp) × (out_task fails mps (k * mps) ds ≡ (ops, ok tt))
        × IsStream mps ds (wire c (transfers ops))
  unfolding out_task
  out_task-IsStream ds = out_loop-IsStream ds []
