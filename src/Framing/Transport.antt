-- ===== src/Framing/Transport.antt =====
-- A message that is framed in packets arrives framed in transfers.
use upc.Common.{ℕ, suc, ◌*◌, ◌<◌, ◌≡◌, refl, sym, ap, ◌∙◌, List, [], ◌∷◌, ◌++◌, arith}
use upc.Common.Lists.{length, concat, All, All-append, length-append, concat-append}
use upc.Framing.{IsFrame, IsStream}
use upc.Framing.Controller.{Controller, IsFull}
use mathlib.Core.Path.{ap₂}
use native.Mathlib.Decide.{dec_lt}
use mathlib.Core.List.{append-nil, append_assoc}

length-concat_full :
    (mps : ℕ) (ps : List (List ℕ)) → All (IsFull mps) ps → length (concat ps) ≡ length ps * mps
length-concat_full mps [] h = omega arith
length-concat_full mps (p ∷ ps) (hp, h) =
    omega (arith, length-append p (concat ps), length-concat_full mps ps h)

module _ {mps : ℕ} (c : Controller mps) (k : ℕ) (pos : 0 < k) where
  -- The transfers of one message, `full` being the packets that the buffer holds already.
  Arrives : List (List ℕ) → List (List ℕ) → Type 0
  Arrives full ps =
      (ts : List (List ℕ)) × IsFrame (k * mps) ts
      × (concat ts ≡ concat full ++ concat ps)
      × ((rest : List (List ℕ)) → c.receive k (full ++ (ps ++ rest)) ≡ ts ++ c.receive k rest)

  arrives :
      (full : List (List ℕ)) {ps : List (List ℕ)}
      → All (IsFull mps) full
      → length full < k
      → IsFrame mps ps
      → Arrives full ps
  unfolding Arrives
  arrives full all room (IsFrame.last s short) = (
    (concat full ++ s) ∷ [],
    IsFrame.last _ (grind (arith, length-append (concat full) s, length-concat_full mps full all)),
    append_assoc (concat full) s [],
    λ rest. c.receive_short k full s rest all room short,
  )
  arrives full all room (IsFrame.more p {ts = ps} e frame) = elim (dec_lt (suc (length full)) k) [
    | yes more_room ↦
        let (ts, f, same, r) = arrives (full ++ (p ∷ [])) all' (rw n more_room) frame in
        (
          ts,
          f,
          same ∙ regroup,
          λ rest. ap (c.receive k) (sym (append_assoc full (p ∷ []) (ps ++ rest))) ∙ r rest,
        )
    | no filled ↦
        let count : length (full ++ (p ∷ [])) ≡ k = omega (arith, n) in
        let (ts, f, same, r) = arrives [] tt pos frame in
        (
          concat (full ++ (p ∷ [])) ∷ ts,
          IsFrame.more _ (length-concat_full mps _ all' ∙ ap (λ x. x * mps) count) f,
          ap (λ x. concat (full ++ (p ∷ [])) ++ x) same ∙ regroup,
          λ rest.
              ap (c.receive k) (sym (append_assoc full (p ∷ []) (ps ++ rest)))
              ∙ c.receive_full k _ (ps ++ rest) all' pos count
              ∙ ap (λ x. concat (full ++ (p ∷ [])) ∷ x) (r rest),
        )
  ]
    where
      n : length (full ++ (p ∷ [])) ≡ suc (length full)
      n = omega (arith, length-append full (p ∷ []))

      all' : All (IsFull mps) (full ++ (p ∷ []))
      all' = All-append (IsFull mps) full (p ∷ []) all (e, tt)

      regroup : concat (full ++ (p ∷ [])) ++ concat ps ≡ concat full ++ (p ++ concat ps)
      regroup = rw (concat-append full (p ∷ []), append-nil, append_assoc) refl

  -- A receiver with buffers of `k` packets gets each message of a packet stream as a frame of
  -- transfers, and the messages stay apart and in order.
  pub receive-IsStream :
      {ms ps : List (List ℕ)} (rest : List (List ℕ))
      → IsStream mps ms ps
      → (ts : List (List ℕ)) × IsStream (k * mps) ms ts
        × (c.receive k (ps ++ rest) ≡ ts ++ c.receive k rest)
  unfolding Arrives
  receive-IsStream rest IsStream.done = ([], IsStream.done, refl)
  receive-IsStream rest (IsStream.next {ts = ps} {us = qs} frame m e stream) =
      let (ts, f, same, r) = arrives [] tt pos frame in
      let (us, s, r') = receive-IsStream rest stream in
      (
        ts ++ us,
        IsStream.next f (same ∙ m) refl s,
        ap (λ x. c.receive k (x ++ rest)) e
            ∙ ap (c.receive k) (append_assoc ps qs rest)
            ∙ r (qs ++ rest)
            ∙ ap (λ x. ts ++ x) r'
            ∙ sym (append_assoc ts us _),
      )

-- The pieces of a stream hold the bytes of its messages.
pub concat-IsStream :
    {size : ℕ} {ms ts : List (List ℕ)} → IsStream size ms ts → concat ts ≡ concat ms
concat-IsStream IsStream.done = refl
concat-IsStream (IsStream.next {m = m} {ts = ts} {us = us} frame same e stream) =
    ap concat e ∙ concat-append ts us ∙ ap₂ (λ x y. x ++ y) same (concat-IsStream stream)
