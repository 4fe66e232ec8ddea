-- ===== src/Tests/Usb.antt =====
-- A bulk endpoint with packets of `suc m` bytes, as a computable `Controller`.
use upc.Common.{
  ℕ, zero, suc, ◌-◌, ◌≤◌, ◌<◌, ◌≡◌, refl, sym, ap, ◌∙◌, List, [], ◌∷◌, ◌++◌, true, false, ◌||◌, ltb,
  leb, if◌then◌else◌, arith, lt→ltb,
}
use upc.Common.Lists.{length, concat, All}
use upc.Framing.Controller.{Controller, IsFull}
use mathlib.Core.List.{append-nil, append_assoc}

module _ (m : ℕ) where
  unfoldable pub split : ℕ → List ℕ → List ℕ → List (List ℕ)
  split room acc [] = acc ∷ []
  split zero acc (b ∷ bs) = acc ∷ split m (b ∷ []) bs
  split (suc room) acc (b ∷ bs) = split room (acc ++ (b ∷ [])) bs

  unfoldable pub collect : ℕ → ℕ → List ℕ → List (List ℕ) → List (List ℕ)
  collect k room acc [] = []
  collect k room acc (p ∷ ps) =
      let here = (acc ++ p) ∷ collect k k [] ps in
      let more = collect k (room - 1) (acc ++ p) ps in
      if ltb (length p) (suc m) || leb room 1 then here else more

  pub collect_none : (k room : ℕ) (acc : List ℕ) → collect k room acc [] ≡ []
  unfolding collect
  collect_none k room acc = refl

  pub split_fit : (room : ℕ) (acc t : List ℕ) → length t ≤ room → split room acc t ≡ (acc ++ t) ∷ []
  unfolding split
  split_fit room acc [] h = ap (λ x. x ∷ []) (sym (append-nil acc))
  split_fit zero acc (b ∷ bs) h = absurd (omega arith)
  split_fit (suc room) acc (b ∷ bs) h =
      split_fit room (acc ++ (b ∷ [])) bs (omega arith)
      ∙ ap (λ x. x ∷ []) (append_assoc acc (b ∷ []) bs)

  pub split_more :
      (room : ℕ) (acc t rest : List ℕ)
      → length t ≡ room
      → 0 < length rest
      → split room acc (t ++ rest) ≡ (acc ++ t) ∷ split (suc m) [] rest
  unfolding split
  split_more room acc t [] e h = absurd (omega arith)
  split_more zero acc [] (b ∷ bs) e h = ap (λ x. x ∷ split m (b ∷ []) bs) (sym (append-nil acc))
  split_more zero acc (a ∷ t) (b ∷ bs) e h = absurd (omega arith)
  split_more (suc room) acc [] (b ∷ bs) e h = absurd (omega arith)
  split_more (suc room) acc (a ∷ t) (b ∷ bs) e h =
      split_more room (acc ++ (a ∷ [])) t (b ∷ bs) (omega arith) h
      ∙ ap (λ x. x ∷ split (suc m) [] (b ∷ bs)) (append_assoc acc (a ∷ []) t)

  pub collect_short :
      (k room : ℕ) (acc : List ℕ) (full : List (List ℕ)) (s : List ℕ) (rest : List (List ℕ))
      → All (IsFull (suc m)) full
      → length full < room
      → length s < suc m
      → collect k room acc (full ++ (s ∷ rest)) ≡ (acc ++ (concat full ++ s)) ∷ collect k k [] rest
  unfolding collect
  collect_short k room acc [] s rest all h small = rw (lt→ltb (length s) (suc m) small) refl
  collect_short k room acc (p ∷ full) s rest (e, all) h small =
      let test : (ltb (length p) (suc m) || leb room 1) ≡ false = ground arith in
      rw test (
        collect_short k (room - 1) (acc ++ p) full s rest all (omega arith) small
        ∙ ap (λ x. x ∷ collect k k [] rest)
            (append_assoc acc p (concat full ++ s)
              ∙ ap (λ x. acc ++ x) (sym (append_assoc p (concat full) s))))

  pub collect_full :
      (k room : ℕ) (acc : List ℕ) (full rest : List (List ℕ))
      → All (IsFull (suc m)) full
      → 0 < room
      → length full ≡ room
      → collect k room acc (full ++ rest) ≡ (acc ++ concat full) ∷ collect k k [] rest
  unfolding collect
  collect_full k room acc [] rest all pos h = absurd (omega arith)
  collect_full k room acc (p ∷ []) rest (e, all) pos h =
      let test : (ltb (length p) (suc m) || leb room 1) ≡ true = ground arith in
      rw test (ap (λ x. (acc ++ x) ∷ collect k k [] rest) (sym (append-nil p)))
  collect_full k room acc (p ∷ q ∷ full) rest (e, all) pos h =
      let test : (ltb (length p) (suc m) || leb room 1) ≡ false = ground arith in
      rw test (
        collect_full k (room - 1) (acc ++ p) (q ∷ full) rest all (omega arith) (omega arith)
        ∙ ap (λ x. x ∷ collect k k [] rest) (append_assoc acc p (concat (q ∷ full))))

abbrev pub usb : (m : ℕ) → Controller (suc m)
usb m = record {
  packets = λ t. split m (suc m) [] t;
  receive = λ k ps. collect m k k [] ps;
  packets_short = λ t h. split_fit m (suc m) [] t (omega arith);
  packets_full = λ t h. split_fit m (suc m) [] t (omega arith);
  packets_more = λ t rest h pos. split_more m (suc m) [] t rest h pos;
  receive_none = λ k. collect_none m k k [];
  receive_short = λ k full s rest all h small. collect_short m k k [] full s rest all h small;
  receive_full = λ k full rest all pos h. collect_full m k k [] full rest all pos h;
}
