-- ===== src/Cli/Forward/Chunks.antt =====
-- The pieces of lines: what `chunks` gives.
use upc.Common.{
  ℕ, zero, suc, ◌≤◌, ◌<◌, ◌≡◌, refl, ap, ◌∙◌, List, [], ◌∷◌, ◌++◌, map, some, arith, ==_of_ne,
}
use upc.Common.Lists.{
  length, take, drop, concat, All, All-append, concat-append, take-append-drop, length-take,
  length-drop,
}
use upc.Cli.Forward.{Input, got, eof, pieces, chunks}

abbrev pub Fits : ℕ → List ℕ → Type 0
Fits size p = (0 < length p) × (length p ≤ size)

concat-pieces :
    (fuel size : ℕ) (xs : List ℕ) → 0 < size → length xs ≤ fuel → concat (pieces fuel size xs) ≡ xs
unfolding pieces
concat-pieces zero size [] pos enough = refl
concat-pieces zero size (x ∷ xs) pos enough = absurd (omega arith)
concat-pieces (suc fuel) size [] pos enough = refl
concat-pieces (suc fuel) size (x ∷ xs) pos enough =
    ap (λ ys. take size (x ∷ xs) ++ ys)
      (concat-pieces fuel size (drop size (x ∷ xs)) pos (omega (arith, length-drop size (x ∷ xs))))
    ∙ take-append-drop size (x ∷ xs)

pub pieces-Fits : (fuel size : ℕ) (xs : List ℕ) → 0 < size → All (Fits size) (pieces fuel size xs)
unfolding pieces
pieces-Fits zero size xs pos = tt
pieces-Fits (suc fuel) size [] pos = tt
pieces-Fits (suc fuel) size (x ∷ xs) pos =
    let n = length-take size (x ∷ xs) in
    ((omega arith, omega arith), pieces-Fits fuel size (drop size (x ∷ xs)) pos)

abbrev pub with_newline : List ℕ → List ℕ
with_newline l = l ++ (b'\n' ∷ [])

-- What stdin brings: the lines, and then its end.
abbrev pub lines : List (List ℕ) → List Input
lines [] = eof ∷ []
lines (l ∷ ls) = got l ∷ lines ls

pub chunks_pos :
    (size : ℕ) (xs : List ℕ) → 0 < size → chunks size xs ≡ some (pieces (length xs) size xs)
unfolding chunks
chunks_pos size xs pos = rw (==_of_ne size 0 (λ e. omega arith)) refl

-- The packets of the lines.
abbrev pub packets : ℕ → List (List ℕ) → List (List ℕ)
packets size [] = []
packets size (l ∷ ls) = pieces (length (with_newline l)) size (with_newline l) ++ packets size ls

pub packets-Fits : (size : ℕ) (ls : List (List ℕ)) → 0 < size → All (Fits size) (packets size ls)
packets-Fits size [] pos = tt
packets-Fits size (l ∷ ls) pos =
    All-append (Fits size) _ (packets size ls)
      (pieces-Fits (length (with_newline l)) size (with_newline l) pos) (packets-Fits size ls pos)

pub concat-packets :
    (size : ℕ) (ls : List (List ℕ))
    → 0 < size
    → concat (packets size ls) ≡ concat (map with_newline ls)
concat-packets size [] pos = refl
concat-packets size (l ∷ ls) pos =
    let l = with_newline l in
    concat-append (pieces (length l) size l) (packets size ls)
    ∙ ap (λ x. x ++ concat (packets size ls)) (concat-pieces (length l) size l pos (omega arith))
    ∙ ap (λ x. l ++ x) (concat-packets size ls pos)

-- A line has a first piece, also where it is empty.
pub pieces-line :
    (size : ℕ) (l : List ℕ)
    → (p : List ℕ) × (ps : List (List ℕ)) × (pieces (length (with_newline l)) size (with_newline l)
        ≡ p ∷ ps)
unfolding pieces
pieces-line size [] = (_, _, refl)
pieces-line size (x ∷ l) = (_, _, refl)
