-- ===== src/Framing.antt =====
-- Short-packet framing (PROTOCOL.md, section 3) as a predicate, apart from any code: a message is a
-- run of pieces of full size that ends with a shorter one, which may be empty.
pub mod Controller
pub mod Transport
pub mod Cut
use mathlib.Core.Path.{subst}
use upc.Common.{ℕ, ◌<◌, ◌≡◌, ◌⊎◌, inl, inr, sym, ap, ◌∙◌, List, [], ◌∷◌, ◌++◌}
use upc.Common.Lists.{length, concat}

-- The pieces of one message, over units of `size` bytes.
pub data IsFrame (size : ℕ) : List (List ℕ) → Type 0 where
  last : (t : List ℕ) → length t < size → IsFrame size (t ∷ [])
  more :
      (t : List ℕ) {ts : List (List ℕ)} → length t ≡ size → IsFrame size ts → IsFrame size (t ∷ ts)

-- The pieces of several messages, one message behind the other.
pub data IsStream (size : ℕ) : List (List ℕ) → List (List ℕ) → Type 0 where
  done : IsStream size [] []
  next :
      {m : List ℕ} {ms ts us vs : List (List ℕ)}
      → IsFrame size ts
      → concat ts ≡ m
      → vs ≡ ts ++ us
      → IsStream size ms us
      → IsStream size (m ∷ ms) vs

pub cons-injective : {x y : List ℕ} {xs ys : List (List ℕ)} → x ∷ xs ≡ y ∷ ys → (x ≡ y) × (xs ≡ ys)
cons-injective e = (cc, cc)

pub IsFrame-nil : {size : ℕ} → IsFrame size [] → ⊥
IsFrame-nil frame = elim frame [ ]

-- The first piece is the last one and short, or it is full and a frame follows.
pub IsFrame-cases :
    {size : ℕ} {ts : List (List ℕ)}
    → IsFrame size ts
    → (t : List ℕ) (us : List (List ℕ)) → ts ≡ t ∷ us
    → ((length t < size) × (us ≡ [])) ⊎ ((length t ≡ size) × IsFrame size us)
IsFrame-cases {size} (IsFrame.last t' short) t us e =
    inl (subst (λ x. length x < size) (cons-injective e).0 short, sym (cons-injective e).1)
IsFrame-cases {size} (IsFrame.more t' full frame) t us e = inr (
  ap length (sym (cons-injective e).0) ∙ full,
  subst (λ x. IsFrame size x) (cons-injective e).1 frame,
)
