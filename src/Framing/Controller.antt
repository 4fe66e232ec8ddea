-- ===== src/Framing/Controller.antt =====
-- The USB hardware between the two sides, which the crate does not implement, as a parameter: what
-- PROTOCOL.md, section 3, says of a bulk endpoint with packets of `mps` bytes.
use mathlib.Core.List.{append_assoc}
use upc.Common.{ℕ, ◌<◌, ◌≡◌, refl, sym, ap, ◌∙◌, List, [], ◌∷◌, ◌++◌}
use upc.Common.Lists.{length, concat, All}

abbrev pub IsFull : ℕ → List ℕ → Type 0
IsFull mps p = length p ≡ mps

pub record Controller (mps : ℕ) : Type 0 where
  -- The packets that one transfer puts on the wire.
  pub packets : List ℕ → List (List ℕ)
  -- The transfers that complete, over buffers of `k * mps` bytes, as the packets come in.
  pub receive : ℕ → List (List ℕ) → List (List ℕ)
  -- A transfer is cut into packets of `mps` bytes; an empty one is a zero-length packet.
  pub packets_short : (t : List ℕ) → length t < mps → packets t ≡ t ∷ []
  pub packets_full : (t : List ℕ) → length t ≡ mps → packets t ≡ t ∷ []
  pub packets_more :
      (t rest : List ℕ) → length t ≡ mps → 0 < length rest → packets (t ++ rest) ≡ t ∷ packets rest
  -- Without a packet nothing completes.
  pub receive_none : (k : ℕ) → receive k [] ≡ []
  -- A short packet completes the transfer with what the buffer holds.
  pub receive_short :
      (k : ℕ) (full : List (List ℕ)) (s : List ℕ) (rest : List (List ℕ))
      → All (IsFull mps) full
      → length full < k
      → length s < mps
      → receive k (full ++ (s ∷ rest)) ≡ (concat full ++ s) ∷ receive k rest
  -- So does a packet that fills the buffer.
  pub receive_full :
      (k : ℕ) (full rest : List (List ℕ))
      → All (IsFull mps) full
      → 0 < k
      → length full ≡ k
      → receive k (full ++ rest) ≡ concat full ∷ receive k rest

-- The packets that a sequence of transfers puts on the wire.
unfoldable pub wire : {mps : ℕ} → Controller mps → List (List ℕ) → List (List ℕ)
wire c [] = []
wire c (t ∷ ts) = c.packets t ++ wire c ts

pub wire-append :
    {mps : ℕ} (c : Controller mps) (ts us : List (List ℕ))
    → wire c (ts ++ us) ≡ wire c ts ++ wire c us
unfolding wire
wire-append c [] us = refl
wire-append c (t ∷ ts) us =
    ap (λ x. c.packets t ++ x) (wire-append c ts us)
    ∙ sym (append_assoc (c.packets t) (wire c ts) (wire c us))
