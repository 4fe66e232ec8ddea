-- ===== src/Tlv/RoundTrip.antt =====
-- `Tlv.decode` reads back what `Tlv.encode` wrote, and accepts nothing else.
use upc.Common.{
  ℕ, zero, suc, ◌%◌, ◌/◌, ◌^◌, ◌≤◌, ◌<◌, ◌≡◌, ◌≢◌, ◌⊎◌, inl, inr, refl, sym, ap, ◌∙◌, List, [], ◌∷◌,
  ◌++◌, ltb, ok, err, diverged, invalid_data, arith, ok-injective, Result-cases, ErrorKind, le→ltb,
  Bool-cases,
}
use upc.Common.Lists.{
  length, take, drop, All, length-append, length-drop, length-take, take-append_length,
  drop-append_length, take-append-drop, All-drop,
}
use upc.Common.Words.{to_le_bytes, from_le_bytes, IsByte}
use upc.Tlv.{encode, decode_loop, decode}
use mathlib.Core.List.{append-nil, append_assoc}

-- A whole list of entries, each behind the last.
unfoldable pub encode_all : List (ℕ × List ℕ) → List ℕ
encode_all [] = []
encode_all ((tag, value) ∷ es) = encode [] tag value ++ encode_all es

abbrev pub Fits : ℕ × List ℕ → Type 0
Fits (tag, value) = length value < 2 ^ 16

pub encode-append :
    (buf : List ℕ) (tag : ℕ) (value : List ℕ) → encode buf tag value ≡ buf ++ encode [] tag value
unfolding encode
encode-append buf tag value = refl

-- One round of the loop on an entry that `encode` wrote.
decode_loop-encode :
    (fuel : ℕ) (tag : ℕ) (value rest : List ℕ) (out : List (ℕ × List ℕ))
    → length value < 2 ^ 16
    → decode_loop (suc fuel) (encode [] tag value ++ rest) out
      ≡ decode_loop fuel rest (out ++ ((tag, value) ∷ []))
unfolding decode_loop encode
decode_loop-encode fuel tag value rest out h =
    let n : ℕ = length value in
    let e : from_le_bytes (to_le_bytes 2 (n % 2 ^ 16)) ≡ n = omega arith in
    rw (e, le→ltb (length (value ++ rest)) n (omega (arith, length-append value rest)))
      (rw (take-append_length, drop-append_length) refl)

decode_loop-encode_all :
    (es : List (ℕ × List ℕ)) (fuel : ℕ) (out : List (ℕ × List ℕ))
    → All Fits es
    → length (encode_all es) ≤ fuel
    → decode_loop fuel (encode_all es) out ≡ ok (out ++ es)
unfolding encode_all
decode_loop-encode_all [] fuel out h hf = rw append-nil (unfold decode_loop in refl)
decode_loop-encode_all ((tag, value) ∷ es) zero out h hf = absurd (unfold encode in (omega arith))
decode_loop-encode_all ((tag, value) ∷ es) (suc fuel) out (fits, h) hf =
    decode_loop-encode fuel tag value (encode_all es) out fits
    ∙ decode_loop-encode_all es fuel (out ++ ((tag, value) ∷ [])) h (shorter hf)
    ∙ ap ok (append_assoc out ((tag, value) ∷ []) es)
  where
    shorter :
        length (encode [] tag value ++ encode_all es) ≤ suc fuel → length (encode_all es) ≤ fuel
    shorter k = unfold encode in (omega (arith, length-append value (encode_all es)))

-- The encoding of any entries whose values are shorter than 2^16 bytes decodes to those entries.
pub decode-encode_all : (es : List (ℕ × List ℕ)) → All Fits es → decode (encode_all es) ≡ ok es
unfolding decode
decode-encode_all es h = decode_loop-encode_all es _ [] h (omega arith)

-- The decoder ends on every input, and never reads past it.
decode_loop-ne-diverged :
    (fuel : ℕ) (bytes : List ℕ) (out : List (ℕ × List ℕ))
    → length bytes ≤ fuel
    → decode_loop fuel bytes out ≢ diverged
unfolding decode_loop
decode_loop-ne-diverged fuel [] out h = λ e. cc
decode_loop-ne-diverged zero (t ∷ bs) out h = elim h [ ]
decode_loop-ne-diverged (suc fuel) (t ∷ []) out h = λ e. cc
decode_loop-ne-diverged (suc fuel) (t ∷ lo ∷ []) out h = λ e. cc
decode_loop-ne-diverged (suc fuel) (t ∷ lo ∷ hi ∷ rest) out h =
    let len : ℕ = from_le_bytes (lo ∷ hi ∷ []) in
    ground (
      arith,
      decode_loop-ne-diverged fuel (drop len rest) (out ++ ((t, take len rest) ∷ []))
          (omega (arith, length-drop len rest)),
    )

-- What the loop accepts is the encoding of what it returns.
abbrev Accepts : List ℕ → List (ℕ × List ℕ) → List (ℕ × List ℕ) → Type 0
Accepts bytes out es =
    (new : List (ℕ × List ℕ)) × (es ≡ out ++ new) × All Fits new × (encode_all new ≡ bytes)

-- An entry in front of an accepted rest.
Accepts-entry :
    (t lo hi : ℕ) (rest : List ℕ) (out es : List (ℕ × List ℕ))
    → IsByte lo
    → IsByte hi
    → let len = from_le_bytes (lo ∷ hi ∷ []) in
      len ≤ length rest
      → Accepts (drop len rest) (out ++ ((t, take len rest) ∷ [])) es
      → Accepts (t ∷ lo ∷ hi ∷ rest) out es
unfolding encode_all encode
Accepts-entry t lo hi rest out es blo bhi h (new, e, fits, back) =
    let len : ℕ = from_le_bytes (lo ∷ hi ∷ []) in
    let n : length (take len rest) ≡ len = omega (arith, length-take len rest) in
    let lo' : len % 2 ^ 16 % 256 ≡ lo = omega arith in
    let hi' : len % 2 ^ 16 / 256 % 256 ≡ hi = omega arith in
    (
      (t, take len rest) ∷ new,
      e ∙ append_assoc out _ new,
      (omega (arith, n), fits),
      rw (n, lo', hi', back, take-append-drop len rest) refl,
    )

decode_loop_sound :
    (fuel : ℕ) (bytes : List ℕ) (out es : List (ℕ × List ℕ))
    → All IsByte bytes
    → decode_loop fuel bytes out ≡ ok es
    → Accepts bytes out es
unfolding decode_loop
decode_loop_sound fuel [] out es b h =
    ([], sym (ok-injective h) ∙ sym (append-nil out), tt, unfold encode_all in refl)
decode_loop_sound zero (t ∷ bs) out es b h = cc
decode_loop_sound (suc fuel) (t ∷ []) out es b h = cc
decode_loop_sound (suc fuel) (t ∷ lo ∷ []) out es b h = cc
decode_loop_sound (suc fuel) (t ∷ lo ∷ hi ∷ rest) out es (bt, (blo, (bhi, b))) h =
    let len : ℕ = from_le_bytes (lo ∷ hi ∷ []) in
    elim (Bool-cases (ltb (length rest) len)) [
      | inl short ↦ cc
      | inr long ↦
          Accepts-entry t lo hi rest out es blo bhi (ground arith) (
            decode_loop_sound fuel (drop len rest) _ es (All-drop IsByte len rest b) (rw long at h))
    ]

decode_loop_error :
    (fuel : ℕ) (bytes : List ℕ) (out : List (ℕ × List ℕ)) (e : ErrorKind)
    → decode_loop fuel bytes out ≡ err e
    → e ≡ invalid_data
unfolding decode_loop
decode_loop_error fuel [] out e h = cc
decode_loop_error zero (t ∷ bs) out e h = cc
decode_loop_error (suc fuel) (t ∷ []) out e h = cc
decode_loop_error (suc fuel) (t ∷ lo ∷ []) out e h = cc
decode_loop_error (suc fuel) (t ∷ lo ∷ hi ∷ rest) out e h =
    let len : ℕ = from_le_bytes (lo ∷ hi ∷ []) in
    ground (arith, decode_loop_error fuel (drop len rest) (out ++ ((t, take len rest) ∷ [])) e)

-- On every input of bytes the decoder ends: it refuses with InvalidData, or it gives entries whose
-- encoding is the input.
pub decode_cases :
    (bytes : List ℕ)
    → All IsByte bytes
    → ((es : List (ℕ × List ℕ)) × (decode bytes ≡ ok es) × All Fits es × (encode_all es ≡ bytes))
      ⊎ (decode bytes ≡ err invalid_data)
unfolding decode
decode_cases bytes b =
    let r = decode_loop (length bytes) bytes [] in
    elim (Result-cases r (decode_loop-ne-diverged (length bytes) bytes [] (omega arith))) [
      | inl (es, h) ↦
          let (new, e, fits, back) = decode_loop_sound (length bytes) bytes [] es b h in
          inl (new, h ∙ ap ok e, fits, back)
      | inr (e, h) ↦ inr (h ∙ ap err (decode_loop_error (length bytes) bytes [] e h))
    ]
