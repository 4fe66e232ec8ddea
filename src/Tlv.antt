-- ===== src/Tlv.antt =====
-- src/lib.rs, `mod tlv`: tag, 16-bit length and value, one entry behind the other.
pub mod RoundTrip
use upc.Common.{
  ℕ, zero, suc, ◌+◌, ◌*◌, ◌%◌, ◌^◌, List, [], ◌∷◌, ◌++◌, ltb, if◌then◌else◌, Result, ok, err,
  diverged, invalid_data,
}
use upc.Common.Lists.{length, take, drop}
use upc.Common.Words.{to_le_bytes, from_le_bytes}

-- `value.len() as u16` drops the high bits of the length.
unfoldable pub encode : List ℕ → ℕ → List ℕ → List ℕ
encode buf tag value = buf ++ (tag ∷ (to_le_bytes 2 (length value % 2 ^ 16) ++ value))

-- The list is `data[pos..]`. Each round takes three bytes at least.
unfoldable pub decode_loop : ℕ → List ℕ → List (ℕ × List ℕ) → Result (List (ℕ × List ℕ))
decode_loop fuel [] entries = ok entries
decode_loop zero (tag ∷ rest) entries = diverged
decode_loop (suc fuel) (tag ∷ []) entries = err invalid_data
decode_loop (suc fuel) (tag ∷ lo ∷ []) entries = err invalid_data
decode_loop (suc fuel) (tag ∷ lo ∷ hi ∷ rest) entries =
    let len = from_le_bytes (lo ∷ hi ∷ []) in
    let more = decode_loop fuel (drop len rest) (entries ++ ((tag, take len rest) ∷ [])) in
    if ltb (length rest) len then err invalid_data else more

unfoldable pub decode : List ℕ → Result (List (ℕ × List ℕ))
unfolding decode_loop
decode data_bytes = decode_loop (length data_bytes) data_bytes []
