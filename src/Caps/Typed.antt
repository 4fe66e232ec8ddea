-- ===== src/Caps/Typed.antt =====
-- The capabilities of the device (src/lib.rs) as machine values: bytes on the wire, and words of 32 and
-- 64 bits in the record.
use upc.Common.{
  ℕ, zero, suc, ◌*◌, ◌%◌, ◌/◌, ◌^◌, ◌<◌, ◌≡◌, ◌⊎◌, inl, inr, refl, sym, ap, ◌∙◌, List, [], ◌∷◌,
  ◌++◌, ltb, leb, ◌==◌, ◌&&◌, if◌then◌else◌, Bool, true, false, Option, none, some, ok, err,
  invalid_data, arith,
}
use mathlib.Core.Path.{subst}
use upc.Common.Lists.{length, take, All, All-append}
use upc.Common.Words.{to_le_bytes, from_le_bytes, IsByte}
use upc.Caps.Device.{
  DeviceCapabilities, tag_ping_timeout, tag_status_supported, tag_max_packet_size,
  tag_echo_supported, from_millis, default_caps, timeout_millis, bool_byte, encode, apply_entry,
  apply_entries, decode,
}
use upc.Caps.DeviceLaws.{decode-encode, decode-encode_exact, transmitted_timeout}
use upc.Tlv
use upc.Tlv.RoundTrip.{encode_all, decode_cases}

-- The number of values of so many bytes.
abbrev values : ℕ → ℕ
values zero = 1
values (suc k) = 256 * values k

values_pos : (k : ℕ) → 0 < values k
values_pos zero = omega arith
values_pos (suc k) = omega (arith, values_pos k)

from_le_bytes_small : (k : ℕ) (bs : List ℕ) → All IsByte bs → from_le_bytes (take k bs) < values k
from_le_bytes_small zero bs bytes = omega arith
from_le_bytes_small (suc k) [] bytes = omega (arith, values_pos k)
from_le_bytes_small (suc k) (b ∷ bs) (byte, bytes) = omega (arith, from_le_bytes_small k bs bytes)

to_le_bytes-IsByte : (k n : ℕ) → All IsByte (to_le_bytes k n)
to_le_bytes-IsByte zero n = tt
to_le_bytes-IsByte (suc k) n = (omega arith, to_le_bytes-IsByte k (n / 256))

bool_byte-IsByte : (b : Bool) → IsByte (bool_byte b)
bool_byte-IsByte true = omega arith
bool_byte-IsByte false = omega arith

All-front : (xs ys : List ℕ) → All IsByte (xs ++ ys) → All IsByte xs
All-front [] ys p = tt
All-front (x ∷ xs) ys (px, p) = (px, All-front xs ys p)

All-back : (xs ys : List ℕ) → All IsByte (xs ++ ys) → All IsByte ys
All-back [] ys p = p
All-back (x ∷ xs) ys (px, p) = All-back xs ys p

-- An encoder puts bytes behind bytes.
tlv_encode-IsByte :
    (buf : List ℕ) (tag : ℕ) (value : List ℕ)
    → All IsByte buf
    → IsByte tag
    → All IsByte value
    → All IsByte (Tlv.encode buf tag value)
unfolding Tlv.encode
tlv_encode-IsByte buf tag value bytes byte inside = All-append IsByte buf _ bytes (
  byte,
  All-append IsByte (to_le_bytes 2 (length value % 2 ^ 16)) value (to_le_bytes-IsByte 2 _) inside,
)

encode-IsByte : (c : DeviceCapabilities) → All IsByte (encode c)
unfolding encode
encode-IsByte c =
    tlv_encode-IsByte _ tag_echo_supported (bool_byte c.echo_supported ∷ [])
      (tlv_encode-IsByte _ tag_max_packet_size (to_le_bytes 8 c.max_size)
        (tlv_encode-IsByte _ tag_status_supported (bool_byte c.status_supported ∷ [])
          (tlv_encode-IsByte [] tag_ping_timeout (to_le_bytes 4 (timeout_millis c.ping_timeout)) tt
            (omega arith) (to_le_bytes-IsByte 4 (timeout_millis c.ping_timeout)))
          (omega arith) (bool_byte-IsByte c.status_supported, tt))
        (omega arith) (to_le_bytes-IsByte 8 c.max_size))
      (omega arith) (bool_byte-IsByte c.echo_supported, tt)

values-IsByte : (es : List (ℕ × List ℕ)) → All IsByte (encode_all es) → All (λ e. All IsByte e.1) es
unfolding encode_all Tlv.encode
values-IsByte [] bytes = tt
values-IsByte ((tag, value) ∷ es) bytes =
    let entry = Tlv.encode [] tag value in
    (
      (All-back (to_le_bytes 2 (length value % 2 ^ 16)) value
          (All-front entry (encode_all es) bytes).1),
      values-IsByte es (All-back entry (encode_all es) bytes),
    )

-- A ping timeout of whole milliseconds that a u32 counts, if there is one, and a maximum within a u64.
pub record InRange (c : DeviceCapabilities) : Type 0 where
  pub timeout :
      (c.ping_timeout ≡ none)
      ⊎ ((ms : ℕ) × (0 < ms) × (ms < 2 ^ 32) × (c.ping_timeout ≡ some (from_millis ms)))
  pub size : c.max_size < 2 ^ 64

timeout-InRange :
    (ms : ℕ)
    → ms < 2 ^ 32
    → let t : Option ℕ = if ms == 0 then none else some (from_millis ms) in
      (t ≡ none) ⊎ ((ms : ℕ) × (0 < ms) × (ms < 2 ^ 32) × (t ≡ some (from_millis ms)))
timeout-InRange zero small = inl refl
timeout-InRange (suc n) small = inr (suc n, omega arith, small, ground arith)

if-InRange :
    (b : Bool) {x y : DeviceCapabilities} → InRange x → InRange y → InRange (if b then x else y)
if-InRange true x y = x
if-InRange false x y = y

entry-InRange :
    (c : DeviceCapabilities) (tag : ℕ) (value : List ℕ)
    → All IsByte value
    → InRange c
    → InRange (apply_entry c (tag, value))
unfolding apply_entry
entry-InRange c tag value bytes good =
    let small : from_le_bytes (take 4 value) < 2 ^ 32 = from_le_bytes_small 4 value bytes in
    if-InRange (tag == tag_ping_timeout && leb 4 (length value))
      (record { timeout = timeout-InRange (from_le_bytes (take 4 value)) small; size = good.size })
      (if-InRange (tag == tag_status_supported && ltb 0 (length value))
        (record { timeout = good.timeout; size = good.size })
        (if-InRange (tag == tag_max_packet_size && leb 8 (length value))
          (record { timeout = good.timeout; size = from_le_bytes_small 8 value bytes })
          (if-InRange (tag == tag_echo_supported && ltb 0 (length value))
            (record { timeout = good.timeout; size = good.size }) good)))

entries-InRange :
    (c : DeviceCapabilities) (es : List (ℕ × List ℕ))
    → All (λ e. All IsByte e.1) es
    → InRange c
    → InRange (apply_entries c es)
unfolding apply_entries
entries-InRange c [] bytes good = good
entries-InRange c ((tag, value) ∷ es) (inside, bytes) good =
    entries-InRange (apply_entry c (tag, value)) es bytes (entry-InRange c tag value inside good)

default-InRange : InRange default_caps
unfolding default_caps
default-InRange = record { timeout = inl refl; size = omega arith }

-- Capabilities within range come back from their encoding as they are.
InRange-decode : (c : DeviceCapabilities) → InRange c → decode (encode c) ≡ ok c
unfolding transmitted_timeout timeout_millis
InRange-decode c good = elim good.timeout [
  | inl none_set ↦
      decode-encode c good.size ∙ ap (λ t. ok (record c { ping_timeout = t })) (rw none_set refl)
  | inr (ms, pos, small, e) ↦ decode-encode_exact c ms good.size pos small e
]

-- Bytes decode to capabilities of the device with a maximum below 2^64 and a ping timeout, if there
-- is one, of 1 to 2^32 - 1 whole milliseconds, whose encoding consists of bytes and decodes to the
-- same capabilities; or they are refused with InvalidData.
pub decode-InRange :
    (bytes : List ℕ)
    → All IsByte bytes
    → ((c : DeviceCapabilities) × (decode bytes ≡ ok c)
        × InRange c
        × All IsByte (encode c)
        × (decode (encode c) ≡ ok c))
      ⊎ (decode bytes ≡ err invalid_data)
unfolding decode
decode-InRange bytes inside = elim (decode_cases bytes inside) [
  | inl (es, read, fits, written) ↦
      let c = apply_entries default_caps es in
      let typed = values-IsByte es (subst (All IsByte) (sym written) inside) in
      let good = entries-InRange default_caps es typed default-InRange in
      inl (c, rw read refl, good, encode-IsByte c, InRange-decode c good)
  | inr refused ↦ inr (rw refused refl)
]
