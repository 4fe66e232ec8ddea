-- ===== src/Caps/DeviceLaws.antt =====
-- The host reads back what the device's `DeviceCapabilities::encode` wrote.
use upc.Common.{
  ℕ, ◌^◌, ◌<◌, ◌≡◌, refl, sym, ap, ◌∙◌, List, [], ◌∷◌, ◌++◌, ◌==◌, if◌then◌else◌, Bool, true, false,
  not, ◌⊎◌, Option, none, some, ok, arith,
}
use upc.Common.Lists.{length, All, All-append}
use upc.Common.Words.{to_le_bytes, from_le_bytes-to_le_bytes_u32, from_le_bytes-to_le_bytes_u64}
use upc.Caps.Device.{
  DeviceCapabilities, tag_ping_timeout, tag_status_supported, tag_max_packet_size,
  tag_echo_supported, from_millis, default_caps, timeout_millis, bool_byte, encode, apply_entry,
  apply_entries, decode,
}
use upc.Tlv
use upc.Tlv.RoundTrip.{encode_all, Fits, decode-encode_all}

-- The entries that `encode` writes.
entries : DeviceCapabilities → List (ℕ × List ℕ)
entries c =
    (tag_ping_timeout, to_le_bytes 4 (timeout_millis c.ping_timeout))
    ∷ (tag_status_supported, bool_byte c.status_supported ∷ [])
    ∷ (tag_max_packet_size, to_le_bytes 8 c.max_size)
    ∷ (tag_echo_supported, bool_byte c.echo_supported ∷ [])
    ∷ []

encode-entries : (c : DeviceCapabilities) → encode c ≡ encode_all (entries c)
unfolding encode entries encode_all Tlv.encode
encode-entries c = refl

-- What a ping timeout becomes on the way: whole milliseconds, at most 2^32 - 1 of them, and
-- nothing at all below one millisecond.
unfoldable pub transmitted_timeout : Option ℕ → Option ℕ
transmitted_timeout t =
    if timeout_millis t == 0 then none else some (from_millis (timeout_millis t))

timeout_millis_u32 : (t : Option ℕ) → timeout_millis t < 2 ^ 32
unfolding timeout_millis
timeout_millis_u32 none = omega arith
timeout_millis_u32 (some d) = ground arith

flag_byte : (b : Bool) → not (bool_byte b == 0) ≡ b
flag_byte true = refl
flag_byte false = refl

transmitted_exact :
    (ms : ℕ)
    → 0 < ms
    → ms < 2 ^ 32
    → transmitted_timeout (some (from_millis ms)) ≡ some (from_millis ms)
unfolding transmitted_timeout timeout_millis
transmitted_exact ms lo hi = ground arith

transmitted_small : (d : ℕ) → d < 1_000_000 → transmitted_timeout (some d) ≡ none
unfolding transmitted_timeout timeout_millis
transmitted_small d h = ground arith

apply_entries-entries :
    (c : DeviceCapabilities)
    → c.max_size < 2 ^ 64
    → apply_entries default_caps (entries c)
      ≡ record c { ping_timeout = transmitted_timeout c.ping_timeout }
unfolding apply_entries apply_entry entries default_caps transmitted_timeout
apply_entries-entries c h = rw (
  from_le_bytes-to_le_bytes_u32 (timeout_millis c.ping_timeout) (timeout_millis_u32 c.ping_timeout),
  from_le_bytes-to_le_bytes_u64 c.max_size h,
  flag_byte c.status_supported,
  flag_byte c.echo_supported,
)

-- What the host decodes is what the device encoded, but for the rounding of the ping timeout.
pub decode-encode :
    (c : DeviceCapabilities)
    → c.max_size < 2 ^ 64
    → decode (encode c) ≡ ok (record c { ping_timeout = transmitted_timeout c.ping_timeout })
unfolding decode
decode-encode c h =
    rw (encode-entries c, decode-encode_all (entries c) (unfold entries in (omega arith)))
      (ap ok (apply_entries-entries c h))

-- Capabilities of the device with a maximum below 2^64 and a ping timeout of 1 to 2^32 - 1 whole
-- milliseconds decode from their encoding.
pub decode-encode_exact :
    (c : DeviceCapabilities) (ms : ℕ)
    → c.max_size < 2 ^ 64
    → 0 < ms
    → ms < 2 ^ 32
    → c.ping_timeout ≡ some (from_millis ms)
    → decode (encode c) ≡ ok c
decode-encode_exact c ms h lo hi e =
    decode-encode c h
    ∙ ap (λ t. ok (record c { ping_timeout = t })) (rw e (transmitted_exact ms lo hi) ∙ sym e)

-- A ping timeout below one millisecond arrives as no ping timeout at all.
pub submillisecond_lost :
    (c : DeviceCapabilities) (d : ℕ)
    → c.max_size < 2 ^ 64
    → d < 1_000_000
    → c.ping_timeout ≡ some d
    → decode (encode c) ≡ ok (record c { ping_timeout = none })
submillisecond_lost c d h small e =
    decode-encode c h
    ∙ ap (λ t. ok (record c { ping_timeout = t })) (rw e (transmitted_small d small))

-- An entry with an unknown tag changes nothing, wherever it stands.
apply_entry_unknown :
    (c : DeviceCapabilities) (tag : ℕ) (value : List ℕ)
    → (tag ≡ 0) ⊎ (4 < tag)
    → apply_entry c (tag, value) ≡ c
unfolding apply_entry
apply_entry_unknown c tag value h = ground arith

apply_entries-append :
    (c : DeviceCapabilities) (xs ys : List (ℕ × List ℕ))
    → apply_entries c (xs ++ ys) ≡ apply_entries (apply_entries c xs) ys
unfolding apply_entries
apply_entries-append c [] ys = refl
apply_entries-append c (x ∷ xs) ys = apply_entries-append (apply_entry c x) xs ys

-- An entry with a tag that the decoder of the device's capabilities does not know, anywhere among
-- others, changes nothing.
pub decode_skips_unknown :
    (xs ys : List (ℕ × List ℕ)) (tag : ℕ) (value : List ℕ)
    → All Fits xs
    → All Fits ys
    → length value < 2 ^ 16
    → (tag ≡ 0) ⊎ (4 < tag)
    → decode (encode_all (xs ++ ((tag, value) ∷ ys))) ≡ decode (encode_all (xs ++ ys))
unfolding decode
decode_skips_unknown xs ys tag value fx fy fv u =
    rw
      (
        decode-encode_all (xs ++ ((tag, value) ∷ ys))
            (All-append Fits xs ((tag, value) ∷ ys) fx (fv, fy)),
        decode-encode_all (xs ++ ys) (All-append Fits xs ys fx fy),
        apply_entries-append default_caps xs ((tag, value) ∷ ys),
        apply_entries-append default_caps xs ys,
      )
      (unfold apply_entries in
        ap (λ c. ok (apply_entries c ys))
          (apply_entry_unknown (apply_entries default_caps xs) tag value u))
