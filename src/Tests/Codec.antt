-- ===== src/Tests/Codec.antt =====
-- The TLV encoding and the capabilities on concrete bytes.
use upc.Common.{ℕ, ◌≡◌, ◌⊎◌, refl, List, [], ◌∷◌, true, none, some, invalid_data, ok, err, arith}
use upc.Common.Lists.{All}
use upc.Caps.Device.{DeviceCapabilities, from_millis}
use upc.Caps.Device
use upc.Caps.DeviceLaws.{submillisecond_lost}
use upc.Caps.Typed.{InRange, decode-InRange}
use upc.Common.Words.{IsByte}
use upc.Tlv
use upc.Tlv.RoundTrip.{Fits, encode_all, decode-encode_all, decode_cases}

abbrev entries : List (ℕ × List ℕ)
entries = (1, 7 ∷ 8 ∷ []) ∷ (9, []) ∷ []

abbrev device_caps : DeviceCapabilities
device_caps = record {
  ping_timeout = some (from_millis 10_000);
  status_supported = true;
  echo_supported = true;
  max_size = 65_536;
}

abbrev hasty_caps : DeviceCapabilities
hasty_caps = record device_caps { ping_timeout = some 500_000 }

-- The second entry says that three bytes follow, but there is one.
cut_off_refused : Tlv.decode (1 ∷ 1 ∷ 0 ∷ 5 ∷ 2 ∷ 3 ∷ 0 ∷ 9 ∷ []) ≡ err invalid_data
unfolding Tlv.decode
cut_off_refused = refl

decode-encode_all_example : Tlv.decode (encode_all entries) ≡ ok entries
decode-encode_all_example = decode-encode_all entries (omega arith)

decode_cases_example :
    ((es : List (ℕ × List ℕ)) × (Tlv.decode (3 ∷ 1 ∷ 0 ∷ 5 ∷ []) ≡ ok es)
      × All Fits es
      × (encode_all es ≡ 3 ∷ 1 ∷ 0 ∷ 5 ∷ []))
    ⊎ (Tlv.decode (3 ∷ 1 ∷ 0 ∷ 5 ∷ []) ≡ err invalid_data)
decode_cases_example = decode_cases (3 ∷ 1 ∷ 0 ∷ 5 ∷ []) (omega arith)

submillisecond_lost_example :
    Device.decode (Device.encode hasty_caps) ≡ ok (record hasty_caps { ping_timeout = none })
submillisecond_lost_example =
    submillisecond_lost hasty_caps 500_000 (omega arith) (omega arith) refl

-- A ping timeout of one millisecond, and a maximum of 2^64 - 1.
abbrev on_the_wire : List ℕ
on_the_wire =
    1 ∷ 4 ∷ 0 ∷ 1 ∷ 0 ∷ 0 ∷ 0 ∷ 3 ∷ 8 ∷ 0 ∷ 255 ∷ 255 ∷ 255 ∷ 255 ∷ 255 ∷ 255 ∷ 255 ∷ 255 ∷ []

decode-InRange_example :
    ((c : DeviceCapabilities) × (Device.decode on_the_wire ≡ ok c)
      × InRange c
      × All IsByte (Device.encode c)
      × (Device.decode (Device.encode c) ≡ ok c))
    ⊎ (Device.decode on_the_wire ≡ err invalid_data)
decode-InRange_example = decode-InRange on_the_wire (omega arith)
