-- ===== src/Caps/Device.antt =====
-- src/lib.rs, `DeviceCapabilities`. A Duration is its number of nanoseconds.
use upc.Common.{
  ℕ, ◌*◌, ◌/◌, ◌^◌, List, [], ◌∷◌, ltb, leb, ◌==◌, if◌then◌else◌, Bool, true, false, not, ◌&&◌,
  Option, none, some, Result, ok, ◌>>=◌,
}
use upc.Common.Lists.{length, take}
use upc.Common.Words.{to_le_bytes, from_le_bytes}
use upc.Protocol.{max_size as default_max_size}
use upc.Tlv

pub record DeviceCapabilities : Type 0 where
  pub ping_timeout : Option ℕ
  pub status_supported : Bool
  pub echo_supported : Bool
  pub max_size : ℕ

abbrev pub tag_ping_timeout : ℕ
tag_ping_timeout = 0x01

abbrev pub tag_status_supported : ℕ
tag_status_supported = 0x02

abbrev pub tag_max_packet_size : ℕ
tag_max_packet_size = 0x03

abbrev pub tag_echo_supported : ℕ
tag_echo_supported = 0x04

-- Duration::as_millis and Duration::from_millis.
abbrev pub as_millis : ℕ → ℕ
as_millis d = d / 1_000_000

abbrev pub from_millis : ℕ → ℕ
from_millis ms = ms * 1_000_000

unfoldable pub default_caps : DeviceCapabilities
default_caps = record {
  ping_timeout = none;
  status_supported = false;
  echo_supported = false;
  max_size = default_max_size;
}

-- `map_or(0, |d| d.as_millis().try_into().unwrap_or(u32::MAX))`
unfoldable pub timeout_millis : Option ℕ → ℕ
timeout_millis none = 0
timeout_millis (some d) = if ltb (as_millis d) (2 ^ 32) then as_millis d else 0xffff_ffff

-- u8::from(bool)
abbrev pub bool_byte : Bool → ℕ
bool_byte true = 1
bool_byte false = 0

unfoldable pub encode : DeviceCapabilities → List ℕ
unfolding timeout_millis
encode c =
    let buf = Tlv.encode [] tag_ping_timeout (to_le_bytes 4 (timeout_millis c.ping_timeout)) in
    let buf = Tlv.encode buf tag_status_supported (bool_byte c.status_supported ∷ []) in
    let buf = Tlv.encode buf tag_max_packet_size (to_le_bytes 8 c.max_size) in
    Tlv.encode buf tag_echo_supported (bool_byte c.echo_supported ∷ [])

-- `value[0]`; the caller has tested that the value is not empty.
abbrev first : List ℕ → ℕ
first [] = 0
first (b ∷ bs) = b

-- One round of the decoding loop: a tag with too short a value falls through to the last arm.
unfoldable pub apply_entry : DeviceCapabilities → ℕ × List ℕ → DeviceCapabilities
apply_entry caps (tag, value) =
    if tag == tag_ping_timeout && leb 4 (length value)
    then (let millis = from_le_bytes (take 4 value) in
        record caps { ping_timeout = if millis == 0 then none else some (from_millis millis) })
    else if tag == tag_status_supported && ltb 0 (length value)
    then record caps { status_supported = not (first value == 0) }
    else if tag == tag_max_packet_size && leb 8 (length value)
    then record caps { max_size = from_le_bytes (take 8 value) }
    else if tag == tag_echo_supported && ltb 0 (length value)
    then record caps { echo_supported = not (first value == 0) }
    else caps

unfoldable pub apply_entries : DeviceCapabilities → List (ℕ × List ℕ) → DeviceCapabilities
apply_entries caps [] = caps
apply_entries caps (e ∷ es) = apply_entries (apply_entry caps e) es

unfoldable pub decode : List ℕ → Result DeviceCapabilities
unfolding apply_entries default_caps
decode bytes = do entries ← Tlv.decode bytes; ok (apply_entries default_caps entries)
