-- ===== src/Caps/Host.antt =====
-- src/lib.rs, `HostCapabilities`.
use upc.Common.{ℕ, List, [], ◌∷◌, leb, ◌==◌, if◌then◌else◌, ◌&&◌, Result, ok, ◌>>=◌}
use upc.Common.Lists.{length, take}
use upc.Common.Words.{to_le_bytes, from_le_bytes}
use upc.Protocol.{max_size as default_max_size}
use upc.Tlv

pub record HostCapabilities : Type 0 where
  pub max_size : ℕ

abbrev pub tag_max_packet_size : ℕ
tag_max_packet_size = 0x03

unfoldable pub default_caps : HostCapabilities
default_caps = record { max_size = default_max_size }

unfoldable pub encode : HostCapabilities → List ℕ
encode c = Tlv.encode [] tag_max_packet_size (to_le_bytes 8 c.max_size)

unfoldable pub apply_entry : HostCapabilities → ℕ × List ℕ → HostCapabilities
apply_entry caps (tag, value) =
    if tag == tag_max_packet_size && leb 8 (length value)
    then record caps { max_size = from_le_bytes (take 8 value) }
    else caps

unfoldable pub apply_entries : HostCapabilities → List (ℕ × List ℕ) → HostCapabilities
apply_entries caps [] = caps
apply_entries caps (e ∷ es) = apply_entries (apply_entry caps e) es

unfoldable pub decode : List ℕ → Result HostCapabilities
unfolding apply_entries default_caps
decode bytes = do entries ← Tlv.decode bytes; ok (apply_entries default_caps entries)
