-- ===== src/Caps/HostLaws.antt =====
-- The device reads back what the host's `HostCapabilities::encode` wrote.
use upc.Common.{◌^◌, ◌<◌, ◌≡◌, refl, [], ◌∷◌, ok, arith}
use upc.Common.Words.{to_le_bytes, from_le_bytes-to_le_bytes_u64}
use upc.Caps.Host.{
  HostCapabilities, tag_max_packet_size, default_caps, encode, apply_entry, apply_entries, decode,
}
use upc.Tlv
use upc.Tlv.RoundTrip.{encode_all, decode-encode_all}

encode-encode_all :
    (c : HostCapabilities)
    → encode c ≡ encode_all ((tag_max_packet_size, to_le_bytes 8 c.max_size) ∷ [])
unfolding encode encode_all Tlv.encode
encode-encode_all c = refl

-- Capabilities of the host with a maximum below 2^64 decode from their encoding.
pub decode-encode_host : (c : HostCapabilities) → c.max_size < 2 ^ 64 → decode (encode c) ≡ ok c
unfolding decode apply_entries apply_entry default_caps
decode-encode_host c h = rw (
  encode-encode_all c,
  decode-encode_all ((tag_max_packet_size, to_le_bytes 8 c.max_size) ∷ []) (omega arith),
  from_le_bytes-to_le_bytes_u64 c.max_size h,
)
