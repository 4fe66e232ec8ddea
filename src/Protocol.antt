-- ===== src/Protocol.antt =====
-- src/lib.rs: the sizes of the protocol and the class triple of an interface.
pub mod CtrlReq
pub mod Status
use upc.Common.{ℕ}

-- INFO_SIZE, MAX_SIZE and TRANSFER_PACKETS of lib.rs.
abbrev pub info_size : ℕ
info_size = 4096

abbrev pub max_size : ℕ
max_size = 16_777_216

abbrev pub transfer_packets : ℕ
transfer_packets = 128

pub record Class : Type 0 where
  pub class : ℕ
  pub sub_class : ℕ
  pub protocol : ℕ

abbrev pub vendor_specific_code : ℕ
vendor_specific_code = 0xff

unfoldable pub vendor_specific : ℕ → ℕ → Class
vendor_specific sub_class protocol = record {
  class = vendor_specific_code;
  sub_class = sub_class;
  protocol = protocol;
}
