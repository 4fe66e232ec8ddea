-- ===== src/Protocol/Status.antt =====
-- src/lib.rs, `mod status`.
use upc.Common.{ℕ}

abbrev pub recv_closed : ℕ
recv_closed = 1

abbrev pub max_size : ℕ
max_size = 8
