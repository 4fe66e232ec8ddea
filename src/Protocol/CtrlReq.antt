-- ===== src/Protocol/CtrlReq.antt =====
-- src/lib.rs, `mod ctrl_req`: the codes of the vendor control requests.
use upc.Common.{ℕ, List, [], ◌∷◌}

abbrev pub probe : ℕ
probe = 0

abbrev pub open_connection : ℕ
open_connection = 1

abbrev pub close : ℕ
close = 2

abbrev pub info : ℕ
info = 3

abbrev pub close_send : ℕ
close_send = 4

abbrev pub close_recv : ℕ
close_recv = 5

abbrev pub status : ℕ
status = 6

abbrev pub capabilities : ℕ
capabilities = 7

abbrev pub echo : ℕ
echo = 8

-- b"UPC"
abbrev pub probe_response : List ℕ
probe_response = b'U' ∷ b'P' ∷ b'C' ∷ []
