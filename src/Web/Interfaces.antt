-- ===== src/Web/Interfaces.antt =====
-- src/host/web.rs: `RecvPacket`, `find_interface`, `info` and `probe`.
pub mod Laws
use upc.Common.{
  ℕ, List, [], ◌∷◌, Bool, true, false, if◌then◌else◌, Option, none, some, ErrorKind, not_found,
  Result, ok, err,
}
use upc.Common.Lists.{length}
use upc.Protocol.{Class}
use upc.Protocol.CtrlReq
use upc.Host.Receiver.{RecvPacket}
use upc.Host.Interfaces.{InterfaceDesc, has_class, same_bytes}
use upc.Web.Errors.{WebErrorKind, web_to_io_err}

-- A packet of the browser as the receiver sees it: all its bytes, which are owned.
unfoldable pub recv_packet : List ℕ → RecvPacket
recv_packet bytes = record { buffer = bytes; actual_len = length bytes; zero_copy = false }

abbrev search : List InterfaceDesc → Class → Result ℕ
unfolding has_class
search [] c = err not_found
search (i ∷ is) c = if has_class c i then ok (i.number) else search is c

unfoldable pub find_interface : Option (List InterfaceDesc) → Class → Result ℕ
unfolding search
find_interface none c = err not_found
find_interface (some is) c = search is c

-- The answer to a control request with data from the device.
pub data ControlIn : Type 0 where
  got : List ℕ → ControlIn
  lost : WebErrorKind → ControlIn

-- `claim` is the error of claiming the interface, if any.
unfoldable pub info : Option WebErrorKind → ControlIn → Result (List ℕ)
unfolding web_to_io_err
info (some e) answer = err (web_to_io_err e)
info none (got bytes) = ok bytes
info none (lost e) = err (web_to_io_err e)

unfoldable pub probe : Option WebErrorKind → ControlIn → Result Bool
unfolding web_to_io_err same_bytes
probe (some e) answer = err (web_to_io_err e)
probe none (got bytes) = ok (same_bytes bytes CtrlReq.probe_response)
probe none (lost WebErrorKind.stall) = ok false
probe none (lost e) = err (web_to_io_err e)
