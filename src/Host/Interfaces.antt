-- ===== src/Host/Interfaces.antt =====
-- src/host/native.rs: `find_interface`, `find_interface_opened`, `info` and `probe`, and the guard of
-- src/host/guard.rs against a second channel on one interface.
pub mod Laws
use upc.Common.{
  ℕ, List, [], ◌∷◌, Bool, true, false, not, ◌&&◌, ◌==◌, if◌then◌else◌, Option, none, some,
  ErrorKind, not_found, resource_busy, network_down, Result, ok, err,
}
use upc.Protocol.{Class}
use upc.Protocol.CtrlReq
use upc.Host.Errors.{TransferError, UsbErrorKind, nusb_to_io_err, transfer_to_io_err}

pub data EndpointKind : Type 0 where
  bulk_in bulk_out other_kind : EndpointKind

pub record EndpointDesc : Type 0 where
  pub kind : EndpointKind
  pub max_packet_size : ℕ
  pub address : ℕ

-- An interface of the device, by its first alternate setting.
pub record InterfaceDesc : Type 0 where
  pub number : ℕ
  pub class : Class
  pub endpoints : List EndpointDesc

unfoldable pub has_class : Class → InterfaceDesc → Bool
has_class c i =
    i.class.class == c.class && (i.class.sub_class == c.sub_class && i.class.protocol == c.protocol)

unfoldable pub find_interface : List InterfaceDesc → Class → Result ℕ
unfolding has_class
find_interface [] c = err not_found
find_interface (i ∷ is) c = if has_class c i then ok (i.number) else find_interface is c

-- `active_configuration()?` fails for a device that is not configured; the `kind` of that error is
-- the one that nusb gives it.
unfoldable pub find_interface_opened : ErrorKind → Option (List InterfaceDesc) → Class → Result ℕ
unfolding has_class
find_interface_opened kind none c = err kind
find_interface_opened kind (some []) c = err not_found
find_interface_opened kind (some (i ∷ is)) c =
    if has_class c i then ok (i.number) else find_interface_opened kind (some is) c

-- The answer to a control request with data from the device.
pub data ControlIn : Type 0 where
  got : List ℕ → ControlIn
  lost : TransferError → ControlIn

-- `claim` is the error of claiming the interface, if any.
unfoldable pub info : Option UsbErrorKind → ControlIn → Result (List ℕ)
unfolding nusb_to_io_err transfer_to_io_err
info (some e) answer = err (nusb_to_io_err e)
info none (got bytes) = ok bytes
info none (lost e) = err (transfer_to_io_err e)

unfoldable pub same_bytes : List ℕ → List ℕ → Bool
same_bytes [] [] = true
same_bytes [] (b ∷ bs) = false
same_bytes (c ∷ cs) [] = false
same_bytes (c ∷ cs) (b ∷ bs) = c == b && same_bytes cs bs

unfoldable pub probe : Option UsbErrorKind → ControlIn → Result Bool
unfolding nusb_to_io_err transfer_to_io_err same_bytes
probe (some e) answer = err (nusb_to_io_err e)
probe none (got bytes) = ok (same_bytes bytes CtrlReq.probe_response)
probe none (lost TransferError.stall) = ok false
probe none (lost e) = err (transfer_to_io_err e)

-- The set IN_USE, of device handles and interfaces.
abbrev pub InUse : Type 0
InUse = List (ℕ × ℕ)

unfoldable pub contains : ℕ × ℕ → InUse → Bool
contains key [] = false
contains (handle, interface) ((h, i) ∷ set) =
    if h == handle && i == interface then true else contains (handle, interface) set

unfoldable pub remove : ℕ × ℕ → InUse → InUse
remove key [] = []
remove (handle, interface) ((h, i) ∷ set) =
    let rest = remove (handle, interface) set in
    if h == handle && i == interface then rest else (h, i) ∷ rest

-- `InUseGuard::new`, and the drop of the guard.
unfoldable pub acquire : ℕ × ℕ → InUse → Result (ℕ × ℕ) × InUse
unfolding contains
acquire key set = if contains key set then (err resource_busy, set) else (ok key, key ∷ set)

unfoldable pub release : ℕ × ℕ → InUse → InUse
unfolding remove
release key set = remove key set
