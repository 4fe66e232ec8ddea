-- ===== src/Host/Connect.antt =====
-- src/host/native.rs: `connect_with`, up to the start of the tasks.
pub mod Laws
pub mod Limits
use upc.Common.{
  ℕ, ◌*◌, ◌-◌, List, [], ◌∷◌, ◌++◌, Bool, true, false, ◌==◌, ltb, leb, if◌then◌else◌, Option, none,
  some, min, ErrorKind, not_found, network_down, Result, ok, err, diverged,
}
use upc.Common.Lists.{length}
use upc.Protocol.{info_size, transfer_packets}
use upc.Protocol.CtrlReq
use upc.Caps.Device.{DeviceCapabilities}
use upc.Caps.Device
use upc.Caps.Host
use upc.Device.Task.{to_usize}
use upc.Host.Errors.{TransferError, UsbErrorKind, nusb_to_io_err, transfer_to_io_err}
use upc.Host.Options.{UpcOptions, status_interval}
use upc.Host.Sender.{UpcSender}
use upc.Host.Receiver.{UpcReceiver}
use upc.Host.Interfaces.{
  InterfaceDesc, EndpointDesc, EndpointKind, bulk_in, bulk_out, other_kind, ControlIn, got, lost,
}

-- The answer to one read of the flush loop: a transfer, an error, or none within FLUSH_TIMEOUT.
pub data Flush : Type 0 where
  stale failure timed_out : Flush

-- What the hardware answers: `claims` are the attempts to claim the interface, each with the clock
-- after it, in nanoseconds from the first; the other fields are the errors, if any.
pub record Answers : Type 0 where
  pub configuration : Option (List InterfaceDesc)
  pub claims : List (ℕ × Option UsbErrorKind)
  pub open_in : Option UsbErrorKind
  pub open_out : Option UsbErrorKind
  pub clear_in : Option UsbErrorKind
  pub clear_out : Option UsbErrorKind
  pub close : Option TransferError
  pub flushes : List Flush
  pub caps : ControlIn
  pub host_caps : Option TransferError
  pub open_connection : Option TransferError

-- A control request to the device, with its data, or from it, with the length asked for.
pub data Request : Type 0 where
  output : ℕ → List ℕ → Request
  input : ℕ → ℕ → Request

-- `waiting`: the answers end before a loop does; `panicked`: an assertion fails.
pub data Outcome {ℓ} (A : Type ℓ) : Type ℓ where
  next : A → Outcome A
  failed : ErrorKind → Outcome A
  panicked : Outcome A
  waiting : Outcome A

-- The control requests sent, and the outcome.
abbrev pub Run {ℓ} : Type ℓ → Type ℓ
Run A = List Request × Outcome A

infixl 5 ◌>>=◌ ◌>>◌
abbrev pub ◌>>=◌ {ℓ κ} : {A : Type ℓ} {B : Type κ} → Run A → (A → Run B) → Run B
(sent, next a) >>= f = (sent ++ (f a).0, (f a).1)
(sent, failed e) >>= f = (sent, failed e)
(sent, panicked) >>= f = (sent, panicked)
(sent, waiting) >>= f = (sent, waiting)

abbrev pub ◌>>◌ {ℓ} : {B : Type ℓ} → Run (Unit {0}) → Run B → Run B
m >> k = m >>= λ _. k

abbrev pub usb : Option UsbErrorKind → Run (Unit {0})
usb none = ([], next tt)
usb (some e) = ([], failed (nusb_to_io_err e))

abbrev pub control_out : Option TransferError → ℕ → List ℕ → Run (Unit {0})
control_out none code payload = (output code payload ∷ [], next tt)
control_out (some e) code payload = (output code payload ∷ [], failed (transfer_to_io_err e))

-- The bulk endpoints and the smaller of their packet sizes.
pub record Endpoints : Type 0 where
  pub ep_in : Option ℕ
  pub ep_out : Option ℕ
  pub mps : ℕ

unfoldable pub add_endpoint : Endpoints → EndpointDesc → Endpoints
add_endpoint s e = elim (e.kind) [
  | bulk_in ↦ record s { mps = min s.mps e.max_packet_size; ep_in = some (e.address) }
  | bulk_out ↦ record s { mps = min s.mps e.max_packet_size; ep_out = some (e.address) }
  | other_kind ↦ s
]

unfoldable pub add_endpoints : Endpoints → List EndpointDesc → Endpoints
unfolding add_endpoint
add_endpoints s [] = s
add_endpoints s (e ∷ es) = add_endpoints (add_endpoint s e) es

unfoldable pub find_number : ℕ → List InterfaceDesc → Option InterfaceDesc
find_number interface [] = none
find_number interface (i ∷ is) = if i.number == interface then some i else find_number interface is

unfoldable pub both_endpoints : Option ℕ → Option ℕ → ℕ → Run (ℕ × (ℕ × ℕ))
both_endpoints (some ep_in) (some ep_out) mps = ([], next (ep_in, (ep_out, mps)))
both_endpoints (some ep_in) none mps = ([], failed not_found)
both_endpoints none ep_out mps = ([], failed not_found)

unfoldable pub interface_endpoints : ℕ → Option InterfaceDesc → Run (ℕ × (ℕ × ℕ))
unfolding add_endpoints both_endpoints
interface_endpoints usize_max none = ([], failed not_found)
interface_endpoints usize_max (some i) =
    let s = add_endpoints (record { ep_in = none; ep_out = none; mps = usize_max }) i.endpoints in
    both_endpoints s.ep_in s.ep_out s.mps

unfoldable pub get_endpoints : ℕ → Option (List InterfaceDesc) → ℕ → Run (ℕ × (ℕ × ℕ))
unfolding find_number interface_endpoints
get_endpoints usize_max none interface = ([], failed network_down)
get_endpoints usize_max (some is) interface =
    interface_endpoints usize_max (find_number interface is)

-- CLAIM_TIMEOUT, five seconds.
abbrev pub claim_timeout : ℕ
claim_timeout = 5_000_000_000

-- The claiming loop: a busy interface is tried again until the deadline.
unfoldable pub claim : List (ℕ × Option UsbErrorKind) → Run (Unit {0})
unfolding nusb_to_io_err
claim [] = ([], waiting)
claim ((now, none) ∷ attempts) = ([], next tt)
claim ((now, some UsbErrorKind.busy) ∷ attempts) =
    let rest = claim attempts in
    if leb claim_timeout now then ([], failed (nusb_to_io_err UsbErrorKind.busy)) else rest
claim ((now, some e) ∷ attempts) = ([], failed (nusb_to_io_err e))

unfoldable pub flush : List Flush → Run (Unit {0})
flush [] = ([], waiting)
flush (stale ∷ fs) = flush fs
flush (failure ∷ fs) = ([], next tt)
flush (timed_out ∷ fs) = ([], next tt)

-- DeviceCapabilities::SIZE
abbrev pub caps_size : ℕ
caps_size = 256

abbrev pub of_result : Result DeviceCapabilities → Run DeviceCapabilities
of_result (ok caps) = (input CtrlReq.capabilities caps_size ∷ [], next caps)
of_result (err e) = (input CtrlReq.capabilities caps_size ∷ [], failed e)
of_result diverged = ([], waiting)

-- A failed query means a device without capabilities; data that does not decode is an error.
unfoldable pub query_caps : ControlIn → Run DeviceCapabilities
unfolding Device.decode Device.default_caps
query_caps (got bytes) = of_result (Device.decode bytes)
query_caps (lost e) = (input CtrlReq.capabilities caps_size ∷ [], next Device.default_caps)

-- What the tasks and the two ends start from.
pub record Connection : Type 0 where
  pub sender : UpcSender
  pub receiver : UpcReceiver
  pub status_interval : Option ℕ
  pub mps : ℕ

unfoldable pub build : ℕ → UpcOptions → DeviceCapabilities → ℕ → Connection
unfolding status_interval to_usize
build usize_max options caps mps = record {
  sender = record {
    tx = [];
    tx_closed = false;
    error = none;
    max_size = to_usize usize_max caps.max_size;
  };
  receiver = record {
    rx = [];
    rx_closed = false;
    error = none;
    buffer = [];
    max_size = options.max_size;
    max_transfer_size = mps * transfer_packets;
  };
  status_interval = status_interval options caps;
  mps = mps;
}

-- A request whose failure the code drops.
abbrev pub notify_out : Option TransferError → ℕ → List ℕ → Run (Unit {0})
notify_out error code payload = (output code payload ∷ [], next tt)

abbrev pub topic_too_big : UpcOptions → Run (Unit {0})
topic_too_big options =
    if leb (length options.topic) info_size then ([], next tt) else ([], panicked)

-- From the capabilities of the host to the open connection.
unfoldable pub open_channel : ℕ → Answers → UpcOptions → ℕ → DeviceCapabilities → Run Connection
unfolding build Host.encode
open_channel usize_max a options mps caps = do
  notify_out (a.host_caps) CtrlReq.capabilities
      (Host.encode (record { max_size = options.max_size }))
  control_out (a.open_connection) CtrlReq.open_connection (options.topic)
  ([], next (build usize_max options caps mps))

unfoldable pub connect_with : ℕ → Answers → ℕ → UpcOptions → Run Connection
unfolding get_endpoints claim flush query_caps open_channel
connect_with usize_max a interface options = do
  topic_too_big options
  (ep_in, (ep_out, mps)) ← get_endpoints usize_max (a.configuration) interface
  claim (a.claims)
  usb (a.open_in)
  usb (a.open_out)
  usb (a.clear_in)
  usb (a.clear_out)
  control_out (a.close) CtrlReq.close []
  flush (a.flushes)
  caps ← query_caps (a.caps)
  open_channel usize_max a options mps caps
