-- ===== src/Web/Connect.antt =====
-- src/host/web.rs: `connect_with`, up to the two ends; its tasks run behind the queue `waits`.
pub mod Laws
pub mod Guard
use upc.Common.{
  ℕ, zero, suc, ◌*◌, ◌-◌, List, [], ◌∷◌, ◌++◌, Bool, true, false, ◌==◌, leb, if◌then◌else◌, Option,
  none, some, min, ErrorKind, not_found, resource_busy, Result, ok, err, diverged,
}
use upc.Common.Lists.{length}
use upc.Protocol.{info_size, transfer_packets}
use upc.Protocol.CtrlReq
use upc.Caps.Device.{DeviceCapabilities}
use upc.Caps.Device
use upc.Caps.Host
use upc.Host.Options.{UpcOptions}
use upc.Host.Interfaces.{InterfaceDesc, InUse, acquire, contains}
use upc.Host.Connect.{
  Request, output, input, Outcome, next, failed, panicked, waiting, Run, ◌>>=◌, ◌>>◌, Endpoints,
  add_endpoints, find_number, both_endpoints, Connection, build, topic_too_big, of_result,
  caps_size,
}
use upc.Web.Errors.{WebErrorKind, web_to_io_err}
use upc.Web.Interfaces.{ControlIn, got, lost}
use upc.Web.Barrier.{Wait, barrier, drain}

-- What the browser and the device answer; the fields are the errors, if any. `in_use` are the sets
-- IN_USE that the attempts to take the guard find; `waits` is what comes through the channel of
-- `in_task`, `markers i` and `echo i` the random bytes of the i-th ECHO request and its error.
pub record Answers : Type 0 where
  pub in_use : List InUse
  pub configuration : Option (List InterfaceDesc)
  pub claim : Option WebErrorKind
  pub clear_in : Option WebErrorKind
  pub clear_out : Option WebErrorKind
  pub close : Option WebErrorKind
  pub caps : ControlIn
  pub host_caps : Option WebErrorKind
  pub markers : ℕ → List ℕ
  pub echo : ℕ → Option WebErrorKind
  pub waits : List Wait
  pub open_connection : Option WebErrorKind

abbrev pub web : Option WebErrorKind → Run (Unit {0})
web none = ([], next tt)
web (some e) = ([], failed (web_to_io_err e))

abbrev pub control_out : Option WebErrorKind → ℕ → List ℕ → Run (Unit {0})
control_out none code payload = (output code payload ∷ [], next tt)
control_out (some e) code payload = (output code payload ∷ [], failed (web_to_io_err e))

-- A request whose failure the code drops.
abbrev pub notify_out : Option WebErrorKind → ℕ → List ℕ → Run (Unit {0})
notify_out error code payload = (output code payload ∷ [], next tt)

-- An attempt to take the guard, and what is done where it is taken already.
abbrev pub on_guard : Result (ℕ × ℕ) × InUse → Run InUse → Run InUse
on_guard (ok key, set) busy = ([], next set)
on_guard (err ErrorKind.resource_busy, set) busy = busy
on_guard (err e, set) busy = ([], failed e)
on_guard (diverged, set) busy = ([], waiting)

-- The attempts, with the retries that are left.
unfoldable pub take_guard : ℕ → ℕ × ℕ → List InUse → Run InUse
unfolding acquire
take_guard remaining key [] = ([], waiting)
take_guard zero key (set ∷ sets) = on_guard (acquire key set) ([], failed resource_busy)
take_guard (suc remaining) key (set ∷ sets) =
    on_guard (acquire key set) (take_guard remaining key sets)

unfoldable pub interface_endpoints : ℕ → Option InterfaceDesc → Run (ℕ × (ℕ × ℕ))
unfolding add_endpoints both_endpoints
interface_endpoints usize_max none = ([], failed not_found)
interface_endpoints usize_max (some i) =
    let s = add_endpoints (record { ep_in = none; ep_out = none; mps = usize_max }) i.endpoints in
    both_endpoints s.ep_in s.ep_out s.mps

unfoldable pub get_endpoints : ℕ → Option (List InterfaceDesc) → ℕ → Run (ℕ × (ℕ × ℕ))
unfolding find_number interface_endpoints
get_endpoints usize_max none interface = ([], failed not_found)
get_endpoints usize_max (some is) interface =
    interface_endpoints usize_max (find_number interface is)

-- A failed query means a device without capabilities; data that does not decode is an error.
unfoldable pub query_caps : ControlIn → Run DeviceCapabilities
unfolding Device.decode Device.default_caps
query_caps (got bytes) = of_result (Device.decode bytes)
query_caps (lost e) = (input CtrlReq.capabilities caps_size ∷ [], next Device.default_caps)

abbrev pub echo_retries : ℕ
echo_retries = 50

-- What an earlier connection left is dropped, by the barrier if the device has ECHO.
unfoldable pub flush_stale : Answers → DeviceCapabilities → Run (List Wait)
unfolding barrier drain
flush_stale a caps =
    if caps.echo_supported then barrier a.markers a.echo echo_retries 0 a.waits else drain a.waits

-- From the capabilities of the host to the open connection, with what the channel brings behind it.
-- The ends are as they are made: what the tasks do with them is the start of another run.
unfoldable pub open_channel :
    ℕ → Answers → UpcOptions → ℕ → DeviceCapabilities → Run (Connection × List Wait)
unfolding build flush_stale Host.encode
open_channel usize_max a options mps caps = do
  notify_out (a.host_caps) CtrlReq.capabilities
      (Host.encode (record { max_size = options.max_size }))
  waits ← flush_stale a caps
  control_out (a.open_connection) CtrlReq.open_connection (options.topic)
  ([], next (build usize_max options caps mps, waits))

abbrev pub guard_retries : ℕ
guard_retries = 100

-- The release before the claim may fail, and its result is dropped.
unfoldable pub connect_with : ℕ → Answers → ℕ × ℕ → UpcOptions → Run (Connection × List Wait)
unfolding take_guard get_endpoints query_caps open_channel
connect_with usize_max a (handle, interface) options = do
  topic_too_big options
  in_use ← take_guard guard_retries (handle, interface) (a.in_use)
  (ep_in, (ep_out, mps)) ← get_endpoints usize_max (a.configuration) interface
  web (a.claim)
  web (a.clear_in)
  web (a.clear_out)
  control_out (a.close) CtrlReq.close []
  caps ← query_caps (a.caps)
  open_channel usize_max a options mps caps
