-- ===== src/Web/HalfClose.antt =====
-- src/host/web.rs: `HalfCloseHandle`, which also releases the interface.
pub mod Laws
use upc.Common.{ℕ, ◌+◌, List, [], ◌∷◌, ◌++◌, Bool, true, false, ◌&&◌, if◌then◌else◌}
use upc.Common.Words.{to_le_bytes}
use upc.Protocol.CtrlReq
use upc.Host.HalfClose.{Call, sending, receiving}

-- `requests` are the control requests sent, each with its payload, and `releases` counts the releases
-- of the interface; a failing one is only logged.
pub record HalfCloseHandle : Type 0 where
  pub send_closed : Bool
  pub recv_closed : Bool
  pub requests : List (ℕ × List ℕ)
  pub releases : ℕ

unfoldable pub new : HalfCloseHandle
new = record { send_closed = false; recv_closed = false; requests = []; releases = 0 }

unfoldable pub control_transfer_out : ℕ → List ℕ → HalfCloseHandle → HalfCloseHandle
control_transfer_out request payload h = record h {
  requests = h.requests ++ ((request, payload) ∷ []);
}

unfoldable pub release_interface : HalfCloseHandle → HalfCloseHandle
release_interface h = record h { releases = h.releases + 1 }

unfoldable pub close_if_both : HalfCloseHandle → HalfCloseHandle
unfolding control_transfer_out release_interface
close_if_both h =
    if h.send_closed && h.recv_closed
    then release_interface (control_transfer_out CtrlReq.close [] h)
    else h

unfoldable pub close_send : Bool → ℕ → HalfCloseHandle → HalfCloseHandle
unfolding control_transfer_out close_if_both
close_send notify_device total_bytes_sent h =
    let marked = record h { send_closed = true } in
    if h.send_closed
    then h
    else close_if_both (
        if notify_device
        then control_transfer_out CtrlReq.close_send (to_le_bytes 8 total_bytes_sent) marked
        else marked)

unfoldable pub close_recv : Bool → HalfCloseHandle → HalfCloseHandle
unfolding control_transfer_out close_if_both
close_recv notify_device h =
    let marked = record h { recv_closed = true } in
    if h.recv_closed
    then h
    else close_if_both
        (if notify_device then control_transfer_out CtrlReq.close_recv [] marked else marked)

-- The calls that the tasks make.
unfoldable pub calls : List Call → HalfCloseHandle → HalfCloseHandle
unfolding close_send close_recv
calls [] h = h
calls (sending notify total ∷ cs) h = calls cs (close_send notify total h)
calls (receiving notify ∷ cs) h = calls cs (close_recv notify h)
