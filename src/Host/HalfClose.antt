-- ===== src/Host/HalfClose.antt =====
-- src/host/native.rs: `HalfCloseHandle`, which both tasks of a connection share.
pub mod Laws
use upc.Common.{ℕ, List, [], ◌∷◌, ◌++◌, Bool, true, false, ◌&&◌, if◌then◌else◌}
use upc.Common.Words.{to_le_bytes}
use upc.Protocol.CtrlReq

-- `requests` are the control requests sent, each with its payload; a failing one is only logged.
pub record HalfCloseHandle : Type 0 where
  pub send_closed : Bool
  pub recv_closed : Bool
  pub requests : List (ℕ × List ℕ)

unfoldable pub new : HalfCloseHandle
new = record { send_closed = false; recv_closed = false; requests = [] }

unfoldable pub control_out : ℕ → List ℕ → HalfCloseHandle → HalfCloseHandle
control_out request payload h = record h { requests = h.requests ++ ((request, payload) ∷ []) }

unfoldable pub close_if_both : HalfCloseHandle → HalfCloseHandle
unfolding control_out
close_if_both h = if h.send_closed && h.recv_closed then control_out CtrlReq.close [] h else h

unfoldable pub close_send : Bool → ℕ → HalfCloseHandle → HalfCloseHandle
unfolding control_out close_if_both
close_send notify_device total_bytes_sent h =
    let marked = record h { send_closed = true } in
    if h.send_closed
    then h
    else close_if_both (
        if notify_device
        then control_out CtrlReq.close_send (to_le_bytes 8 total_bytes_sent) marked
        else marked)

unfoldable pub close_recv : Bool → HalfCloseHandle → HalfCloseHandle
unfolding control_out close_if_both
close_recv notify_device h =
    let marked = record h { recv_closed = true } in
    if h.recv_closed
    then h
    else close_if_both (if notify_device then control_out CtrlReq.close_recv [] marked else marked)

-- The calls that the tasks make.
pub data Call : Type 0 where
  sending : Bool → ℕ → Call
  receiving : Bool → Call

unfoldable pub calls : List Call → HalfCloseHandle → HalfCloseHandle
unfolding close_send close_recv
calls [] h = h
calls (sending notify total ∷ cs) h = calls cs (close_send notify total h)
calls (receiving notify ∷ cs) h = calls cs (close_recv notify h)
