-- ===== src/Web/HalfClose/Laws.antt =====
-- The browser's half-close handle and the native one.
use upc.Common.{ℕ, ◌≡◌, refl, sym, ap, ◌∙◌, List, [], ◌∷◌, Bool, ◌&&◌, if◌then◌else◌, arith}
use upc.Protocol.CtrlReq
use upc.Host.HalfClose as Native
use mathlib.Core.Path.{subst}
use upc.Host.HalfClose.{Call, sending, receiving}
use upc.Host.HalfClose.Laws.{count, count-append, IsOnce, calls-new-IsOnce}
use upc.Web.HalfClose.{HalfCloseHandle, new, close_send, close_recv, calls}

-- The part of the handle that the native one has too.
unfoldable pub erase : HalfCloseHandle → Native.HalfCloseHandle
erase h = record { send_closed = h.send_closed; recv_closed = h.recv_closed; requests = h.requests }

-- One release for each CLOSE.
abbrev pub IsReleased : HalfCloseHandle → Type 0
IsReleased h = h.releases ≡ count CtrlReq.close h.requests

pub close_send-same :
    (notify : Bool) (total : ℕ) (h : HalfCloseHandle)
    → erase (close_send notify total h) ≡ Native.close_send notify total (erase h)
unfolding erase close_send Native.close_send
close_send-same notify total h = ground arith

close_recv-same :
    (notify : Bool) (h : HalfCloseHandle)
    → erase (close_recv notify h) ≡ Native.close_recv notify (erase h)
unfolding erase close_recv Native.close_recv
close_recv-same notify h = ground arith

close_send-IsReleased :
    (notify : Bool) (total : ℕ) (h : HalfCloseHandle)
    → IsReleased h
    → IsReleased (close_send notify total h)
unfolding close_send
close_send-IsReleased notify total h e = grind (arith, count-append)

close_recv-IsReleased :
    (notify : Bool) (h : HalfCloseHandle) → IsReleased h → IsReleased (close_recv notify h)
unfolding close_recv
close_recv-IsReleased notify h e = grind (arith, count-append)

calls-same :
    (cs : List Call) (h : HalfCloseHandle)
    → IsReleased h
    → (erase (calls cs h) ≡ Native.calls cs (erase h)) × IsReleased (calls cs h)
unfolding calls Native.calls
calls-same [] h e = (refl, e)
calls-same (sending notify total ∷ cs) h e =
    let (same, released) =
      calls-same cs (close_send notify total h) (close_send-IsReleased notify total h e) in
    (same ∙ ap (Native.calls cs) (close_send-same notify total h), released)
calls-same (receiving notify ∷ cs) h e =
    let (same, released) = calls-same cs (close_recv notify h) (close_recv-IsReleased notify h e) in
    (same ∙ ap (Native.calls cs) (close_recv-same notify h), released)

pub erase-new : erase new ≡ Native.new
unfolding erase new Native.new
erase-new = refl

-- Over any calls of the two tasks, the browser's handle holds the state and sends the control
-- requests of the native one, and releases the interface once if both directions come to be closed,
-- and not otherwise.
pub web_calls-same :
    (cs : List Call)
    → (erase (calls cs new) ≡ Native.calls cs Native.new)
      × ((calls cs new).releases
          ≡ (if (calls cs new).send_closed && (calls cs new).recv_closed then 1 else 0))
web_calls-same cs =
    let (same, released) = calls-same cs new (unfold new in refl) in
    let same = same ∙ ap (Native.calls cs) erase-new in
    let once : IsOnce (erase (calls cs new)) = subst IsOnce (sym same) (calls-new-IsOnce cs) in
    (same, released ∙ unfold erase in once.one_close)
