-- ===== src/Host/HalfClose/Laws.antt =====
-- Which control requests the half-close handle sends.
use upc.Common.{
  ℕ, suc, ◌+◌, ◌≤◌, ◌≡◌, refl, ap, ◌∙◌, List, [], ◌∷◌, ◌++◌, Bool, true, ◌&&◌, ◌==◌, if◌then◌else◌,
  arith,
}
use upc.Common.Words.{to_le_bytes}
use upc.Protocol.CtrlReq
use upc.Host.HalfClose.{
  HalfCloseHandle, new, close_send, close_recv, Call, sending, receiving, calls,
}

-- How many requests with this code were sent.
abbrev pub count : ℕ → List (ℕ × List ℕ) → ℕ
count code [] = 0
count code ((request, payload) ∷ rs) =
    if request == code then suc (count code rs) else count code rs

pub count-append :
    (code : ℕ) (rs ss : List (ℕ × List ℕ)) → count code (rs ++ ss) ≡ count code rs + count code ss
count-append code [] ss = omega arith
count-append code ((request, payload) ∷ rs) ss = ground (arith, count-append code rs ss)

-- Each direction is announced once at most, and CLOSE is sent once, when both are closed.
pub record IsOnce (h : HalfCloseHandle) : Type 0 where
  pub one_close : count CtrlReq.close h.requests ≡ (if h.send_closed && h.recv_closed then 1 else 0)
  pub one_send : count CtrlReq.close_send h.requests ≤ (if h.send_closed then 1 else 0)
  pub one_recv : count CtrlReq.close_recv h.requests ≤ (if h.recv_closed then 1 else 0)

close_send-IsOnce :
    (notify : Bool) (total : ℕ) (h : HalfCloseHandle)
    → IsOnce h
    → IsOnce (close_send notify total h)
unfolding close_send
close_send-IsOnce notify total h v = grind (arith, count-append)

close_recv-IsOnce : (notify : Bool) (h : HalfCloseHandle) → IsOnce h → IsOnce (close_recv notify h)
unfolding close_recv
close_recv-IsOnce notify h v = grind (arith, count-append)

calls-IsOnce : (cs : List Call) (h : HalfCloseHandle) → IsOnce h → IsOnce (calls cs h)
unfolding calls
calls-IsOnce [] h v = v
calls-IsOnce (sending notify total ∷ cs) h v =
    calls-IsOnce cs _ (close_send-IsOnce notify total h v)
calls-IsOnce (receiving notify ∷ cs) h v = calls-IsOnce cs _ (close_recv-IsOnce notify h v)

-- Over any calls of the host's tasks, CLOSE_SEND and CLOSE_RECV are sent once at most, and CLOSE
-- exactly once if both directions come to be closed, and not otherwise.
pub calls-new-IsOnce : (cs : List Call) → IsOnce (calls cs new)
unfolding new
calls-new-IsOnce cs = calls-IsOnce cs _ (ground arith)

both_closed_silent :
    (cs : List Call) (h : HalfCloseHandle)
    → h.send_closed ≡ true
    → h.recv_closed ≡ true
    → calls cs h ≡ h
unfolding calls close_send close_recv
both_closed_silent [] h s r = refl
both_closed_silent (sending notify total ∷ cs) h s r =
    ap (calls cs) (ground arith) ∙ both_closed_silent cs h s r
both_closed_silent (receiving notify ∷ cs) h s r =
    ap (calls cs) (ground arith) ∙ both_closed_silent cs h s r

-- The host's own close of both directions, in either order and whatever calls follow, sends just
-- the two notices in that order, CLOSE_SEND with the byte count, and then CLOSE.
pub host_closes :
    (total : ℕ) (later : List Call)
    → ((calls (sending true total ∷ receiving true ∷ later) new).requests
        ≡ (CtrlReq.close_send, to_le_bytes 8 total)
          ∷ (CtrlReq.close_recv, [])
          ∷ (CtrlReq.close, [])
          ∷ [])
      × ((calls (receiving true ∷ sending true total ∷ later) new).requests
          ≡ (CtrlReq.close_recv, [])
            ∷ (CtrlReq.close_send, to_le_bytes 8 total)
            ∷ (CtrlReq.close, [])
            ∷ [])
host_closes total later = (
  unfold calls close_send close_recv new in
      (ap (λ h. h.requests) (both_closed_silent later _ refl refl)),
  unfold calls close_send close_recv new in
      (ap (λ h. h.requests) (both_closed_silent later _ refl refl)),
)
