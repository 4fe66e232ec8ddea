-- ===== src/Web/Barrier.antt =====
-- src/host/web.rs, `connect_with`: draining what is left of an earlier connection.
pub mod Laws
use upc.Common.{
  ℕ, zero, suc, ◌-◌, List, [], ◌∷◌, ◌++◌, Bool, true, false, if◌then◌else◌, Option, none, some,
  timed_out,
}
use upc.Protocol.CtrlReq
use upc.Host.Interfaces.{same_bytes}
use upc.Host.Connect.{Request, output, Outcome, next, failed, waiting, Run}
use upc.Web.Errors.{WebErrorKind, web_to_io_err}

-- What a receive on the channel of `in_task` gives: a packet, the end of the channel, or nothing within
-- FLUSH_TIMEOUT.
pub data Wait : Type 0 where
  arrived : List ℕ → Wait
  channel_closed : Wait
  expired : Wait

-- The inner loop: until the marker, the end of the channel or a timeout, with the waits that are left.
pub data Awaited : Type 0 where
  passed : List Wait → Awaited
  retry : List Wait → Awaited
  starved : Awaited

unfoldable pub await_marker : List ℕ → List Wait → Awaited
unfolding same_bytes
await_marker marker [] = starved
await_marker marker (arrived bytes ∷ ws) =
    if same_bytes bytes marker then passed ws else await_marker marker ws
await_marker marker (channel_closed ∷ ws) = passed ws
await_marker marker (expired ∷ ws) = retry ws

-- A round behind its ECHO request.
abbrev pub on_await : Awaited → (List Wait → Run (List Wait)) → Run (List Wait)
on_await (passed ws) again = ([], next ws)
on_await (retry ws) again = again ws
on_await starved again = ([], waiting)

abbrev pub on_echo : Request → Option WebErrorKind → Run (List Wait) → Run (List Wait)
on_echo request (some e) answered = (request ∷ [], failed (web_to_io_err e))
on_echo request none answered = (request ∷ answered.0, answered.1)

-- `markers i` are the random bytes of the i-th round, of which there are `mps - 1`; `refuses i` is the
-- error of its ECHO request, if any.
module _ (markers : ℕ → List ℕ) (refuses : ℕ → Option WebErrorKind) where
  -- The outer loop, in its i-th round, with the retries that are left.
  unfoldable pub barrier : ℕ → ℕ → List Wait → Run (List Wait)
  unfolding await_marker web_to_io_err
  barrier zero i ws = ([], failed timed_out)
  barrier (suc retries) i ws =
      on_echo (output CtrlReq.echo (markers i)) (refuses i)
        (on_await (await_marker (markers i) ws) (λ rest. barrier retries (suc i) rest))

-- Without ECHO: packets are dropped until a timeout or the end of the channel.
unfoldable pub drain : List Wait → Run (List Wait)
drain [] = ([], waiting)
drain (arrived bytes ∷ ws) = drain ws
drain (channel_closed ∷ ws) = ([], next ws)
drain (expired ∷ ws) = ([], next ws)
