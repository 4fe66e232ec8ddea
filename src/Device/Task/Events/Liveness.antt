-- ===== src/Device/Task/Events/Liveness.antt =====
-- The ping timeout and the STATUS request.
use upc.Common.{
  ℕ, ◌+◌, ◌≡◌, List, [], ◌∷◌, ◌++◌, false, Option, some, ErrorKind, timed_out, arith, true, refl,
  leb, err, if◌then◌else◌,
}
use upc.Protocol.CtrlReq
use upc.Protocol.Status
use upc.Device.Task.{Platform, Cfg, Task, Effect, next, ep_tx, ep_rx, cancel, reply}
use upc.Device.Task.Requests.{is_open, device_to_host, answer_device_to_host}
use upc.Device.Receiver.{end_of_channel}
use upc.Device.Task.Events.{Input, is_enabled, on_timeout, step, Reach}
use upc.Device.Task.Events.Invariant.{Reach-Inv}
use mathlib.Core.List.{append_assoc}

-- In every state that the main task comes to, a STATUS request, if it is answered without a panic,
-- is answered by an empty reply while the receive task runs and by the byte RECV_CLOSED otherwise,
-- and opens or closes no direction.
pub status_reports :
    (fails : List Effect → Effect → Option ErrorKind) (platform : Platform) (now : ℕ) (cfg : Cfg)
    (t u : Task)
    → Reach fails platform cfg t
    → step fails platform now (Input.setup_device_to_host CtrlReq.status) t ≡ next u
    → (u.log ≡ t.log ++ (reply (if t.in_running then [] else Status.recv_closed ∷ []) ∷ []))
      × (u.recv_open ≡ t.recv_open)
      × (u.send_open ≡ t.send_open)
unfolding step answer_device_to_host
status_reports fails platform now cfg t u r h =
    let v = Reach-Inv fails platform cfg r in ground (arith, v.in_synced)

-- When the timeout fires and the hardware takes it, both directions are closed, their tasks are
-- stopped, and sender and receiver find the error TimedOut.
pub timeout_closes :
    (fails : List Effect → Effect → Option ErrorKind) (platform : Platform) (now : ℕ) (t u : Task)
    → step fails platform now Input.timeout t ≡ next u
    → (u.conn_error ≡ some timed_out)
      × (u.send_open ≡ false)
      × (u.recv_open ≡ false)
      × (u.in_running ≡ false)
      × (u.out_running ≡ false)
      × (u.log ≡ t.log ++ (cancel ep_tx ∷ cancel ep_rx ∷ []))
unfolding step on_timeout
timeout_closes fails platform now t u h =
    ground (arith, append_assoc t.log (cancel ep_tx ∷ []) (cancel ep_rx ∷ []))

enabled_from :
    (now later d : ℕ) (t : Task)
    → t.ping_timeout ≡ some d
    → is_open t ≡ true
    → is_enabled later Input.timeout (device_to_host now CtrlReq.status t) ≡ leb (now + d) later
unfolding is_enabled device_to_host is_open
enabled_from now later d t e opened = ground arith

-- After a STATUS request at `now`, with a ping timeout `d` in force and a direction open, the
-- timeout can fire just from `now + d` on; when it does, and the step succeeds, both directions are
-- closed, their tasks stopped and both endpoints cancelled, and a receiver that finds its queue
-- empty answers TimedOut.
pub dead_host_detected :
    (fails : List Effect → Effect → Option ErrorKind) (platform : Platform) (now later d : ℕ)
    (t u : Task)
    → t.ping_timeout ≡ some d
    → is_open t ≡ true
    → step fails platform later Input.timeout (device_to_host now CtrlReq.status t) ≡ next u
    → (is_enabled later Input.timeout (device_to_host now CtrlReq.status t) ≡ leb (now + d) later)
      × (end_of_channel u.conn_error ≡ err timed_out)
      × (is_open u ≡ false)
      × (u.in_running ≡ false)
      × (u.out_running ≡ false)
      × (u.log ≡ (device_to_host now CtrlReq.status t).log ++ (cancel ep_tx ∷ cancel ep_rx ∷ []))
dead_host_detected fails platform now later d t u e opened h =
    let (error, send, receive, in_stopped, out_stopped, logged) =
      timeout_closes fails platform later (device_to_host now CtrlReq.status t) u h in
    (
      enabled_from now later d t e opened,
      rw error (unfold end_of_channel in refl),
      unfold is_open in (rw (send, receive) refl),
      in_stopped,
      out_stopped,
      logged,
    )
