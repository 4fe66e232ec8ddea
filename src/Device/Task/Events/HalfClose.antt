-- ===== src/Device/Task/Events/HalfClose.antt =====
-- The closing of one direction.
use upc.Common.{
  ℕ, ◌^◌, ◌<◌, ◌≡◌, refl, List, [], ◌∷◌, ◌++◌, Bool, true, false, Option, some, ErrorKind, Result,
  ok, err, diverged, arith,
}
use upc.Common.Words.{to_le_bytes, from_le_bytes-to_le_bytes_u64}
use upc.Protocol.CtrlReq
use upc.Device.Task.{Platform, Task, Effect, next, ep_rx, cancel, control, halt, note, recv_all}
use upc.Device.Task.Requests.{announce_close, on_close_recv, host_to_device}
use upc.Device.Task.Events.{Input, on_in_done, on_out_done, step}
use upc.Device.Task.Events.Invariant.{Inv}
use mathlib.Core.List.{append_assoc}

-- The send direction ends when the host is done receiving, or when the device's sender is dropped.
pub data ClosesSend : Input → Type 0 where
  by_host :
      (payload : Result (List ℕ))
      → ClosesSend (Input.setup_host_to_device CtrlReq.close_recv payload)
  by_device : (r : Result (Unit {0})) → ClosesSend (Input.out_done r)

-- What the end of `in_task` does to the endpoints.
unfoldable pub in_done_effects : Result Bool → List Effect
in_done_effects (ok false) = cancel ep_rx ∷ control ep_rx ∷ halt ep_rx ∷ []
in_done_effects r = cancel ep_rx ∷ []

module _ (fails : List Effect → Effect → Option ErrorKind) (platform : Platform) (now : ℕ) where
  -- From a state with the invariant, CLOSE_RECV from the host, or the end of the send task, if the
  -- step succeeds, closes the send direction, and leaves the receive direction, its task and the
  -- byte count announced to it as they were.
  pub send_closes :
      (i : Input) (t u : Task)
      → ClosesSend i
      → Inv t
      → step fails platform now i t ≡ next u
      → (u.send_open ≡ false)
        × (u.out_running ≡ false)
        × (u.recv_open ≡ t.recv_open)
        × (u.in_running ≡ t.in_running)
        × (u.in_close ≡ t.in_close)
  unfolding step host_to_device on_close_recv on_out_done
  send_closes i t u (ClosesSend.by_host payload) v h = ground arith
  send_closes i t u (ClosesSend.by_device r) v h = ground arith

  -- The end of the receive task, if the step succeeds, closes the receive direction, leaves the
  -- send direction as it was, and halts the OUT endpoint just where the device dropped its
  -- receiver.
  pub recv_closes :
      (r : Result Bool) (t u : Task)
      → step fails platform now (Input.in_done r) t ≡ next u
      → (u.recv_open ≡ false)
        × (u.in_running ≡ false)
        × (u.send_open ≡ t.send_open)
        × (u.out_running ≡ t.out_running)
        × (u.log ≡ t.log ++ in_done_effects r)
  unfolding step on_in_done in_done_effects
  recv_closes (ok true) t u h = ground arith
  recv_closes (ok false) t u h = ground (
    arith,
    append_assoc t.log (cancel ep_rx ∷ []) (control ep_rx ∷ []),
    append_assoc t.log (cancel ep_rx ∷ control ep_rx ∷ []) (halt ep_rx ∷ []),
  )
  recv_closes (err e) t u h = ground arith
  recv_closes diverged t u h = ground arith

  -- The byte count that the host sends with CLOSE_SEND, below 2^64, reaches the running receive
  -- task as it was, and nothing else changes.
  pub close_send_announces :
      (n : ℕ) (t : Task)
      → n < 2 ^ 64
      → t.in_running ≡ true
      → step fails platform now
          (Input.setup_host_to_device CtrlReq.close_send (ok (to_le_bytes 8 n)))
          t
        ≡ next (record (note recv_all t) { in_close = some n })
  unfolding step host_to_device announce_close note
  close_send_announces n t fits runs = rw (runs, from_le_bytes-to_le_bytes_u64 n fits) refl
