-- ===== src/Device/Task/Events/Teardown.antt =====
-- CLOSE, and requests that come while a connection is open.
use upc.Common.{
  ℕ, ◌≡◌, refl, sym, ap, ◌∙◌, List, [], ◌∷◌, ◌++◌, true, false, Option, ErrorKind, Result, arith,
}
use upc.Caps.Host.{HostCapabilities}
use upc.Caps.Host
use upc.Protocol.CtrlReq
use upc.Device.Task.{
  Platform, Task, Effect, Outcome, next, ended, failed, panicked, ◌>>=◌, ep_tx, ep_rx, cancel,
  control, clear_halt, discard_fifo, note, attempt, clear_endpoints, recv_all,
}
use upc.Device.Task.Requests.{is_open, on_open, on_close, on_echo, host_to_device}
use upc.Device.Task.Events.{Input, step}
use mathlib.Core.List.{append_assoc, append-nil}

-- The operations of a teardown, in order.
abbrev pub teardown : List Effect
teardown =
    cancel ep_tx
    ∷ cancel ep_rx
    ∷ control ep_tx
    ∷ clear_halt ep_tx
    ∷ control ep_rx
    ∷ clear_halt ep_rx
    ∷ control ep_tx
    ∷ discard_fifo ep_tx
    ∷ control ep_rx
    ∷ discard_fifo ep_rx
    ∷ []

notes : List Effect → Task → Task
notes [] t = t
notes (e ∷ es) t = notes es (note e t)

notes_lem : (es : List Effect) (t : Task) → notes es t ≡ record t { log = t.log ++ es }
unfolding notes note
notes_lem [] t = ap (λ l. record t { log = l }) (sym (append-nil t.log))
notes_lem (e ∷ es) t =
    notes_lem es (note e t) ∙ ap (λ l. record t { log = l }) (append_assoc t.log (e ∷ []) es)

bind_next :
    (o : Outcome) (f : Task → Outcome) {u : Task}
    → (o >>= f) ≡ next u
    → (t : Task) × (o ≡ next t) × (f t ≡ next u)
bind_next (next t) f h = (t, refl, h)
bind_next (ended t) f h = cc
bind_next (failed e t) f h = cc
bind_next (panicked t) f h = cc

next-injective : {t u : Task} → next t ≡ next u → t ≡ u
next-injective h = cc

module _ (fails : List Effect → Effect → Option ErrorKind) (platform : Platform) (now : ℕ) where
  attempt_next : (e : Effect) (t u : Task) → attempt fails e t ≡ next u → u ≡ note e t
  unfolding attempt note
  attempt_next e t u h = ground arith

  clear_endpoints_next :
      (t u : Task) → clear_endpoints fails t ≡ next u → u ≡ record t { log = t.log ++ teardown }
  clear_endpoints_next t u h =
      let taken : u ≡ notes teardown t = unfold clear_endpoints attempt notes in (ground arith) in
      taken ∙ notes_lem teardown t

  -- CLOSE in any state, if the step succeeds, closes both directions, stops their tasks, restores
  -- the default capabilities of the host, takes the endpoints through the whole teardown in order,
  -- and leaves the rest as it was.
  pub close_resets :
      (payload : Result (List ℕ)) (t u : Task)
      → step fails platform now (Input.setup_host_to_device CtrlReq.close payload) t ≡ next u
      → u ≡ record t {
        send_open = false;
        recv_open = false;
        in_running = false;
        out_running = false;
        host_caps = Host.default_caps;
        log = t.log ++ (teardown ++ (recv_all ∷ []));
      }
  unfolding step host_to_device on_close
  close_resets payload t u h =
      let t' : Task = record t { in_running = false; out_running = false } in
      let (v, cleared, e) = bind_next (clear_endpoints fails t') _ h in
      sym (next-injective e)
      ∙ ap
          (λ w. record (note recv_all w) {
            send_open = false;
            recv_open = false;
            host_caps = Host.default_caps;
          })
          (clear_endpoints_next t' v cleared)
      ∙ unfold note in (rw (append_assoc t.log teardown (recv_all ∷ [])) refl)

  -- While a direction is open, OPEN and ECHO change nothing in the main task, and their payload is
  -- not read.
  pub open_connection_undisturbed :
      (payload : Result (List ℕ)) (t : Task)
      → is_open t ≡ true
      → (step fails platform now (Input.setup_host_to_device CtrlReq.open_connection payload) t
          ≡ next t)
        × (step fails platform now (Input.setup_host_to_device CtrlReq.echo payload) t ≡ next t)
  unfolding step host_to_device on_open on_echo
  open_connection_undisturbed payload t h = (rw h refl, rw h refl)
