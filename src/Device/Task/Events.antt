-- ===== src/Device/Task/Events.antt =====
-- src/device.rs: the `select!` of the main task.
pub mod Invariant
pub mod Teardown
pub mod Panics
pub mod Negotiation
pub mod HalfClose
pub mod Liveness
use upc.Common.{
  ℕ, List, [], ◌∷◌, Bool, true, false, ◌&&◌, Option, none, some, ErrorKind, timed_out, Result, ok,
  err, diverged, leb, if◌then◌else◌, ◌≡◌,
}
use upc.Caps.Host
use upc.Device.Task.{
  Cfg, initial, Platform, Task, Effect, Outcome, next, ended, failed, panicked, ◌>>=◌, ep_tx, ep_rx,
  cancel, control, halt, note, attempt, clear_endpoints,
}
use upc.Device.Task.Requests.{is_open, host_to_device, answer_device_to_host}

-- The branch that is taken. `configure` stands for the setters of `UpcFunction`, which write the
-- configuration that the task reads.
pub data Input : Type 0 where
  unbound dropped disable other_event timeout : Input
  wait_failed : ErrorKind → Input
  enable : Result ℕ → Input
  setup_host_to_device : ℕ → Result (List ℕ) → Input
  setup_device_to_host : ℕ → Input
  in_done : Result Bool → Input
  out_done : Result (Unit {0}) → Input
  configure : Cfg → Input

abbrev pub is_some : Option ℕ → Bool
is_some none = false
is_some (some n) = true

abbrev pub elapsed : Option ℕ → ℕ → Bool
elapsed none now = false
elapsed (some d) now = leb d now

-- A branch is taken only if its future is ready and its guard holds.
unfoldable pub is_enabled : ℕ → Input → Task → Bool
unfolding is_open
is_enabled now timeout t = elapsed t.deadline now && (is_some t.ping_timeout && is_open t)
is_enabled now (in_done r) t = t.in_running
is_enabled now (out_done r) t = t.out_running
is_enabled now _ t = true

module _ (fails : List Effect → Effect → Option ErrorKind) where
  unfoldable pub on_enable : Result ℕ → Task → Outcome
  unfolding Host.default_caps
  on_enable (ok mps) t = next (record t { mps = some mps; host_caps = Host.default_caps })
  on_enable (err e) t = failed e t
  on_enable diverged t = next t

  unfoldable pub on_disable : Task → Outcome
  unfolding clear_endpoints Host.default_caps
  on_disable t = do
    t ← clear_endpoints fails (record t { in_running = false; out_running = false })
    next (record t {
      send_open = false;
      recv_open = false;
      host_caps = Host.default_caps;
      mps = none;
    })

  -- The host has not been heard of for the ping timeout.
  unfoldable pub on_timeout : Task → Outcome
  unfolding attempt
  on_timeout t = do
    t ←
        attempt fails (cancel ep_tx)
          (record t { conn_error = some timed_out; in_running = false; out_running = false })
    t ← attempt fails (cancel ep_rx) t
    next (record t { send_open = false; recv_open = false })

  -- `in_task` ended; only if the device dropped its receiver is the OUT endpoint halted.
  unfoldable pub after_in_task : Result Bool → Task → Outcome
  unfolding attempt note
  after_in_task (ok true) t = next t
  after_in_task (ok false) t = do t ← attempt fails (control ep_rx) t; next (note (halt ep_rx) t)
  after_in_task (err e) t = next t
  after_in_task diverged t = next t

  unfoldable pub on_in_done : Result Bool → Task → Outcome
  unfolding attempt after_in_task
  on_in_done r t = do
    t ← attempt fails (cancel ep_rx) (record t { in_close = none; in_running = false })
    after_in_task r (record t { recv_open = false })

  -- `out_task` ended: the IN endpoint is halted, whatever its result.
  unfoldable pub on_out_done : Task → Outcome
  unfolding attempt note
  on_out_done t = do
    t ← attempt fails (control ep_tx) (record t { send_open = false; out_running = false })
    next (note (halt ep_tx) t)

  -- One round of the loop at time `now`.
  unfoldable pub step : Platform → ℕ → Input → Task → Outcome
  unfolding host_to_device answer_device_to_host on_enable on_disable on_timeout on_in_done
      on_out_done
  step platform now unbound t = ended t
  step platform now dropped t = ended t
  step platform now disable t = on_disable t
  step platform now other_event t = next t
  step platform now timeout t = on_timeout t
  step platform now (wait_failed e) t = failed e t
  step platform now (enable r) t = on_enable r t
  step platform now (setup_host_to_device request payload) t =
      host_to_device fails platform now request payload t
  step platform now (setup_device_to_host request) t = answer_device_to_host platform now request t
  step platform now (in_done r) t = on_in_done r t
  step platform now (out_done r) t = on_out_done t
  step platform now (configure cfg) t = next (record t { cfg = cfg })

  -- The states that the task can come to.
  pub data Reach (platform : Platform) (cfg : Cfg) : Task → Type 0 where
    start : {t : Task} → t ≡ initial cfg → Reach platform cfg t
    after :
        {t u : Task} (now : ℕ) (i : Input)
        → Reach platform cfg t
        → is_enabled now i t ≡ true
        → step platform now i t ≡ next u
        → Reach platform cfg u
