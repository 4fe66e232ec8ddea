-- ===== src/Device/Task/Events/Invariant.antt =====
-- What holds of the main task whenever it waits for the next event.
use upc.Common.{
  ℕ, ◌≡◌, List, Bool, true, false, ◌||◌, Option, none, some, ErrorKind, Result, ok, err, diverged,
  arith,
}
use upc.Device.Task.{Platform, Cfg, initial, Task, Effect, next, note, recv_all}
use upc.Device.Task.Requests.{
  establish, announce_close, set_host_caps, on_payload, on_open, on_close, on_close_recv, on_echo,
  host_to_device, device_to_host,
}
use upc.Device.Task.Events.{
  Input, is_some, on_enable, on_disable, on_timeout, on_in_done, on_out_done, step, Reach, start,
  after,
}

-- A direction is open exactly while its task runs; an open connection has a packet size and no error.
pub record Inv (t : Task) : Type 0 where
  pub in_synced : t.in_running ≡ t.recv_open
  pub out_synced : t.out_running ≡ t.send_open
  pub mps_known : t.send_open || t.recv_open ≡ true → is_some t.mps ≡ true
  pub no_error : t.send_open || t.recv_open ≡ true → t.conn_error ≡ none

initial-Inv : (cfg : Cfg) → Inv (initial cfg)
unfolding initial
initial-Inv cfg = ground arith

establish-Inv :
    (usize_max now mps : ℕ) (topic : List ℕ) (t : Task)
    → t.mps ≡ some mps
    → Inv (establish usize_max now mps topic t)
unfolding establish
establish-Inv usize_max now mps topic t known = ground arith

announce_close-Inv : (payload : List ℕ) (t : Task) → Inv t → Inv (announce_close payload t)
unfolding announce_close
announce_close-Inv payload t v = ground arith

set_host_caps-Inv : (payload : List ℕ) (t : Task) → Inv t → Inv (set_host_caps payload t)
unfolding set_host_caps
set_host_caps-Inv payload t v = ground arith

note-Inv : (e : Effect) (t : Task) → Inv t → Inv (note e t)
unfolding note
note-Inv e t v = ground arith

on_payload-Inv :
    (r : Result (List ℕ)) (f : List ℕ → Task → Task) (t : Task)
    → ((p : List ℕ) (u : Task) → Inv u → Inv (f p u))
    → Inv t
    → Inv (on_payload r f t)
on_payload-Inv (ok p) f t keep v = keep p t v
on_payload-Inv (err e) f t keep v = v
on_payload-Inv diverged f t keep v = v

device_to_host-Inv : (now request : ℕ) (t : Task) → Inv t → Inv (device_to_host now request t)
unfolding device_to_host
device_to_host-Inv now request t v = ground arith

next-injective : {t u : Task} → next t ≡ next u → t ≡ u
next-injective h = cc

module _ (fails : List Effect → Effect → Option ErrorKind) (platform : Platform) (now : ℕ) where
  on_echo-Inv :
      (payload : Result (List ℕ)) (t : Task) → Inv t → Inv (on_echo fails platform payload t)
  unfolding on_echo
  on_echo-Inv payload t v = ground arith

  on_open-Inv :
      (payload : Result (List ℕ)) (t u : Task)
      → Inv t
      → on_open fails platform now payload t ≡ next u
      → Inv u
  unfolding on_open
  on_open-Inv payload t u v h = ground arith

  on_close-Inv : (t u : Task) → on_close fails platform t ≡ next u → Inv u
  unfolding on_close
  on_close-Inv t u h = ground arith

  on_close_recv-Inv : (t u : Task) → Inv t → on_close_recv fails platform t ≡ next u → Inv u
  unfolding on_close_recv
  on_close_recv-Inv t u v h = ground arith

  on_timeout-Inv : (t u : Task) → Inv t → on_timeout fails t ≡ next u → Inv u
  unfolding on_timeout
  on_timeout-Inv t u v h = ground arith

  on_disable-Inv : (t u : Task) → Inv t → on_disable fails t ≡ next u → Inv u
  unfolding on_disable
  on_disable-Inv t u v h = ground arith

  on_in_done-Inv : (r : Result Bool) (t u : Task) → Inv t → on_in_done fails r t ≡ next u → Inv u
  unfolding on_in_done
  on_in_done-Inv (ok true) t u v h = ground arith
  on_in_done-Inv (ok false) t u v h = ground arith
  on_in_done-Inv (err e) t u v h = ground arith
  on_in_done-Inv diverged t u v h = ground arith

  on_out_done-Inv : (t u : Task) → Inv t → on_out_done fails t ≡ next u → Inv u
  unfolding on_out_done
  on_out_done-Inv t u v h = ground arith

  on_enable-Inv : (r : Result ℕ) (t u : Task) → Inv t → on_enable fails r t ≡ next u → Inv u
  unfolding on_enable
  on_enable-Inv r t u v h = ground arith

  host_to_device-Inv :
      (request : ℕ) (payload : Result (List ℕ)) (t u : Task)
      → Inv t
      → host_to_device fails platform now request payload t ≡ next u
      → Inv u
  unfolding host_to_device
  host_to_device-Inv request payload t u v h = ground (
    arith,
    on_open-Inv payload t u v,
    on_close-Inv t u,
    on_close_recv-Inv t u v,
    on_payload-Inv payload announce_close (note recv_all t) announce_close-Inv
        (note-Inv recv_all t v),
    on_payload-Inv payload set_host_caps (note recv_all t) set_host_caps-Inv
        (note-Inv recv_all t v),
    on_echo-Inv payload t v,
  )

  step-Inv : (i : Input) (t u : Task) → Inv t → step fails platform now i t ≡ next u → Inv u
  unfolding step
  step-Inv Input.unbound t u v h = cc
  step-Inv Input.dropped t u v h = cc
  step-Inv Input.disable t u v h = on_disable-Inv t u v h
  step-Inv Input.other_event t u v h = ground arith
  step-Inv Input.timeout t u v h = on_timeout-Inv t u v h
  step-Inv (Input.wait_failed e) t u v h = cc
  step-Inv (Input.enable r) t u v h = on_enable-Inv r t u v h
  step-Inv (Input.setup_host_to_device request payload) t u v h =
      host_to_device-Inv request payload t u v h
  step-Inv (Input.setup_device_to_host request) t u v h =
      ground (arith, device_to_host-Inv now request t v)
  step-Inv (Input.in_done r) t u v h = on_in_done-Inv r t u v h
  step-Inv (Input.out_done r) t u v h = on_out_done-Inv t u v h
  step-Inv (Input.configure cfg) t u v h = ground arith

-- In every state that the device's main task comes to, a direction is open exactly while its task
-- runs, and an open connection has a packet size and no error.
pub Reach-Inv :
    (fails : List Effect → Effect → Option ErrorKind) (platform : Platform) (cfg : Cfg) {t : Task}
    → Reach fails platform cfg t
    → Inv t
Reach-Inv fails platform cfg (start e) = rw e (initial-Inv cfg)
Reach-Inv fails platform cfg (after now i before enabled taken) =
    step-Inv fails platform now i _ _ (Reach-Inv fails platform cfg before) taken
