-- ===== src/Device/Task/Requests.antt =====
-- src/device.rs: what the main task does on a control request.
use upc.Common.{
  ℕ, ◌+◌, ◌*◌, List, [], ◌∷◌, Bool, true, false, ◌||◌, ◌&&◌, not, Option, none, some, ErrorKind,
  Result, ok, err, diverged, leb, ◌==◌, if◌then◌else◌,
}
use upc.Common.Lists.{length, take}
use upc.Common.Words.{from_le_bytes}
use upc.Protocol.{transfer_packets}
use upc.Protocol.CtrlReq
use upc.Protocol.Status
use upc.Caps.Host
use upc.Caps.Device
use upc.Device.Sender.{connection}
use upc.Device.Task.{
  Task, Platform, Effect, Outcome, next, panicked, ◌>>=◌, ep_tx, ep_rx, cancel, prepare_in,
  recv_all, reply, send_bulk, flush_bulk, note, attempt, to_usize, clear_endpoints,
}

-- `last_status + d` at the time `now` is an `Instant`; the sum panics where it is not.
unfoldable pub instant_fits : Platform → ℕ → Option ℕ → Bool
instant_fits platform now none = true
instant_fits platform now (some d) = leb (now + d) platform.instant_max

-- `BytesPool::new` and the chunks of the pool get their buffers; an allocation that is too large
-- panics.
unfoldable pub pool_fits : Platform → ℕ → ℕ → Bool
pool_fits platform pool_size chunk_size =
    leb pool_size platform.capacity_max && leb chunk_size platform.capacity_max

unfoldable pub is_open : Task → Bool
is_open t = t.send_open || t.recv_open

-- The connection of an accepted OPEN request, where the deadline is an `Instant`.
unfoldable pub establish : ℕ → ℕ → ℕ → List ℕ → Task → Task
unfolding to_usize
establish usize_max now mps topic t = record t {
  accepted =
      connection topic (mps * transfer_packets) (to_usize usize_max t.host_caps.max_size)
        (to_usize usize_max t.cfg.max_size)
      ∷ t.accepted;
  in_running = true;
  out_running = true;
  in_close = none;
  send_open = true;
  recv_open = true;
  last_status = now;
  deadline = elim t.ping_timeout [ none ↦ t.deadline | some d ↦ some (now + d) ];
  conn_error = none;
}

-- Where it is not: the application has the connection, and the deadline is not set.
unfoldable pub establish_panicked : ℕ → ℕ → ℕ → List ℕ → Task → Task
unfolding establish
establish_panicked usize_max now mps topic t = record (establish usize_max now mps topic t) {
  deadline = t.deadline;
  conn_error = t.conn_error;
}

-- CLOSE_SEND: the byte count, if eight bytes came; the watch channel takes it if `in_task` runs.
unfoldable pub announce_close : List ℕ → Task → Task
announce_close payload t =
    if leb 8 (length payload)
    then record t {
      in_close = if t.in_running then some (from_le_bytes (take 8 payload)) else t.in_close;
    }
    else t

-- CAPABILITIES from the host: a payload that does not decode changes nothing.
unfoldable pub set_host_caps : List ℕ → Task → Task
set_host_caps payload t = elim (Host.decode payload) [
  | ok caps ↦ record t { host_caps = caps }
  | err e ↦ t
  | diverged ↦ t
]

-- A payload as `recv_all_async` gave it, or its error, which is only logged.
abbrev pub on_payload : Result (List ℕ) → (List ℕ → Task → Task) → Task → Task
on_payload (ok payload) f t = f payload t
on_payload (err e) f t = t
on_payload diverged f t = t

unfoldable pub status_reply : Bool → List ℕ
status_reply true = []
status_reply false = Status.recv_closed ∷ []

module _ (fails : List Effect → Effect → Option ErrorKind) (platform : Platform) where
  unfoldable pub accept_open : ℕ → ℕ → Result (List ℕ) → Task → Outcome
  unfolding establish establish_panicked instant_fits attempt note
  accept_open now mps (ok topic) t =
      if instant_fits platform now t.ping_timeout
      then next (establish platform.usize_max now mps topic t)
      else panicked (establish_panicked platform.usize_max now mps topic t)
  accept_open now mps (err e) t = attempt fails (cancel ep_rx) t
  accept_open now mps diverged t = next t

  -- OPEN. While a connection is open the request is dropped without reading it.
  unfoldable pub on_open : ℕ → Result (List ℕ) → Task → Outcome
  unfolding is_open pool_fits accept_open
  on_open now payload t = if is_open t then next t else elim t.mps [
    | none ↦ panicked t
    | some mps ↦
        if pool_fits platform t.cfg.recv_pool_size (mps * transfer_packets)
        then accept_open now mps payload
            (note recv_all (note (prepare_in (mps * transfer_packets)) t))
        else panicked t
  ]

  -- CLOSE
  unfoldable pub on_close : Task → Outcome
  unfolding clear_endpoints Host.default_caps
  on_close t = do
    t ← clear_endpoints fails (record t { in_running = false; out_running = false })
    next (record (note recv_all t) {
      send_open = false;
      recv_open = false;
      host_caps = Host.default_caps;
    })

  -- CLOSE_RECV
  unfoldable pub on_close_recv : Task → Outcome
  unfolding attempt note
  on_close_recv t =
      let t' = note recv_all t in
      if t'.send_open
      then (do
        t ← attempt fails (cancel ep_tx) (record t' { out_running = false })
        next (record t { send_open = false }))
      else next t'

  -- ECHO. While a connection is open the request is dropped without reading it.
  unfoldable pub on_echo : Result (List ℕ) → Task → Task
  unfolding is_open note
  on_echo payload t =
      if is_open t
      then t
      else on_payload payload (λ p t. note flush_bulk (note (send_bulk p) t)) (note recv_all t)

  -- Event::SetupHostToDevice: the request code, and what reading its payload gives.
  unfoldable pub host_to_device : ℕ → ℕ → Result (List ℕ) → Task → Outcome
  unfolding on_open on_close on_close_recv on_echo announce_close set_host_caps
  host_to_device now request payload t =
      if request == CtrlReq.open_connection
      then on_open now payload t
      else if request == CtrlReq.close
      then on_close t
      else if request == CtrlReq.close_send
      then next (on_payload payload announce_close (note recv_all t))
      else if request == CtrlReq.close_recv
      then on_close_recv t
      else if request == CtrlReq.capabilities
      then next (on_payload payload set_host_caps (note recv_all t))
      else if request == CtrlReq.echo
      then next (on_echo payload t)
      else next t

-- CAPABILITIES to the host: the ping timeout in force is that of the last such request.
unfoldable pub send_caps : Task → Task
unfolding note Device.encode
send_caps t =
    note
      (reply (
        Device.encode (record {
          ping_timeout = t.cfg.ping_timeout;
          status_supported = true;
          echo_supported = true;
          max_size = t.cfg.max_size;
        })))
      (record t { ping_timeout = t.cfg.ping_timeout })

-- STATUS, where the deadline is an `Instant`.
unfoldable pub send_status : ℕ → Task → Task
unfolding note status_reply
send_status now t = note (reply (status_reply t.recv_open)) (record t {
  last_status = now;
  deadline = elim t.ping_timeout [ none ↦ t.deadline | some d ↦ some (now + d) ];
})

-- Event::SetupDeviceToHost, where a STATUS request finds its deadline to be an `Instant`.
unfoldable pub device_to_host : ℕ → ℕ → Task → Task
unfolding note send_caps send_status
device_to_host now request t =
    if request == CtrlReq.probe
    then note (reply CtrlReq.probe_response) t
    else if request == CtrlReq.info
    then note (reply t.cfg.info) t
    else if request == CtrlReq.capabilities
    then send_caps t
    else if request == CtrlReq.status
    then send_status now t
    else t

-- Event::SetupDeviceToHost, with the panic of a STATUS request.
unfoldable pub answer_device_to_host : Platform → ℕ → ℕ → Task → Outcome
unfolding instant_fits device_to_host
answer_device_to_host platform now request t =
    if (request == CtrlReq.status) && not (instant_fits platform now t.ping_timeout)
    then panicked (record t { last_status = now })
    else next (device_to_host now request t)
