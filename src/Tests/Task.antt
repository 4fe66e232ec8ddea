-- ===== src/Tests/Task.antt =====
-- The device's main task on concrete inputs.
use upc.Common.{
  leb, err, ◌+◌, ℕ, ◌*◌, ◌≡◌, ◌↔◌, refl, List, [], ◌∷◌, ◌++◌, true, false, Option, none, some,
  ErrorKind, timed_out, ok, arith,
}
use upc.Protocol.{transfer_packets}
use upc.Protocol.CtrlReq
use upc.Caps.Host.{HostCapabilities}
use upc.Caps.Host
use upc.Device.Sender.{connection}
use upc.Device.Task.{
  Cfg, initial, Platform, Task, Effect, next, panicked, ◌>>=◌, ep_tx, ep_rx, cancel, control, halt,
  recv_all, reply, to_usize,
}
use upc.Device.Task.Requests.{is_open, pool_fits, instant_fits, device_to_host}
use upc.Device.Task.Events.{Input, is_enabled, step, Reach, start, after}
use upc.Device.Task.Events.Invariant.{Inv, Reach-Inv}
use upc.Device.Task.Events.Teardown.{teardown, close_resets}
use upc.Device.Task.Events.Panics.{IsCrash, panics_only}
use upc.Device.Task.Events.Negotiation.{negotiation}
use upc.Device.Task.Events.HalfClose.{ClosesSend, send_closes}
use upc.Device.Task.Events.Liveness.{dead_host_detected, status_reports}
use upc.Device.Receiver.{end_of_channel}

abbrev word : ℕ
word = 18_446_744_073_709_551_615

-- `Instant` holds 64 bits of seconds.
abbrev machine : Platform
machine = record {
  usize_max = word;
  instant_max = 9_223_372_036_854_775_807_999_999_999;
  capacity_max = 9_223_372_036_854_775_807;
}

abbrev quiet : List Effect → Effect → Option ErrorKind
quiet log op = none

abbrev cfg : Cfg
cfg = record { info = []; ping_timeout = some 10; max_size = 1_000; recv_pool_size = 5_000 }

abbrev enabled : Task
enabled = record {
  cfg = cfg;
  mps = some 512;
  in_running = false;
  out_running = false;
  in_close = none;
  send_open = false;
  recv_open = false;
  last_status = 0;
  deadline = none;
  conn_error = none;
  host_caps = record { max_size = 16_777_216 };
  ping_timeout = none;
  accepted = [];
  log = [];
}

abbrev opened : Task
opened = record enabled {
  in_running = true;
  out_running = true;
  send_open = true;
  recv_open = true;
  ping_timeout = some 10;
  deadline = some 15;
}

reached_enabled : Reach quiet machine cfg enabled
unfolding initial is_enabled step
reached_enabled = after 3 (Input.enable (ok 512)) (start refl) refl refl

Reach-Inv_example : Inv enabled
Reach-Inv_example = Reach-Inv quiet machine cfg reached_enabled

abbrev closed : Task
closed = record opened {
  in_running = false;
  out_running = false;
  send_open = false;
  recv_open = false;
  log = teardown ++ (recv_all ∷ []);
}

closes :
    step quiet machine 3 (Input.setup_host_to_device CtrlReq.close (ok [])) opened ≡ next closed
unfolding step
closes = refl

close_resets_example : closed ≡ record opened {
  send_open = false;
  recv_open = false;
  in_running = false;
  out_running = false;
  host_caps = record { max_size = 16_777_216 };
  log = teardown ++ (recv_all ∷ []);
}
unfolding Host.default_caps
close_resets_example = close_resets quiet machine 3 (ok []) opened closed closes

opened-is_open : is_open opened ≡ true
unfolding is_open
opened-is_open = refl

abbrev early : Task
early = record enabled { mps = none }

early_panic :
    step quiet machine 3 (Input.setup_host_to_device CtrlReq.open_connection (ok [])) early
    ≡ panicked early
unfolding step
early_panic = refl

-- `set_ping_timeout(Some(Duration::MAX))` before the CAPABILITIES request.
abbrev endless : Task
endless = record opened { ping_timeout = some 18_446_744_073_709_551_615_999_999_999 }

overflow_panic :
    step quiet machine 3 (Input.setup_device_to_host CtrlReq.status) endless
    ≡ panicked (record endless { last_status = 3 })
unfolding step
overflow_panic = refl

panics_only_example :
    ((u : Task) × (step quiet machine 3 (Input.setup_device_to_host CtrlReq.status) endless
        ≡ panicked u))
    ↔ IsCrash quiet machine 3 (Input.setup_device_to_host CtrlReq.status) endless
panics_only_example =
    panics_only quiet machine 3 (Input.setup_device_to_host CtrlReq.status) endless

enabled_closed : is_open enabled ≡ false
unfolding is_open
enabled_closed = refl

enabled_pool : pool_fits machine 5_000 (512 * transfer_packets) ≡ true
unfolding pool_fits
enabled_pool = refl

enabled_instant : instant_fits machine 3 none ≡ true
unfolding instant_fits
enabled_instant = refl

negotiation_example :
    (u : Task) × ((step quiet machine 3
          (Input.setup_host_to_device CtrlReq.capabilities
            (ok (Host.encode (record { max_size = 600 }))))
          enabled
        >>= step quiet machine 3 (Input.setup_host_to_device CtrlReq.open_connection (ok (7 ∷ []))))
      ≡ next u)
    × (u.accepted
        ≡ connection (7 ∷ []) (512 * transfer_packets) (to_usize word 600) (to_usize word 1_000)
          ∷ [])
    × (u.in_running ≡ true)
    × (u.out_running ≡ true)
    × (u.send_open ≡ true)
    × (u.recv_open ≡ true)
negotiation_example =
    negotiation quiet machine 3 (record { max_size = 600 }) (7 ∷ []) 512 enabled (omega arith)
      enabled_closed refl enabled_pool enabled_instant

opened-Inv : Inv opened
opened-Inv = record {
  in_synced = refl;
  out_synced = refl;
  mps_known = λ h. refl;
  no_error = λ h. refl;
}

abbrev send_closed : Task
send_closed = record opened {
  send_open = false;
  out_running = false;
  log = control ep_tx ∷ halt ep_tx ∷ [];
}

sender_dropped : step quiet machine 3 (Input.out_done (ok tt)) opened ≡ next send_closed
unfolding step
sender_dropped = refl

send_closes_example :
    (send_closed.send_open ≡ false)
    × (send_closed.out_running ≡ false)
    × (send_closed.recv_open ≡ true)
    × (send_closed.in_running ≡ true)
    × (send_closed.in_close ≡ none)
send_closes_example =
    send_closes quiet machine 3 (Input.out_done (ok tt)) opened send_closed
      (ClosesSend.by_device (ok tt)) opened-Inv sender_dropped

abbrev recv_closed : Task
recv_closed = record opened {
  recv_open = false;
  in_running = false;
  log = cancel ep_rx ∷ control ep_rx ∷ halt ep_rx ∷ [];
}

receiver_dropped : step quiet machine 3 (Input.in_done (ok false)) opened ≡ next recv_closed
unfolding step
receiver_dropped = refl

abbrev timed_out_task : Task
timed_out_task = record opened {
  last_status = 15;
  deadline = some 25;
  conn_error = some timed_out;
  in_running = false;
  out_running = false;
  send_open = false;
  recv_open = false;
  log = reply [] ∷ cancel ep_tx ∷ cancel ep_rx ∷ [];
}

times_out :
    step quiet machine 30 Input.timeout (device_to_host 15 CtrlReq.status opened)
    ≡ next timed_out_task
unfolding step device_to_host
times_out = refl

dead_host_detected_example :
    (is_enabled 30 Input.timeout (device_to_host 15 CtrlReq.status opened) ≡ leb (15 + 10) 30)
    × (end_of_channel timed_out_task.conn_error ≡ err timed_out)
    × (is_open timed_out_task ≡ false)
    × (timed_out_task.in_running ≡ false)
    × (timed_out_task.out_running ≡ false)
    × (timed_out_task.log
        ≡ (device_to_host 15 CtrlReq.status opened).log ++ (cancel ep_tx ∷ cancel ep_rx ∷ []))
dead_host_detected_example =
    dead_host_detected quiet machine 15 30 10 opened timed_out_task refl opened-is_open times_out

-- After an OPEN request.
abbrev started : Task
started = record enabled {
  in_running = true;
  out_running = true;
  send_open = true;
  recv_open = true;
  last_status = 4;
  accepted =
      connection [] (512 * transfer_packets) (to_usize word 16_777_216) (to_usize word 1_000) ∷ [];
  log = Effect.prepare_in (512 * transfer_packets) ∷ recv_all ∷ [];
}

reached_started : Reach quiet machine cfg started
unfolding is_enabled step
reached_started =
    after 4 (Input.setup_host_to_device CtrlReq.open_connection (ok [])) reached_enabled refl refl

abbrev reported : Task
reported = record started {
  last_status = 5;
  log = Effect.prepare_in (512 * transfer_packets) ∷ recv_all ∷ reply [] ∷ [];
}

reports : step quiet machine 5 (Input.setup_device_to_host CtrlReq.status) started ≡ next reported
unfolding step
reports = refl

status_reports_example :
    (reported.log ≡ started.log ++ (reply [] ∷ []))
    × (reported.recv_open ≡ true)
    × (reported.send_open ≡ true)
status_reports_example = status_reports quiet machine 5 cfg started reported reached_started reports
