-- ===== src/Device/Task/Events/Negotiation.antt =====
-- From the host's capabilities and topic to an open connection.
use upc.Common.{
  ℕ, ◌*◌, ◌^◌, ◌<◌, ◌≡◌, refl, ap, ◌∙◌, List, ◌∷◌, true, false, Option, some, ErrorKind, ok, arith,
}
use upc.Caps.Host.{HostCapabilities}
use upc.Caps.Host
use upc.Caps.HostLaws.{decode-encode_host}
use upc.Protocol.{transfer_packets}
use upc.Protocol.CtrlReq
use upc.Device.Sender.{connection}
use upc.Device.Task.{Platform, Task, Effect, next, ◌>>=◌, note, recv_all, to_usize}
use upc.Device.Task.Requests.{
  is_open, instant_fits, pool_fits, establish, set_host_caps, accept_open, on_open, host_to_device,
}
use upc.Device.Task.Events.{Input, step}

set_host_caps_lem :
    (caps : HostCapabilities) (t : Task)
    → caps.max_size < 2 ^ 64
    → set_host_caps (Host.encode caps) t ≡ record t { host_caps = caps }
unfolding set_host_caps
set_host_caps_lem caps t fits = rw (decode-encode_host caps fits, set_host_caps) refl

module _ (fails : List Effect → Effect → Option ErrorKind) (platform : Platform) (now : ℕ) where
  accepts_open :
      (mps : ℕ) (topic : List ℕ) (t : Task)
      → is_open t ≡ false
      → t.mps ≡ some mps
      → pool_fits platform t.cfg.recv_pool_size (mps * transfer_packets) ≡ true
      → instant_fits platform now t.ping_timeout ≡ true
      → on_open fails platform now (ok topic) t
        ≡ next (
            establish platform.usize_max now mps topic
              (note recv_all (note (Effect.prepare_in (mps * transfer_packets)) t)))
  unfolding on_open accept_open
  accepts_open mps topic t closed known pool instant = unfold note in (ground arith)

  -- CAPABILITIES and then OPEN, on a device with a packet size and nothing open, whose buffers can
  -- be had and whose ping timeout ends at a time that an `Instant` holds, hands one connection to
  -- the application, with the topic, the host's limit for sending, the configured limit for
  -- receiving and transfers of 128 packets, and opens both directions and starts their tasks.
  pub negotiation :
      (caps : HostCapabilities) (topic : List ℕ) (mps : ℕ) (t : Task)
      → caps.max_size < 2 ^ 64
      → is_open t ≡ false
      → t.mps ≡ some mps
      → pool_fits platform t.cfg.recv_pool_size (mps * transfer_packets) ≡ true
      → instant_fits platform now t.ping_timeout ≡ true
      → (u : Task) × ((step fails platform now
              (Input.setup_host_to_device CtrlReq.capabilities (ok (Host.encode caps)))
              t
            >>= step fails platform now
                (Input.setup_host_to_device CtrlReq.open_connection (ok topic)))
          ≡ next u)
        × (u.accepted
            ≡ connection topic
                (mps * transfer_packets)
                (to_usize platform.usize_max caps.max_size)
                (to_usize platform.usize_max t.cfg.max_size)
              ∷ t.accepted)
        × (u.in_running ≡ true)
        × (u.out_running ≡ true)
        × (u.send_open ≡ true)
        × (u.recv_open ≡ true)
  unfolding step host_to_device
  negotiation caps topic mps t fits closed known pool instant =
      let t' : Task = record (note recv_all t) { host_caps = caps } in
      (
        establish platform.usize_max now mps topic
            (note recv_all (note (Effect.prepare_in (mps * transfer_packets)) t')),
        ap (on_open fails platform now (ok topic)) (set_host_caps_lem caps (note recv_all t) fits)
            ∙ accepts_open mps topic t' (unfold is_open note in closed) (unfold note in known)
                (unfold note in pool) (unfold note in instant),
        unfold establish note in refl,
        unfold establish in refl,
        unfold establish in refl,
        unfold establish in refl,
        unfold establish in refl,
      )
