-- ===== src/Device/Task/Events/Panics.antt =====
-- Where the main task can panic: `mps.expect("request without enable")`, the buffers of the pool, and
-- the sum `last_status + d`.
use upc.Common.{
  ℕ, ◌*◌, ◌+◌, ◌<◌, leb, ◌≡◌, ◌≢◌, ◌⊎◌, ◌↔◌, inl, inr, refl, ap, ◌∙◌, List, true, false, Option,
  none, some, ErrorKind, Result, ok, err, diverged, arith, Bool-cases, Option-cases,
}
use upc.Protocol.{transfer_packets}
use upc.Protocol.CtrlReq
use upc.Device.Task.{Platform, Task, Effect, panicked, note, prepare_in, recv_all, clear_endpoints}
use upc.Device.Task.Requests.{
  is_open, instant_fits, pool_fits, establish_panicked, accept_open, on_open, on_close,
  on_close_recv, host_to_device, answer_device_to_host,
}
use upc.Device.Task.Events.{Input, on_enable, on_disable, on_timeout, on_in_done, on_out_done, step}

module _ (fails : List Effect → Effect → Option ErrorKind) (platform : Platform) (now : ℕ) where
  clear_endpoints-ne-panicked : (t u : Task) → clear_endpoints fails t ≢ panicked u
  unfolding clear_endpoints
  clear_endpoints-ne-panicked t u h = ground arith

  on_close-ne-panicked : (t u : Task) → on_close fails platform t ≢ panicked u
  unfolding on_close
  on_close-ne-panicked t u h = ground arith

  on_close_recv-ne-panicked : (t u : Task) → on_close_recv fails platform t ≢ panicked u
  unfolding on_close_recv
  on_close_recv-ne-panicked t u h = ground arith

  -- The ping timeout in force ends at a time that an `Instant` does not hold.
  abbrev pub Overflows : Task → Type 0
  Overflows t = (d : ℕ) × (t.ping_timeout ≡ some d) × (platform.instant_max < now + d)

  abbrev pub TooLarge : ℕ → Task → Type 0
  TooLarge mps t =
      (platform.capacity_max < t.cfg.recv_pool_size)
      ⊎ (platform.capacity_max < mps * transfer_packets)

  abbrev pub IsOpenCrash : Result (List ℕ) → Task → Type 0
  IsOpenCrash payload t =
      (is_open t ≡ false)
      × ((t.mps ≡ none)
          ⊎ ((mps : ℕ) × (t.mps ≡ some mps)
              × (TooLarge mps t ⊎ ((topic : List ℕ) × (payload ≡ ok topic) × Overflows t))))

  instant_cases : (t : Task) → (instant_fits platform now t.ping_timeout ≡ true) ⊎ Overflows t
  unfolding instant_fits
  instant_cases t = elim (Option-cases t.ping_timeout) [
    | inl e ↦ inl (rw e refl)
    | inr (d, e) ↦ elim (Bool-cases (leb (now + d) platform.instant_max)) [
      | inl fits ↦ inl (rw (e, fits) refl)
      | inr late ↦ inr (d, e, ground arith)
    ]
  ]

  Overflows-false : (t : Task) → Overflows t → instant_fits platform now t.ping_timeout ≡ false
  unfolding instant_fits
  Overflows-false t (d, e, late) = rw e (ground arith)

  pool_cases :
      (mps : ℕ) (t : Task)
      → (pool_fits platform t.cfg.recv_pool_size (mps * transfer_packets) ≡ true) ⊎ TooLarge mps t
  unfolding pool_fits
  pool_cases mps t = ground arith

  TooLarge-false :
      (mps : ℕ) (t : Task)
      → TooLarge mps t
      → pool_fits platform t.cfg.recv_pool_size (mps * transfer_packets) ≡ false
  unfolding pool_fits
  TooLarge-false mps t h = ground arith

  accept_open_panicked :
      (mps : ℕ) (payload : Result (List ℕ)) (t u : Task)
      → accept_open fails platform now mps payload t ≡ panicked u
      → (topic : List ℕ) × (payload ≡ ok topic) × Overflows t
  unfolding accept_open
  accept_open_panicked mps (ok topic) t u h = elim (instant_cases t) [
    | inl fits ↦ absurd (ground (arith, fits))
    | inr over ↦ (topic, refl, over)
  ]
  accept_open_panicked mps (err e) t u h = absurd (ground arith)
  accept_open_panicked mps diverged t u h = absurd (ground arith)

  accept_open_panics :
      (mps : ℕ) (topic : List ℕ) (t : Task)
      → Overflows t
      → (u : Task) × (accept_open fails platform now mps (ok topic) t ≡ panicked u)
  unfolding accept_open
  accept_open_panics mps topic t over =
      (establish_panicked platform.usize_max now mps topic t, rw (Overflows-false t over) refl)

  on_open_panicked :
      (payload : Result (List ℕ)) (t u : Task)
      → on_open fails platform now payload t ≡ panicked u
      → IsOpenCrash payload t
  unfolding on_open
  on_open_panicked payload t u h = elim (Bool-cases (is_open t)) [
    | inl opened ↦ absurd (ground (arith, opened))
    | inr closed ↦ (
      closed,
      elim (Option-cases t.mps) [
        | inl unknown ↦ inl unknown
        | inr (mps, known) ↦ inr (
          mps,
          known,
          elim (pool_cases mps t) [
            | inr large ↦ inl large
            | inl fits ↦ inr (accept_open_panicked mps payload _ u (rw (closed, known, fits) at h))
          ],
        )
      ],
    )
  ]

  abbrev prepared : ℕ → Task → Task
  prepared mps t = note recv_all (note (prepare_in (mps * transfer_packets)) t)

  reads_topic :
      (mps : ℕ) (payload : Result (List ℕ)) (t : Task)
      → is_open t ≡ false
      → t.mps ≡ some mps
      → pool_fits platform t.cfg.recv_pool_size (mps * transfer_packets) ≡ true
      → on_open fails platform now payload t
        ≡ accept_open fails platform now mps payload (prepared mps t)
  unfolding on_open
  reads_topic mps payload t closed known fits = ground arith

  on_open_panics :
      (payload : Result (List ℕ)) (t : Task)
      → IsOpenCrash payload t
      → (u : Task) × (on_open fails platform now payload t ≡ panicked u)
  unfolding on_open
  on_open_panics payload t (closed, inl unknown) = (t, ground arith)
  on_open_panics payload t (closed, inr (mps, known, inl large)) =
      (t, ground (arith, TooLarge-false mps t large))
  on_open_panics payload t (closed, inr (mps, known, inr (topic, e, over))) =
      elim (pool_cases mps t) [
        | inr large ↦ (t, ground (arith, TooLarge-false mps t large))
        | inl fits ↦
            let (u, h) = accept_open_panics mps topic (prepared mps t) (unfold note in over) in
            (
              u,
              reads_topic mps payload t closed known fits
                  ∙ ap (λ p. accept_open fails platform now mps p (prepared mps t)) e
                  ∙ h,
            )
      ]

  answer_panicked :
      (request : ℕ) (t u : Task)
      → answer_device_to_host platform now request t ≡ panicked u
      → (request ≡ CtrlReq.status) × Overflows t
  unfolding answer_device_to_host
  answer_panicked request t u h = elim (instant_cases t) [
    | inl fits ↦ absurd (ground (arith, fits))
    | inr over ↦ (ground arith, over)
  ]

  request_panicked :
      (request : ℕ) (payload : Result (List ℕ)) (t u : Task)
      → host_to_device fails platform now request payload t ≡ panicked u
      → (request ≡ CtrlReq.open_connection) × (on_open fails platform now payload t ≡ panicked u)
  unfolding host_to_device
  request_panicked request payload t u h =
      ground (arith, on_close-ne-panicked t u, on_close_recv-ne-panicked t u)

  abbrev pub IsCrash : Input → Task → Type 0
  IsCrash i t =
      ((payload : Result (List ℕ)) × (i
          ≡ Input.setup_host_to_device CtrlReq.open_connection payload)
        × IsOpenCrash payload t)
      ⊎ ((i ≡ Input.setup_device_to_host CtrlReq.status) × Overflows t)

  step_panicked : (i : Input) (t u : Task) → step fails platform now i t ≡ panicked u → IsCrash i t
  unfolding step
  step_panicked (Input.setup_host_to_device request payload) t u h =
      let (e, opening) = request_panicked request payload t u h in
      inl (
        payload,
        ap (λ r. Input.setup_host_to_device r payload) e,
        on_open_panicked payload t u opening,
      )
  step_panicked (Input.setup_device_to_host request) t u h =
      let (e, over) = answer_panicked request t u h in
      inr (ap (λ r. Input.setup_device_to_host r) e, over)
  step_panicked Input.disable t u h = absurd (unfold on_disable in (ground arith))
  step_panicked Input.timeout t u h = absurd (unfold on_timeout in (ground arith))
  step_panicked (Input.enable r) t u h = absurd (unfold on_enable in (ground arith))
  step_panicked (Input.in_done (ok true)) t u h = absurd (unfold on_in_done in (ground arith))
  step_panicked (Input.in_done (ok false)) t u h = absurd (unfold on_in_done in (ground arith))
  step_panicked (Input.in_done (err e)) t u h = absurd (unfold on_in_done in (ground arith))
  step_panicked (Input.in_done diverged) t u h = absurd (unfold on_in_done in (ground arith))
  step_panicked (Input.out_done r) t u h = absurd (unfold on_out_done in (ground arith))
  step_panicked Input.unbound t u h = cc
  step_panicked Input.dropped t u h = cc
  step_panicked Input.other_event t u h = cc
  step_panicked (Input.wait_failed e) t u h = cc
  step_panicked (Input.configure cfg) t u h = cc

  step_panics :
      (i : Input) (t : Task) → IsCrash i t → (u : Task) × (step fails platform now i t ≡ panicked u)
  unfolding step host_to_device answer_device_to_host
  step_panics i t (inl (payload, e, opening)) =
      let (u, h) = on_open_panics payload t opening in (u, rw e h)
  step_panics i t (inr (e, over)) =
      (record t { last_status = now }, rw (e, Overflows-false t over) refl)

  -- The device's main task panics exactly on two requests: OPEN while nothing is open, if no packet
  -- size is known, if the receive pool or one transfer is larger than a buffer can be, or if the
  -- topic is read and the ping timeout in force ends at a time that an `Instant` does not hold; and
  -- STATUS, if the ping timeout ends at such a time.
  pub panics_only :
      (i : Input) (t : Task)
      → ((u : Task) × (step fails platform now i t ≡ panicked u)) ↔ IsCrash i t
  panics_only i t = (λ h. step_panicked i t h.0 h.1, step_panics i t)
