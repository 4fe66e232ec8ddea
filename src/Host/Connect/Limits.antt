-- ===== src/Host/Connect/Limits.antt =====
-- The limits that a channel of `connect_with` starts with, and how often it polls the device.
use upc.Common.{
  ℕ, ◌*◌, ◌≤◌, ◌<◌, ◌^◌, ◌/◌, ◌≡◌, refl, sym, ap, ◌∙◌, [], true, Option, none, some, min, arith,
}
use upc.Protocol.{transfer_packets}
use upc.Protocol.CtrlReq
use upc.Caps.Device.{DeviceCapabilities, from_millis}
use upc.Caps.Device
use upc.Caps.DeviceLaws.{decode-encode_exact}
use upc.Device.Task.{to_usize}
use upc.Host.Options.{UpcOptions, pick_interval, status_interval}
use upc.Host.Interfaces.{got}
use upc.Host.Connect.{
  Answers, next, failed, panicked, waiting, Run, ◌>>=◌, get_endpoints, claim, flush, query_caps,
  of_result, Connection, build, connect_with, topic_too_big, usb, control_out, open_channel,
}

next-injective : {A : Type 0} {a b : A} → next a ≡ next b → a ≡ b
next-injective e = cc

-- A run that succeeds has a first part that does.
bind-next :
    {A B : Type 0} (m : Run A) (f : A → Run B) (b : B)
    → (m >>= f).1 ≡ next b
    → (a : A) × (m.1 ≡ next a) × ((f a).1 ≡ next b)
bind-next (sent, next a) f b e = (a, refl, e)
bind-next (sent, failed x) f b e = absurd (ground arith)
bind-next (sent, panicked) f b e = absurd (ground arith)
bind-next (sent, waiting) f b e = absurd (ground arith)

open_channel-built :
    (usize_max : ℕ) (a : Answers) (options : UpcOptions) (mps : ℕ) (caps : DeviceCapabilities)
    (conn : Connection)
    → (open_channel usize_max a options mps caps).1 ≡ next conn
    → conn ≡ build usize_max options caps mps
unfolding open_channel
open_channel-built usize_max a options mps caps conn e =
    let built : Run Connection = ([], next (build usize_max options caps mps)) in
    let (_, _, e) =
      bind-next (control_out a.open_connection CtrlReq.open_connection options.topic) (λ _. built)
        conn e in
    sym (next-injective e)

-- A connection is built from the packet size found and the capabilities that the device answered.
connect_with-built :
    (usize_max : ℕ) (a : Answers) (interface : ℕ) (options : UpcOptions) (conn : Connection)
    → (connect_with usize_max a interface options).1 ≡ next conn
    → (caps : DeviceCapabilities) × (mps : ℕ) × ((query_caps a.caps).1 ≡ next caps)
      × (conn ≡ build usize_max options caps mps)
unfolding connect_with
connect_with-built usize_max a interface options conn e =
    let (_, _, e) = bind-next (topic_too_big options) _ conn e in
    let ((_, (_, mps)), _, e) =
      bind-next (get_endpoints usize_max a.configuration interface) _ conn e in
    let (_, _, e) = bind-next (claim a.claims) _ conn e in
    let (_, _, e) = bind-next (usb a.open_in) _ conn e in
    let (_, _, e) = bind-next (usb a.open_out) _ conn e in
    let (_, _, e) = bind-next (usb a.clear_in) _ conn e in
    let (_, _, e) = bind-next (usb a.clear_out) _ conn e in
    let (_, _, e) = bind-next (control_out a.close CtrlReq.close []) _ conn e in
    let (_, _, e) = bind-next (flush a.flushes) _ conn e in
    let (caps, answered, e) = bind-next (query_caps a.caps) _ conn e in
    let opened = open_channel-built usize_max a options mps caps conn e in
    (caps, mps, answered, opened)

-- A connection to a device that answers with its encoded capabilities, their maximum below 2^64 and
-- the ping timeout of 1 to 2^32 - 1 whole milliseconds, has the announced maximum, as a usize, for
-- its sender's limit and that of the options for its receiver's, receives in transfers of 128
-- packets, and polls at the interval for those capabilities.
pub connect_with_limits :
    (usize_max : ℕ) (a : Answers) (interface : ℕ) (options : UpcOptions) (conn : Connection)
    (c : DeviceCapabilities) (ms : ℕ)
    → c.max_size < 2 ^ 64
    → 0 < ms
    → ms < 2 ^ 32
    → c.ping_timeout ≡ some (from_millis ms)
    → a.caps ≡ got (Device.encode c)
    → (connect_with usize_max a interface options).1 ≡ next conn
    → (conn.sender.max_size ≡ to_usize usize_max c.max_size)
      × (conn.receiver.max_size ≡ options.max_size)
      × (conn.receiver.max_transfer_size ≡ conn.mps * transfer_packets)
      × (conn.status_interval ≡ status_interval options c)
unfolding build query_caps
connect_with_limits usize_max a interface options conn c ms fits lo hi e answer run =
    let (caps, mps, answered, built) = connect_with-built usize_max a interface options conn run in
    let decoded : (query_caps (got (Device.encode c))).1 ≡ next c =
      ap (λ r. (of_result r).1) (decode-encode_exact c ms fits lo hi e) in
    let same : caps ≡ c =
      next-injective (sym answered ∙ ap (λ x. (query_caps x).1) answer ∙ decoded) in
    let built = built ∙ ap (λ x. build usize_max options x mps) same in
    (
      ap (λ x. x.sender.max_size) built,
      ap (λ x. x.receiver.max_size) built,
      rw built refl,
      ap (λ x. x.status_interval) built,
    )

pick_in_time :
    (wanted : Option ℕ) (timeout : ℕ)
    → (interval : ℕ) × (pick_interval wanted (some timeout) ≡ some interval)
      × (2 * interval ≤ timeout)
unfolding pick_interval
pick_in_time none timeout = (timeout / 2, refl, omega arith)
pick_in_time (some wanted) timeout = (min wanted (timeout / 2), refl, omega arith)

-- A device that answers STATUS and has a ping timeout is polled, at an interval of at most half of
-- that timeout, whatever the options.
pub polled_in_time :
    (options : UpcOptions) (c : DeviceCapabilities) (timeout : ℕ)
    → c.status_supported ≡ true
    → c.ping_timeout ≡ some timeout
    → (interval : ℕ) × (status_interval options c ≡ some interval) × (2 * interval ≤ timeout)
unfolding status_interval
polled_in_time options c timeout supported e =
    let (interval, picked, le) = pick_in_time (options.ping_interval) timeout in
    (interval, rw (supported, e) picked, le)
