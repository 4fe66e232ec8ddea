-- ===== src/Host/Options.antt =====
-- src/host/mod.rs: `DeviceStatus` and `UpcOptions`; the polling interval of src/host/native.rs.
use upc.Common.{ℕ, ◌/◌, List, [], Bool, true, false, Option, none, some, min}
use upc.Protocol.{max_size as default_max_size}
use upc.Caps.Device.{DeviceCapabilities}

pub record DeviceStatus : Type 0 where
  pub recv_closed : Bool
  pub dead : Bool

pub record UpcOptions : Type 0 where
  pub topic : List ℕ
  pub ping_interval : Option ℕ
  pub max_size : ℕ

-- Five seconds, in nanoseconds.
unfoldable pub new_options : UpcOptions
new_options = record { topic = []; ping_interval = some 5_000_000_000; max_size = default_max_size }

unfoldable pub with_topic : List ℕ → UpcOptions → UpcOptions
with_topic topic o = record o { topic = topic }

unfoldable pub with_ping_interval : Option ℕ → UpcOptions → UpcOptions
with_ping_interval ping_interval o = record o { ping_interval = ping_interval }

unfoldable pub with_max_size : ℕ → UpcOptions → UpcOptions
with_max_size max_size o = record o { max_size = max_size }

-- The `match` on what the host wants and what the device announced.
unfoldable pub pick_interval : Option ℕ → Option ℕ → Option ℕ
pick_interval (some interval) (some timeout) = some (min interval (timeout / 2))
pick_interval none (some timeout) = some (timeout / 2)
pick_interval (some interval) none = some interval
pick_interval none none = none

abbrev when_supported : Bool → Option ℕ → Option ℕ
when_supported true interval = interval
when_supported false interval = none

unfoldable pub status_interval : UpcOptions → DeviceCapabilities → Option ℕ
unfolding pick_interval
status_interval o caps =
    when_supported caps.status_supported (pick_interval o.ping_interval caps.ping_timeout)
