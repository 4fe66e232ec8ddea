-- ===== src/Cli/Commands.antt =====
-- src/bin/upc.rs: the join of `forward_stdio`, and the connect and device commands with their exit codes.
pub mod Laws
pub mod Panics
use upc.Common.{
  ℕ, List, [], ◌∷◌, Bool, true, false, not, if◌then◌else◌, Option, none, some, ErrorKind, Result,
  ok, err, diverged,
}
use upc.Protocol.{vendor_specific}
use upc.Host.Options.{UpcOptions, new_options, with_topic, with_max_size}
use upc.Host.Connect.{Connection, connect_with}
use upc.Host.Connect as Host
use upc.Device.Sender.{UpcSender}
use upc.Device.Receiver.{UpcReceiver}
use upc.Device.Task.{Cfg, default_cfg}
use upc.Device.Function.{InterfaceId, new_id, with_name, with_guid, set_info, set_max_size}
use upc.Cli.Devices.{DeviceInfo, is_empty}
use upc.Cli.Select.{ConnectCmd, Selection, found, multiple, select}
use upc.Cli.Select as Select
use upc.Cli.Sender.{UpcSend, device_sender, host_sender}
use upc.Cli.Forward.{Framing, Input, send_fut}
use upc.Cli.Forward as Forward
use upc.Cli.Output.{Event, recv_fut}
use upc.Cli.Output as Output

-- How a future ends: as a success, with an error, by a panic, or not yet.
pub data Side : Type 0 where
  done : Side
  fails : ErrorKind → Side
  crashes : Side
  busy : Side

abbrev of_result : Result (Unit {0}) → Side
of_result (ok u) = done
of_result (err e) = fails e
of_result diverged = busy

abbrev pub send_side : {S : Type 0} → Forward.Outcome S → Side
send_side (Forward.Outcome.ended s) = of_result s.result
send_side Forward.Outcome.panicked = crashes
send_side (Forward.Outcome.waits s) = busy

abbrev pub recv_side : Output.Outcome → Side
recv_side (Output.Outcome.ended s) = of_result s.result
recv_side (Output.Outcome.waits s) = busy

-- `try_join!`; `send_first` tells which half came first where both end it.
unfoldable pub try_join : Bool → Side → Side → Side
try_join send_first (fails e) (fails f) = if send_first then fails e else fails f
try_join send_first crashes (fails f) = if send_first then crashes else fails f
try_join send_first (fails e) crashes = if send_first then fails e else crashes
try_join send_first (fails e) done = fails e
try_join send_first (fails e) busy = fails e
try_join send_first crashes done = crashes
try_join send_first crashes busy = crashes
try_join send_first crashes crashes = crashes
try_join send_first done other = other
try_join send_first busy done = busy
try_join send_first busy busy = busy
try_join send_first busy (fails f) = fails f
try_join send_first busy crashes = crashes

-- What happens during a connection: on stdin, on the receiver and stdout, and in which order it fails.
-- The note that stdin is closed is one of the events; when it comes is left open.
pub record Session : Type 0 where
  pub interactive : Bool
  pub inputs : List Input
  pub events : List (ℕ × Event)
  pub send_first : Bool

unfoldable pub forward_stdio :
    {S : Type 0} → ⦃sender : UpcSend S⦄ → S → Framing → Bool → Session → Side
unfolding try_join send_fut recv_fut
forward_stdio tx framing keep s =
    try_join s.send_first (send_side (send_fut framing keep s.interactive s.inputs tx))
      (recv_side (recv_fut keep s.events))

-- The end of the process, if it has ended.
pub data Exit : Type 0 where
  exit : ℕ → Exit
  panics : Exit
  running : Exit

abbrev pub failure : Exit
failure = exit 1

abbrev pub exit_code : Side → Exit
exit_code done = exit 0
exit_code (fails e) = failure
exit_code crashes = panics
exit_code busy = running

-- What the connect command finds; `devices` is `none` where the devices cannot be listed, and
-- `reopens` is whether the selected device opens.
pub record Bus : Type 0 where
  pub devices : Option (List DeviceInfo)
  pub probes : Select.Answers
  pub reopens : DeviceInfo → Bool
  pub answers : DeviceInfo → Host.Answers

unfoldable pub options : ConnectCmd → UpcOptions
unfolding new_options with_topic with_max_size
options cmd = with_max_size cmd.max_packet (with_topic cmd.topic new_options)

unfoldable pub on_connect : Framing → Session → Host.Outcome Connection → Exit
unfolding forward_stdio
on_connect framing session (Host.next conn) =
    exit_code (forward_stdio conn.sender framing false session)
on_connect framing session (Host.failed e) = failure
on_connect framing session Host.panicked = panics
on_connect framing session Host.waiting = running

unfoldable pub on_selection : ℕ → ConnectCmd → Framing → Bus → Session → Selection → Exit
unfolding options on_connect connect_with
on_selection usize_max cmd framing bus session multiple = failure
on_selection usize_max cmd framing bus session (found none) = failure
on_selection usize_max cmd framing bus session (found (some (dev, n))) =
    if not (bus.reopens dev)
    then failure
    else on_connect framing session ((connect_with usize_max (bus.answers dev) n (options cmd)).1)

unfoldable pub on_devices :
    ℕ → ConnectCmd → Framing → Bus → Session → Option (List DeviceInfo) → Exit
unfolding on_selection select
on_devices usize_max cmd framing bus session none = failure
on_devices usize_max cmd framing bus session (some devs) =
    on_selection usize_max cmd framing bus session (select cmd bus.probes devs)

unfoldable pub exec_connect : ℕ → ConnectCmd → Framing → Bus → Session → Exit
unfolding on_devices
exec_connect usize_max cmd framing bus session =
    on_devices usize_max cmd framing bus session bus.devices
