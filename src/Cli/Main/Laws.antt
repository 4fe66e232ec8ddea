-- ===== src/Cli/Main/Laws.antt =====
-- The exit codes of the tool.
use upc.Common.{
  ℕ, List, [], ◌∷◌, Bool, true, false, not, Option, none, some, Result, ok, err, diverged,
  if◌then◌else◌,
}
use upc.Device.Sender.{UpcSender}
use upc.Device.Task.{Cfg}
use upc.Device.Function.{InterfaceId}
use upc.Host.Connect.{Connection, connect_with}
use upc.Host.Connect as Host
use upc.Cli.Devices.{DeviceInfo, Ids, DeviceFilter}
use upc.Cli.Select.{ConnectCmd, Selection, found, multiple, select}
use upc.Cli.Sender.{host_sender, device_sender}
use upc.Cli.Forward.{Framing}
use upc.Cli.Commands.{
  Side, done, fails, crashes, busy, forward_stdio, Exit, exit, panics, running, exit_code, Bus,
  Session, options, on_connect, on_selection, on_devices, exec_connect,
}
use upc.Cli.DeviceCmd.{
  DeviceCmd, Visit, on_end, on_accept, serve, bound, with_id, configure, identify, exec_device,
}
use upc.Cli.Print.ScanCmd.{exec_scan}
use upc.Cli.Print.ListCmd.{exec_list}
use upc.Cli.Main.{Command, scan, list, connect, device, Cli, World, main}

-- The process ends with 0 or 1, in a panic, or runs on.
pub data IsCode : Exit → Type 0 where
  success : IsCode (exit 0)
  failed : IsCode (exit 1)
  panicked : IsCode panics
  runs : IsCode running

if-IsCode : (b : Bool) {x y : Exit} → IsCode x → IsCode y → IsCode (if b then x else y)
if-IsCode true x y = x
if-IsCode false x y = y

exit_code-IsCode : (side : Side) → IsCode (exit_code side)
exit_code-IsCode done = success
exit_code-IsCode (fails e) = failed
exit_code-IsCode crashes = panicked
exit_code-IsCode busy = runs

on_connect-IsCode :
    (framing : Framing) (session : Session) (o : Host.Outcome Connection)
    → IsCode (on_connect framing session o)
unfolding on_connect
on_connect-IsCode framing session (Host.next conn) =
    exit_code-IsCode (forward_stdio conn.sender framing false session)
on_connect-IsCode framing session (Host.failed e) = failed
on_connect-IsCode framing session Host.panicked = panicked
on_connect-IsCode framing session Host.waiting = runs

on_selection-IsCode :
    (usize_max : ℕ) (cmd : ConnectCmd) (framing : Framing) (bus : Bus) (session : Session)
    (s : Selection)
    → IsCode (on_selection usize_max cmd framing bus session s)
unfolding on_selection
on_selection-IsCode usize_max cmd framing bus session multiple = failed
on_selection-IsCode usize_max cmd framing bus session (found none) = failed
on_selection-IsCode usize_max cmd framing bus session (found (some (dev, n))) =
    if-IsCode (not (bus.reopens dev)) failed (
      on_connect-IsCode framing session
        ((connect_with usize_max (bus.answers dev) n (options cmd)).1))

on_devices-IsCode :
    (usize_max : ℕ) (cmd : ConnectCmd) (framing : Framing) (bus : Bus) (session : Session)
    (devices : Option (List DeviceInfo))
    → IsCode (on_devices usize_max cmd framing bus session devices)
unfolding on_devices
on_devices-IsCode usize_max cmd framing bus session none = failed
on_devices-IsCode usize_max cmd framing bus session (some devs) =
    on_selection-IsCode usize_max cmd framing bus session (select cmd bus.probes devs)

on_end-IsCode :
    (keep : Bool) (side : Side) (later : Exit) → IsCode later → IsCode (on_end keep side later)
on_end-IsCode true done later c = c
on_end-IsCode false done later c = success
on_end-IsCode true (fails e) later c = c
on_end-IsCode false (fails e) later c = failed
on_end-IsCode true crashes later c = panicked
on_end-IsCode false crashes later c = panicked
on_end-IsCode true busy later c = runs
on_end-IsCode false busy later c = runs

on_accept-IsCode :
    (framing : Framing) (keep : Bool) (accepted : Result UpcSender) (session : Session)
    (later : Exit)
    → IsCode later
    → IsCode (on_accept framing keep accepted session later)
unfolding on_accept
on_accept-IsCode framing keep (ok tx) session later c =
    on_end-IsCode keep (forward_stdio tx framing keep session) later c
on_accept-IsCode framing keep (err e) session later c = failed
on_accept-IsCode framing keep diverged session later c = runs

serve-IsCode : (framing : Framing) (keep : Bool) (vs : List Visit) → IsCode (serve framing keep vs)
unfolding serve
serve-IsCode framing keep [] = runs
serve-IsCode framing keep (v ∷ vs) =
    on_accept-IsCode framing keep v.accepted v.session (serve framing keep vs)
      (serve-IsCode framing keep vs)

module _ (parse_str : List ℕ → Option ℕ) (has_udc binds : Bool) (cmd : DeviceCmd)
    (visits : List Visit) where
  bound-IsCode : (cfg : Option Cfg) → IsCode (bound parse_str has_udc binds cmd visits cfg)
  bound-IsCode none = panicked
  bound-IsCode (some cfg) =
      if-IsCode (not has_udc) failed
        (if-IsCode (not binds) failed (serve-IsCode cmd.framing cmd.keep visits))

  with_id-IsCode :
      (id : Option InterfaceId) → IsCode (with_id parse_str has_udc binds cmd visits id)
  unfolding with_id
  with_id-IsCode none = failed
  with_id-IsCode (some id) = bound-IsCode (configure cmd)

listed-IsCode :
    (w : World) (verbose : Bool) (f : Ids) (g : DeviceFilter) (devices : Option (List DeviceInfo))
    → IsCode (exec_scan verbose w.responses w.texts f devices).1
      × IsCode (exec_list verbose w.responses w.texts g devices).1
unfolding exec_scan exec_list
listed-IsCode w verbose f g none = (failed, failed)
listed-IsCode w verbose f g (some devs) = (success, success)

abbrev every : DeviceFilter
every = record {
  ids = record { vid = none; pid = none; serial = none; bus = none; address = none };
  interface = none;
  subclass = none;
  protocol = none;
}

command-IsCode :
    (w : World) (verbose : Bool) (c : Command)
    → IsCode (main w (record { verbose = verbose; command = c })).1
unfolding main exec_connect exec_device
command-IsCode w verbose (scan f) = (listed-IsCode w verbose f every w.bus.devices).0
command-IsCode w verbose (list f) = (listed-IsCode w verbose f.ids f w.bus.devices).1
command-IsCode w verbose (connect cmd framing) =
    on_devices-IsCode w.usize_max cmd framing w.bus w.session w.bus.devices
command-IsCode w verbose (device cmd) =
    with_id-IsCode w.parse_str w.has_udc w.binds cmd w.visits
      (identify w.parse_str w.has_udc w.binds cmd)

-- Whatever the command meets, the tool ends with the code 0 or 1, or in a panic, or it runs on.
main-IsCode : (w : World) (cli : Cli) → IsCode (main w cli).1
main-IsCode w cli = command-IsCode w cli.verbose cli.command
