-- ===== src/Cli/Commands/Panics.antt =====
-- The connect command towards a device that takes no byte.
use upc.Common.{ℕ, ◌≡◌, ap, ◌∙◌, List, [], ◌∷◌, true, false, some}
use upc.Host.Connect.{Connection, connect_with, next}
use upc.Cli.Devices.{DeviceInfo}
use upc.Cli.Select.{ConnectCmd, found, select}
use upc.Cli.Sender.{host_sender}
use upc.Cli.Forward.{Input, line, got, send_fut}
use upc.Cli.Forward.Laws.{zero_size-panics}
use upc.Cli.Output.{recv_fut}
use upc.Cli.Commands.{
  Session, panics, crashes, Bus, options, try_join, send_side, recv_side, forward_stdio, exit_code,
  on_connect, on_selection, on_devices, exec_connect,
}

-- The first line, with nothing received yet.
forward_panics :
    (conn : Connection) (session : Session) (l : List ℕ) (later : List Input)
    → conn.sender.max_size ≡ 0
    → session.inputs ≡ got l ∷ later
    → session.events ≡ []
    → forward_stdio conn.sender line false session ≡ crashes
unfolding forward_stdio try_join recv_fut upc.Cli.Output.recv_loop
forward_panics conn session l later zero_size typed silent =
    ap (λ o. try_join session.send_first (send_side o) (recv_side (recv_fut false session.events)))
      (ap (λ is. send_fut line false session.interactive is conn.sender) typed
        ∙ zero_size-panics false session.interactive l later conn.sender zero_size)
    ∙ ap (λ es. try_join session.send_first crashes (recv_side (recv_fut false es))) silent

-- Where the connect command reaches a device whose announced maximum is 0, splits stdin into lines
-- and has received nothing, the first line on stdin is a panic.
pub exec_connect-panics :
    (usize_max : ℕ) (cmd : ConnectCmd) (bus : Bus) (session : Session) (devs : List DeviceInfo)
    (dev : DeviceInfo) (n : ℕ) (conn : Connection) (l : List ℕ) (later : List Input)
    → bus.devices ≡ some devs
    → select cmd bus.probes devs ≡ found (some (dev, n))
    → bus.reopens dev ≡ true
    → (connect_with usize_max (bus.answers dev) n (options cmd)).1 ≡ next conn
    → conn.sender.max_size ≡ 0
    → session.inputs ≡ got l ∷ later
    → session.events ≡ []
    → exec_connect usize_max cmd line bus session ≡ panics
unfolding exec_connect on_devices on_selection on_connect
exec_connect-panics usize_max cmd bus session devs dev n conn l later listed selected opened
      connected zero_size typed silent =
    rw (listed, selected, opened, connected)
      (ap exit_code (forward_panics conn session l later zero_size typed silent))
