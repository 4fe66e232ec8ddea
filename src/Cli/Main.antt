-- ===== src/Cli/Main.antt =====
-- src/bin/upc.rs: `Cli`, its commands, and `main` behind the parser of the arguments.
pub mod Laws
use upc.Common.{ℕ, List, [], Bool, Option}
use upc.Cli.Devices.{DeviceInfo, Ids, DeviceFilter}
use upc.Cli.Select.{ConnectCmd}
use upc.Cli.Scan.{Answers}
use upc.Cli.Forward.{Framing}
use upc.Cli.Commands.{Exit, Bus, Session, exec_connect}
use upc.Cli.DeviceCmd.{DeviceCmd, Visit, exec_device}
use upc.Cli.Print.{Line, Texts}
use upc.Cli.Print.ScanCmd.{exec_scan}
use upc.Cli.Print.ListCmd.{exec_list}

pub data Command : Type 0 where
  scan : Ids → Command
  list : DeviceFilter → Command
  connect : ConnectCmd → Framing → Command
  device : DeviceCmd → Command

pub record Cli : Type 0 where
  pub verbose : Bool
  pub command : Command

-- What the commands meet: the devices on the bus, with the info strings that they answer and the texts
-- of nusb, what happens during a session, the connections that come to a device, and the library for
-- the GUID and the USB controller of a device.
pub record World : Type 0 where
  pub usize_max : ℕ
  pub bus : Bus
  pub responses : Answers
  pub texts : Texts
  pub session : Session
  pub visits : List Visit
  pub parse_str : List ℕ → Option ℕ
  pub has_udc : Bool
  pub binds : Bool

-- The lines of scan and list, and how the process ends.
unfoldable pub main : World → Cli → List Line × Exit
unfolding exec_scan exec_list exec_connect exec_device
main w cli = elim cli.command [
  | scan f ↦ exec_scan cli.verbose w.responses w.texts f w.bus.devices
  | list f ↦ exec_list cli.verbose w.responses w.texts f w.bus.devices
  | connect cmd framing ↦ ([], exec_connect w.usize_max cmd framing w.bus w.session)
  | device cmd ↦ ([], exec_device w.parse_str w.has_udc w.binds cmd w.visits)
]
