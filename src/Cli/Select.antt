-- ===== src/Cli/Select.antt =====
-- src/bin/upc.rs: how the connect command selects an interface.
pub mod Laws
use upc.Common.{
  ℕ, List, [], ◌∷◌, Bool, true, false, not, ◌&&◌, ◌||◌, ◌==◌, if◌then◌else◌, Option, none, some,
  Result, ok, err, diverged,
}
use upc.Protocol.{Class}
use upc.Cli.Devices.{
  InterfaceInfo, DeviceInfo, Ids, agrees, matches_device, is_some, is_vendor, is_empty,
  vendor_ifaces,
}

pub record ConnectCmd : Type 0 where
  pub ids : Ids
  pub interface : Option ℕ
  pub subclass : Option ℕ
  pub protocol : Option ℕ
  pub topic : List ℕ
  pub max_packet : ℕ

-- A device with one of its interfaces.
abbrev pub Candidate : Type 0
Candidate = DeviceInfo × ℕ

-- The variable `found`, or the return that a second match makes.
pub data Selection : Type 0 where
  found : Option Candidate → Selection
  multiple : Selection

unfoldable pub has_class_filter : ConnectCmd → Bool
has_class_filter cmd = is_some cmd.interface || (is_some cmd.subclass || is_some cmd.protocol)

abbrev pub default_protocol : ℕ
default_protocol = 132

abbrev pub unwrap_or : Option ℕ → ℕ → ℕ
unwrap_or none n = n
unwrap_or (some m) n = m

-- A match, with what is found so far.
unfoldable pub add : Candidate → Selection → Selection
add c (found none) = found (some c)
add c (found (some d)) = multiple
add c multiple = multiple

-- The body of the loop over the interfaces, where class filters are given.
unfoldable pub on_interface : ConnectCmd → DeviceInfo → InterfaceInfo → Selection → Selection
unfolding add
on_interface cmd dev iface s =
    if not (agrees cmd.interface iface.interface_number)
    then s
    else if not (agrees cmd.subclass iface.class.sub_class)
    then s
    else if not (iface.class.protocol == unwrap_or cmd.protocol default_protocol)
    then s
    else if is_vendor iface || is_some cmd.interface
    then add (dev, iface.interface_number) s
    else s

unfoldable pub on_interfaces : ConnectCmd → DeviceInfo → List InterfaceInfo → Selection → Selection
unfolding on_interface
on_interfaces cmd dev [] s = s
on_interfaces cmd dev (iface ∷ is) s = on_interfaces cmd dev is (on_interface cmd dev iface s)

unfoldable pub by_class : ConnectCmd → List DeviceInfo → Selection → Selection
unfolding on_interfaces matches_device
by_class cmd [] s = s
by_class cmd (dev ∷ devs) s =
    by_class cmd devs
      (if not (matches_device cmd.ids dev) then s else on_interfaces cmd dev dev.interfaces s)

-- What the devices answer: whether a device opens, and what its interfaces answer to a probe.
pub record Answers : Type 0 where
  pub opens : DeviceInfo → Bool
  pub probe : DeviceInfo → ℕ → Result Bool

unfoldable pub on_probe : Candidate → Result Bool → Selection → Selection
unfolding add
on_probe c (ok true) s = add c s
on_probe c (ok false) s = s
on_probe c (err e) s = s
on_probe c diverged s = s

unfoldable pub on_probes : Answers → DeviceInfo → List ℕ → Selection → Selection
unfolding on_probe
on_probes a dev [] s = s
on_probes a dev (n ∷ ns) s = on_probes a dev ns (on_probe (dev, n) (a.probe dev n) s)

-- A device, where no class filter is given.
unfoldable pub on_device : ConnectCmd → Answers → DeviceInfo → Selection → Selection
unfolding matches_device vendor_ifaces on_probes
on_device cmd a dev s =
    if not (matches_device cmd.ids dev)
    then s
    else if is_empty (vendor_ifaces dev.interfaces)
    then s
    else if not (a.opens dev)
    then s
    else on_probes a dev (vendor_ifaces dev.interfaces) s

unfoldable pub by_probe : ConnectCmd → Answers → List DeviceInfo → Selection → Selection
unfolding on_device
by_probe cmd a [] s = s
by_probe cmd a (dev ∷ devs) s = by_probe cmd a devs (on_device cmd a dev s)

unfoldable pub select : ConnectCmd → Answers → List DeviceInfo → Selection
unfolding has_class_filter by_class by_probe
select cmd a devs =
    if has_class_filter cmd
    then by_class cmd devs (found none)
    else by_probe cmd a devs (found none)
