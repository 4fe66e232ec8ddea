-- ===== src/Cli/Devices.antt =====
-- src/bin/upc.rs: the filters of the tool's commands.
use upc.Common.{ℕ, List, [], ◌∷◌, Bool, true, false, not, ◌==◌, if◌then◌else◌, Option, none, some}
use upc.Protocol.{Class, vendor_specific_code}
use upc.Host.Interfaces.{same_bytes}

-- What nusb tells of an interface and of a device; a text is the list of its bytes.
pub record InterfaceInfo : Type 0 where
  pub interface_number : ℕ
  pub class : Class

pub record DeviceInfo : Type 0 where
  pub vendor_id : ℕ
  pub product_id : ℕ
  pub serial_number : Option (List ℕ)
  pub bus_id : List ℕ
  pub device_address : ℕ
  pub interfaces : List InterfaceInfo

-- The filters that all commands of the host have.
pub record Ids : Type 0 where
  pub vid : Option ℕ
  pub pid : Option ℕ
  pub serial : Option (List ℕ)
  pub bus : Option (List ℕ)
  pub address : Option ℕ

abbrev pub agrees : Option ℕ → ℕ → Bool
agrees none n = true
agrees (some m) n = n == m

abbrev pub agrees_bytes : Option (List ℕ) → List ℕ → Bool
agrees_bytes none s = true
agrees_bytes (some t) s = same_bytes s t

abbrev pub agrees_serial : Option (List ℕ) → Option (List ℕ) → Bool
agrees_serial none s = true
agrees_serial (some t) none = false
agrees_serial (some t) (some s) = same_bytes s t

-- `matches_device`, which the commands repeat.
unfoldable pub matches_device : Ids → DeviceInfo → Bool
unfolding same_bytes
matches_device f dev =
    if not (agrees f.vid dev.vendor_id)
    then false
    else if not (agrees f.pid dev.product_id)
    then false
    else if not (agrees_serial f.serial dev.serial_number)
    then false
    else if not (agrees_bytes f.bus dev.bus_id)
    then false
    else if not (agrees f.address dev.device_address)
    then false
    else true

-- The options of the list command.
pub record DeviceFilter : Type 0 where
  pub ids : Ids
  pub interface : Option ℕ
  pub subclass : Option ℕ
  pub protocol : Option ℕ

unfoldable pub matches_interface : DeviceFilter → InterfaceInfo → Bool
matches_interface f iface =
    if not (agrees f.interface iface.interface_number)
    then false
    else if not (agrees f.subclass iface.class.sub_class)
    then false
    else if not (agrees f.protocol iface.class.protocol)
    then false
    else true

abbrev pub is_some : {A : Type 0} → Option A → Bool
is_some none = false
is_some (some a) = true

abbrev pub is_vendor : InterfaceInfo → Bool
is_vendor iface = iface.class.class == vendor_specific_code

-- The numbers of the vendor-specific interfaces.
unfoldable pub vendor_ifaces : List InterfaceInfo → List ℕ
vendor_ifaces [] = []
vendor_ifaces (iface ∷ is) =
    let rest = vendor_ifaces is in if is_vendor iface then iface.interface_number ∷ rest else rest

abbrev pub is_empty : {A : Type 0} → List A → Bool
is_empty [] = true
is_empty (a ∷ rest) = false
