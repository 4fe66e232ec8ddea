-- ===== src/Cli/Scan.antt =====
-- src/bin/upc.rs: the scan and list commands; the rows that they print.
pub mod Laws
use upc.Common.{
  ℕ, ◌+◌, ◌-◌, List, [], ◌∷◌, ◌++◌, Bool, true, false, not, ◌&&◌, ◌||◌, ◌==◌, leb, ltb,
  if◌then◌else◌, Option, none, some, Result, ok, err, diverged,
}
use upc.Protocol.{Class}
use upc.Cli.Devices.{
  InterfaceInfo, DeviceInfo, Ids, DeviceFilter, matches_device, matches_interface, is_some,
  is_empty, is_vendor, vendor_ifaces,
}

-- The bytes that may come next in a text in UTF-8: ranges for those that the last character lacks.
abbrev pub Ranges : Type 0
Ranges = List (ℕ × ℕ)

abbrev pub tail : ℕ × ℕ
tail = (0x80, 0xbf)

-- What follows the first byte of a character; `none` where no character starts with it.
abbrev pub lead : ℕ → Option Ranges
lead b =
    if ltb b 0x80
    then some []
    else if leb 0xc2 b && leb b 0xdf
    then some (tail ∷ [])
    else if b == 0xe0
    then some ((0xa0, 0xbf) ∷ tail ∷ [])
    else if b == 0xed
    then some ((0x80, 0x9f) ∷ tail ∷ [])
    else if leb 0xe1 b && leb b 0xef
    then some (tail ∷ tail ∷ [])
    else if b == 0xf0
    then some ((0x90, 0xbf) ∷ tail ∷ tail ∷ [])
    else if leb 0xf1 b && leb b 0xf3
    then some (tail ∷ tail ∷ tail ∷ [])
    else if b == 0xf4
    then some ((0x80, 0x8f) ∷ tail ∷ tail ∷ [])
    else none

abbrev pub then_utf8 : Option Ranges → (Ranges → Bool) → Bool
then_utf8 none rest = false
then_utf8 (some rs) rest = rest rs

unfoldable pub is_utf8 : Ranges → List ℕ → Bool
is_utf8 [] [] = true
is_utf8 (r ∷ rs) [] = false
is_utf8 [] (b ∷ bs) = then_utf8 (lead b) (λ rs. is_utf8 rs bs)
is_utf8 ((low, high) ∷ rs) (b ∷ bs) = leb low b && (leb b high && is_utf8 rs bs)

-- `from_utf8(..).unwrap_or("")`.
unfoldable pub info_text : List ℕ → List ℕ
unfolding is_utf8
info_text bytes = if is_utf8 [] bytes then bytes else []

-- A printed line.
pub record Row : Type 0 where
  pub dev_info : DeviceInfo
  pub iface_num : ℕ
  pub subclass : ℕ
  pub info_str : List ℕ

pub record Answers : Type 0 where
  pub opens : DeviceInfo → Bool
  pub probe : DeviceInfo → ℕ → Result Bool
  pub info : DeviceInfo → ℕ → Result (List ℕ)

-- The subclass of the first interface with the number, and 0 without one.
unfoldable pub find_subclass : ℕ → List InterfaceInfo → ℕ
find_subclass n [] = 0
find_subclass n (i ∷ is) = if i.interface_number == n then i.class.sub_class else find_subclass n is

-- An info string that cannot be read is printed as an empty one.
abbrev pub read_info : Result (List ℕ) → List ℕ
read_info (ok bytes) = info_text bytes
read_info (err e) = []
read_info diverged = []

unfoldable pub on_probe : Answers → DeviceInfo → ℕ → Result Bool → List Row
unfolding find_subclass info_text
on_probe a dev n (ok true) =
    record {
      dev_info = dev;
      iface_num = n;
      subclass = find_subclass n dev.interfaces;
      info_str = read_info (a.info dev n);
    }
    ∷ []
on_probe a dev n (ok false) = []
on_probe a dev n (err e) = []
on_probe a dev n diverged = []

unfoldable pub scan_interfaces : Answers → DeviceInfo → List ℕ → List Row
unfolding on_probe
scan_interfaces a dev [] = []
scan_interfaces a dev (n ∷ ns) = on_probe a dev n (a.probe dev n) ++ scan_interfaces a dev ns

unfoldable pub scan_device : Ids → Answers → DeviceInfo → List Row
unfolding matches_device vendor_ifaces scan_interfaces
scan_device f a dev =
    if not (matches_device f dev)
    then []
    else if is_empty (vendor_ifaces dev.interfaces)
    then []
    else if not (a.opens dev)
    then []
    else scan_interfaces a dev (vendor_ifaces dev.interfaces)

unfoldable pub scan_rows : Ids → Answers → List DeviceInfo → List Row
unfolding scan_device
scan_rows f a [] = []
scan_rows f a (dev ∷ devs) = scan_device f a dev ++ scan_rows f a devs

-- The interfaces of the list command: vendor specific, or asked for by their number.
unfoldable pub list_ifaces : DeviceFilter → List InterfaceInfo → List ℕ
unfolding matches_interface
list_ifaces f [] = []
list_ifaces f (i ∷ is) =
    let rest = list_ifaces f is in
    if not (matches_interface f i)
    then rest
    else if is_vendor i || is_some f.interface
    then i.interface_number ∷ rest
    else rest

-- An interface whose info string cannot be read is left out.
unfoldable pub on_info : DeviceInfo → ℕ → Result (List ℕ) → List Row
unfolding find_subclass info_text
on_info dev n (ok bytes) =
    record {
      dev_info = dev;
      iface_num = n;
      subclass = find_subclass n dev.interfaces;
      info_str = info_text bytes;
    }
    ∷ []
on_info dev n (err e) = []
on_info dev n diverged = []

-- `dev` is whether the device is open; where it does not open, the loop is left.
unfoldable pub list_interfaces : Answers → DeviceInfo → Bool → List ℕ → List Row
unfolding on_info
list_interfaces a dev is_open [] = []
list_interfaces a dev is_open (n ∷ ns) =
    let rest = list_interfaces a dev true ns in
    if is_open || a.opens dev then on_info dev n (a.info dev n) ++ rest else []

unfoldable pub list_device : DeviceFilter → Answers → DeviceInfo → List Row
unfolding matches_device list_ifaces list_interfaces
list_device f a dev =
    if not (matches_device f.ids dev)
    then []
    else list_interfaces a dev false (list_ifaces f dev.interfaces)

unfoldable pub list_rows : DeviceFilter → Answers → List DeviceInfo → List Row
unfolding list_device
list_rows f a [] = []
list_rows f a (dev ∷ devs) = list_device f a dev ++ list_rows f a devs

-- The note that nothing was found.
unfoldable pub no_interfaces : Bool → List Row → Bool
no_interfaces verbose found = is_empty found && not verbose
