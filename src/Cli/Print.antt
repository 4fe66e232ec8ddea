-- ===== src/Cli/Print.antt =====
-- src/bin/upc.rs: the lines that scan and list print, and the formats in them.
pub mod ScanCmd
pub mod ListCmd
pub mod Laws
use upc.Common.{
  ℕ, ◌+◌, ◌/◌, ◌%◌, List, [], ◌∷◌, ◌++◌, Bool, false, ltb, if◌then◌else◌, Option, none, some, ◌||◌,
}
use upc.Cli.Hex.{format_u16, format_u8}
use upc.Cli.Devices.{InterfaceInfo, DeviceInfo}
use upc.Cli.Scan.{Row}
use upc.Cli.Texts.{
  device_word, on_word, dash, serial_open, interface_word, class_is, subclass_is, protocol_is,
}

-- A line on stdout, or on stderr.
pub data Line : Type 0 where
  out note : List ℕ → Line

-- The lines so far, and the flag `found`.
pub record Report : Type 0 where
  pub lines : List Line
  pub found : Bool

abbrev pub no_report : Report
no_report = record { lines = []; found = false }

abbrev pub only_lines : List Line → Report
only_lines ls = record { lines = ls; found = false }

infixr 5 ◌and_then◌
abbrev pub ◌and_then◌ : Report → Report → Report
r and_then s = record { lines = r.lines ++ s.lines; found = r.found || s.found }

-- What nusb tells beyond `DeviceInfo`, and how its errors are displayed.
pub record Texts : Type 0 where
  pub manufacturer_string : DeviceInfo → Option (List ℕ)
  pub product_string : DeviceInfo → Option (List ℕ)
  pub interface_string : InterfaceInfo → Option (List ℕ)
  pub list_error : List ℕ
  pub open_error : DeviceInfo → List ℕ
  pub probe_error : DeviceInfo → ℕ → List ℕ
  pub info_error : DeviceInfo → ℕ → List ℕ

abbrev pub tab : List ℕ
tab = 9 ∷ []

abbrev pub colon : List ℕ
colon = 58 ∷ []

abbrev digit : ℕ → ℕ
digit d = b'0' + d

-- The format `{}` of a u8, and `{:03}`.
unfoldable pub format_padded : ℕ → List ℕ
format_padded n = digit (n / 100) ∷ digit (n / 10 % 10) ∷ digit (n % 10) ∷ []

unfoldable pub format_decimal : ℕ → List ℕ
unfolding format_padded
format_decimal n =
    if ltb n 10
    then digit n ∷ []
    else if ltb n 100
    then digit (n / 10) ∷ digit (n % 10) ∷ []
    else format_padded n

abbrev pub unwrap_or : Option (List ℕ) → List ℕ → List ℕ
unwrap_or none default = default
unwrap_or (some text) default = text

abbrev enclosed : List ℕ → Option (List ℕ) → List ℕ → List ℕ
enclosed before none behind = []
enclosed before (some text) behind = before ++ text ++ behind

-- `{:04x}:{:04x}`
unfoldable pub format_ids : DeviceInfo → List ℕ
unfolding format_u16
format_ids dev = format_u16 dev.vendor_id ++ colon ++ format_u16 dev.product_id

-- `{}:{:03}`
unfoldable pub format_location : DeviceInfo → List ℕ
unfolding format_padded
format_location dev = dev.bus_id ++ colon ++ format_padded dev.device_address

-- A row: fields with tabs in between.
unfoldable pub print_row : Row → List ℕ
unfolding format_ids format_location format_decimal format_u8
print_row row =
    format_ids row.dev_info
    ++ tab
    ++ format_location row.dev_info
    ++ tab
    ++ unwrap_or row.dev_info.serial_number []
    ++ tab
    ++ format_decimal row.iface_num
    ++ tab
    ++ format_u8 row.subclass
    ++ tab
    ++ row.info_str

unfoldable pub device_line : Texts → DeviceInfo → List ℕ
unfolding format_ids format_location
device_line t dev =
    device_word
    ++ format_ids dev
    ++ on_word
    ++ format_location dev
    ++ dash
    ++ unwrap_or (t.manufacturer_string dev) (b'?' ∷ [])
    ++ (32 ∷ [])
    ++ unwrap_or (t.product_string dev) (b'?' ∷ [])
    ++ enclosed serial_open dev.serial_number (41 ∷ [])

unfoldable pub interface_line : Texts → InterfaceInfo → List ℕ
unfolding format_decimal format_u8
interface_line t iface =
    interface_word
    ++ format_decimal iface.interface_number
    ++ class_is
    ++ format_u8 iface.class.class
    ++ subclass_is
    ++ format_u8 iface.class.sub_class
    ++ protocol_is
    ++ format_u8 iface.class.protocol
    ++ enclosed (32 ∷ 34 ∷ []) (t.interface_string iface) (34 ∷ [])
