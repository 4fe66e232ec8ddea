-- ===== src/Cli/Texts.antt =====
-- src/bin/upc.rs: the fixed texts of the output of scan and list, as their bytes.
use upc.Common.{ℕ, List, [], ◌∷◌}

-- "Device "
abbrev pub device_word : List ℕ
device_word = b'D' ∷ b'e' ∷ b'v' ∷ b'i' ∷ b'c' ∷ b'e' ∷ 32 ∷ []

-- " on "
abbrev pub on_word : List ℕ
on_word = 32 ∷ b'o' ∷ b'n' ∷ 32 ∷ []

-- " - "
abbrev pub dash : List ℕ
dash = 32 ∷ 45 ∷ 32 ∷ []

-- " (serial: "
abbrev pub serial_open : List ℕ
serial_open = 32 ∷ 40 ∷ b's' ∷ b'e' ∷ b'r' ∷ b'i' ∷ b'a' ∷ b'l' ∷ 58 ∷ 32 ∷ []

-- "  Interface "
abbrev pub interface_word : List ℕ
interface_word = 32 ∷ 32 ∷ b'I' ∷ b'n' ∷ b't' ∷ b'e' ∷ b'r' ∷ b'f' ∷ b'a' ∷ b'c' ∷ b'e' ∷ 32 ∷ []

-- ": class="
abbrev pub class_is : List ℕ
class_is = 58 ∷ 32 ∷ b'c' ∷ b'l' ∷ b'a' ∷ b's' ∷ b's' ∷ 61 ∷ []

-- " subclass="
abbrev pub subclass_is : List ℕ
subclass_is = 32 ∷ b's' ∷ b'u' ∷ b'b' ∷ b'c' ∷ b'l' ∷ b'a' ∷ b's' ∷ b's' ∷ 61 ∷ []

-- " protocol="
abbrev pub protocol_is : List ℕ
protocol_is = 32 ∷ b'p' ∷ b'r' ∷ b'o' ∷ b't' ∷ b'o' ∷ b'c' ∷ b'o' ∷ b'l' ∷ 61 ∷ []

-- "    UPC interface "
abbrev pub upc_interface : List ℕ
upc_interface =
    32 ∷ 32 ∷ 32 ∷ 32 ∷ b'U' ∷ b'P' ∷ b'C' ∷ 32 ∷ b'i' ∷ b'n' ∷ b't' ∷ b'e' ∷ b'r' ∷ b'f' ∷ b'a'
    ∷ b'c' ∷ b'e' ∷ 32 ∷ []

-- "    Interface "
abbrev pub indented_interface : List ℕ
indented_interface =
    32 ∷ 32 ∷ 32 ∷ 32 ∷ b'I' ∷ b'n' ∷ b't' ∷ b'e' ∷ b'r' ∷ b'f' ∷ b'a' ∷ b'c' ∷ b'e' ∷ 32 ∷ []

-- ": not UPC"
abbrev pub not_upc : List ℕ
not_upc = 58 ∷ 32 ∷ b'n' ∷ b'o' ∷ b't' ∷ 32 ∷ b'U' ∷ b'P' ∷ b'C' ∷ []

-- ": probe failed ("
abbrev pub probe_failed : List ℕ
probe_failed =
    58 ∷ 32 ∷ b'p' ∷ b'r' ∷ b'o' ∷ b'b' ∷ b'e' ∷ 32 ∷ b'f' ∷ b'a' ∷ b'i' ∷ b'l' ∷ b'e' ∷ b'd' ∷ 32
    ∷ 40 ∷ []

-- "    UPC info: "
abbrev pub upc_info : List ℕ
upc_info = 32 ∷ 32 ∷ 32 ∷ 32 ∷ b'U' ∷ b'P' ∷ b'C' ∷ 32 ∷ b'i' ∷ b'n' ∷ b'f' ∷ b'o' ∷ 58 ∷ 32 ∷ []

-- "Cannot open "
abbrev pub cannot_open : List ℕ
cannot_open = b'C' ∷ b'a' ∷ b'n' ∷ b'n' ∷ b'o' ∷ b't' ∷ 32 ∷ b'o' ∷ b'p' ∷ b'e' ∷ b'n' ∷ 32 ∷ []

-- "Cannot open device "
abbrev pub cannot_open_device : List ℕ
cannot_open_device =
    b'C' ∷ b'a' ∷ b'n' ∷ b'n' ∷ b'o' ∷ b't' ∷ 32 ∷ b'o' ∷ b'p' ∷ b'e' ∷ b'n' ∷ 32 ∷ b'd' ∷ b'e'
    ∷ b'v' ∷ b'i' ∷ b'c' ∷ b'e' ∷ 32 ∷ []

-- "Cannot read UPC info on "
abbrev pub cannot_read : List ℕ
cannot_read =
    b'C' ∷ b'a' ∷ b'n' ∷ b'n' ∷ b'o' ∷ b't' ∷ 32 ∷ b'r' ∷ b'e' ∷ b'a' ∷ b'd' ∷ 32 ∷ b'U' ∷ b'P'
    ∷ b'C' ∷ 32 ∷ b'i' ∷ b'n' ∷ b'f' ∷ b'o' ∷ 32 ∷ b'o' ∷ b'n' ∷ 32 ∷ []

-- " interface "
abbrev pub interface_infix : List ℕ
interface_infix = 32 ∷ b'i' ∷ b'n' ∷ b't' ∷ b'e' ∷ b'r' ∷ b'f' ∷ b'a' ∷ b'c' ∷ b'e' ∷ 32 ∷ []

-- ": "
abbrev pub separator : List ℕ
separator = 58 ∷ 32 ∷ []

-- "No UPC interfaces found."
abbrev pub nothing_found : List ℕ
nothing_found =
    b'N' ∷ b'o' ∷ 32 ∷ b'U' ∷ b'P' ∷ b'C' ∷ 32 ∷ b'i' ∷ b'n' ∷ b't' ∷ b'e' ∷ b'r' ∷ b'f' ∷ b'a'
    ∷ b'c' ∷ b'e' ∷ b's' ∷ 32 ∷ b'f' ∷ b'o' ∷ b'u' ∷ b'n' ∷ b'd' ∷ 46 ∷ []

-- "Cannot enumerate USB devices: "
abbrev pub cannot_enumerate : List ℕ
cannot_enumerate =
    b'C' ∷ b'a' ∷ b'n' ∷ b'n' ∷ b'o' ∷ b't' ∷ 32 ∷ b'e' ∷ b'n' ∷ b'u' ∷ b'm' ∷ b'e' ∷ b'r' ∷ b'a'
    ∷ b't' ∷ b'e' ∷ 32 ∷ b'U' ∷ b'S' ∷ b'B' ∷ 32 ∷ b'd' ∷ b'e' ∷ b'v' ∷ b'i' ∷ b'c' ∷ b'e' ∷ b's'
    ∷ 58 ∷ 32 ∷ []
