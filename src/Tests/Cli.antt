-- ===== src/Tests/Cli.antt =====
-- The command-line tool on concrete inputs.
use upc.Common.{
  ℕ, zero, suc, Bool, ◌+◌, ◌≡◌, ◌↔◌, refl, List, [], ◌∷◌, ◌++◌, map, true, false, none, some, arith,
  Result, ok,
}
use upc.Common.Lists.{concat, All}
use upc.Device.Sender.{UpcSender}
use upc.Host.Connect.{Connection, connect_with}
use upc.Cli.Devices.{DeviceInfo}
use upc.Cli.Select.{ConnectCmd, found, multiple, select, has_class_filter}
use upc.Cli.Select.Laws.{only, candidates, select-only}
use upc.Cli.Scan.{Answers, scan_rows}
use upc.Cli.Scan.Laws.{answers, candidate, connect-scan}
use upc.Cli.Sender.{device_sender}
use upc.Cli.Forward as Forward
use upc.Cli.Forward.{raw, line, got, eof, closed, send_fut, finish, leave}
use upc.Cli.Forward.Chunks.{lines, with_newline, Fits}
use upc.Cli.Forward.Laws.{forward-lines, send_early-return}
use upc.Cli.Output.{idle_timeout, tick, stdin_closed, recv_fut}
use upc.Cli.Output as Output
use upc.Cli.Output.Laws.{Arrival, events, packets, recv_fut-idle}
use upc.Cli.Commands.{Session, exit, Bus, exec_connect}
use upc.Cli.Commands.Laws.{Forwarded, exec_connect-done}
use upc.Cli.Hex.{parse_hex_u16}
use upc.Caps.Device
use upc.Host.Connect
use upc.Host.Connect.{next}
use upc.Host.Interfaces
use upc.Cli.Commands.{panics, options}
use upc.Cli.Commands.Panics.{exec_connect-panics}
use upc.Tests.Host as Host

-- Two devices: the second has one interface that is UPC, and one that is not.
abbrev mouse : DeviceInfo
mouse = record {
  vendor_id = 0x1234;
  product_id = 1;
  serial_number = none;
  bus_id = 1 ∷ [];
  device_address = 4;
  interfaces =
      record { interface_number = 0; class = record { class = 3; sub_class = 1; protocol = 2 } }
      ∷ [];
}

abbrev gadget : DeviceInfo
gadget = record {
  vendor_id = 0x1209;
  product_id = 1;
  serial_number = some (7 ∷ []);
  bus_id = 1 ∷ [];
  device_address = 5;
  interfaces =
      record { interface_number = 0; class = record { class = 255; sub_class = 1; protocol = 2 } }
      ∷ record {
        interface_number = 1;
        class = record { class = 255; sub_class = 0; protocol = 132 };
      }
      ∷ [];
}

abbrev pub devices : List DeviceInfo
devices = mouse ∷ gadget ∷ []

abbrev cmd : ConnectCmd
cmd = record {
  ids = record { vid = some 0x1209; pid = none; serial = none; bus = none; address = none };
  interface = none;
  subclass = none;
  protocol = none;
  topic = 7 ∷ [];
  max_packet = 1_000;
}

abbrev is_one : ℕ → Result Bool
is_one zero = ok false
is_one (suc n) = ok true

abbrev pub responses : Answers
responses = record {
  opens = λ dev. true;
  probe = λ dev n. is_one n;
  info = λ dev n. ok (b'h' ∷ b'i' ∷ []);
}

selected : select cmd (answers responses) devices ≡ found (some (gadget, 1))
unfolding select has_class_filter upc.Cli.Select.by_probe
selected = refl

no_class_filter : has_class_filter cmd ≡ false
unfolding has_class_filter
no_class_filter = refl

select-only_example :
    select cmd (answers responses) devices ≡ only (candidates cmd (answers responses) devices)
select-only_example = select-only cmd (answers responses) devices

connect-scan_example :
    select cmd (answers responses) devices
    ≡ only (map candidate (scan_rows cmd.ids responses devices))
connect-scan_example = connect-scan cmd responses devices no_class_filter

abbrev tx : UpcSender
tx = record { tx = []; tx_closed = false; error = none; max_size = 2 }

abbrev typed : List (List ℕ)
typed = (1 ∷ 2 ∷ 3 ∷ []) ∷ [] ∷ []

forward-lines_example :
    (ps : List (List ℕ)) × (t : UpcSender) × (send_fut line false true (lines typed) tx
      ≡ finish false true (ok tt) t)
    × (t.tx ≡ [] ++ ps)
    × (concat ps ≡ concat (map with_newline typed))
    × All (Fits 2) ps
forward-lines_example = forward-lines false true typed tx refl (omega arith)

abbrev gone : UpcSender
gone = record { tx = []; tx_closed = true; error = none; max_size = 2 }

send_early-return_example :
    (send_fut line false true (got (1 ∷ []) ∷ []) gone ≡ leave (ok tt) gone)
    × (send_fut line false true (closed ∷ []) gone ≡ finish false true (ok tt) gone)
send_early-return_example = send_early-return false true (1 ∷ []) [] gone refl refl (omega arith)

abbrev before : List Arrival
before = (10, some (1 ∷ [])) ∷ (90_000, none) ∷ []

-- The fourth packet comes 1.1 seconds after the third.
abbrev late_packet : List (ℕ × List ℕ)
late_packet = (100_500, 2 ∷ []) ∷ (101_400, 3 ∷ []) ∷ (102_500, 4 ∷ []) ∷ (102_600, 5 ∷ []) ∷ []

recv_fut-idle_example :
    recv_fut false
      (events before ++ ((100_000, stdin_closed) ∷ packets late_packet ++ ((102_700, tick) ∷ [])))
    ≡ Output.ended (record {
      written = (1 ∷ []) ∷ (2 ∷ []) ∷ (3 ∷ []) ∷ [];
      result = ok tt;
      stdout_open = false;
    })
recv_fut-idle_example = recv_fut-idle false before 100_000 late_packet 102_700

ends_idle :
    recv_fut false ((5, stdin_closed) ∷ (900, Output.packet (1 ∷ []) none) ∷ (1_900, tick) ∷ [])
    ≡ Output.ended (record { written = (1 ∷ []) ∷ []; result = ok tt; stdout_open = false })
unfolding recv_fut
ends_idle = refl

waits_on :
    recv_fut false ((5, stdin_closed) ∷ (900, Output.packet (1 ∷ []) none) ∷ (1_899, tick) ∷ [])
    ≡ Output.waits (record {
      written = (1 ∷ []) ∷ [];
      stdin_done = true;
      deadline = some (900 + idle_timeout);
    })
unfolding recv_fut
waits_on = refl

abbrev bus : Bus
bus = record {
  devices = some devices;
  probes = answers responses;
  reopens = λ dev. true;
  answers = λ dev. Host.device_answers;
}

abbrev session : Session
session = record {
  interactive = false;
  inputs = got (1 ∷ 2 ∷ []) ∷ eof ∷ [];
  events = (5, Output.finished) ∷ [];
  send_first = true;
}

exec_connect-done_example : (exec_connect Host.word cmd line bus session ≡ exit 0) ↔ (
    (dev : DeviceInfo) × (n : ℕ) × (conn : Connection) × (select cmd bus.probes devices
      ≡ found (some (dev, n)))
    × Forwarded Host.word cmd line bus session dev n conn)
exec_connect-done_example = exec_connect-done Host.word cmd line bus session devices refl

hex_prefix : parse_hex_u16 (b'0' ∷ b'x' ∷ b'1' ∷ b'2' ∷ b'0' ∷ b'9' ∷ []) ≡ some 0x1209
unfolding parse_hex_u16
hex_prefix = refl

exits : exec_connect Host.word cmd line bus session ≡ exit 0
unfolding exec_connect connect_with upc.Caps.Device.encode upc.Caps.Device.apply_entry
    upc.Host.Sender.send upc.Tlv.encode upc.Tlv.decode
exits = refl

-- A device that announces a maximum above `isize::MAX`, with raw framing.
raw_panics :
    send_fut raw false false [] (record tx { max_size = 9_223_372_036_854_775_808 })
    ≡ Forward.panicked
unfolding send_fut
raw_panics = refl

-- A read of the announced size 0 looks like the end of stdin.
raw_no_room :
    send_fut raw false false (got (1 ∷ []) ∷ []) (record tx { max_size = 0 })
    ≡ finish false false (ok tt) (record tx { max_size = 0 })
unfolding send_fut
raw_no_room = refl

-- A device that announces the maximum 0.
abbrev no_room : Device.DeviceCapabilities
no_room = record Host.caps { max_size = 0 }

abbrev small_answers : Connect.Answers
small_answers = record Host.device_answers { caps = Interfaces.got (Device.encode no_room) }

abbrev small_bus : Bus
small_bus = record bus { answers = λ dev. small_answers }

abbrev small_connection : Connection
small_connection = Connect.build Host.word (options cmd) no_room 512

small_connects : (connect_with Host.word small_answers 1 (options cmd)).1 ≡ next small_connection
unfolding connect_with upc.Tlv.decode Device.encode upc.Tlv.encode Device.apply_entry options
small_connects = refl

small_sender : small_connection.sender.max_size ≡ 0
unfolding Connect.build
small_sender = refl

abbrev first_line : Session
first_line = record {
  interactive = false;
  inputs = got (1 ∷ []) ∷ [];
  events = [];
  send_first = true;
}

exec_connect-panics_example : exec_connect Host.word cmd line small_bus first_line ≡ panics
exec_connect-panics_example =
    exec_connect-panics Host.word cmd small_bus first_line devices gadget 1 small_connection
      (1 ∷ []) [] refl selected refl small_connects small_sender refl refl
