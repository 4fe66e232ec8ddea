-- ===== src/Device/Sender.antt =====
-- src/device.rs: `UpcSender::send`, and `connection`, which makes the ends of a connection.
use upc.Common.{
  ℕ, List, [], ◌∷◌, ◌++◌, ltb, if◌then◌else◌, Bool, false, Option, none, some, ErrorKind,
  broken_pipe, invalid_input, Result, ok, err,
}
use upc.Common.Lists.{length}
use upc.Device.Receiver.{UpcReceiver}

-- `tx` is the queue that the sender fills, `tx_closed` that its receiver is gone. The wait for room
-- in the queue is left to the caller: a send that waits has not run yet.
pub record UpcSender : Type 0 where
  pub tx : List (List ℕ)
  pub tx_closed : Bool
  pub error : Option ErrorKind
  pub max_size : ℕ

abbrev pub unwrap_or : Option ErrorKind → ErrorKind → ErrorKind
unwrap_or (some kind) default = kind
unwrap_or none default = default

unfoldable pub send : UpcSender → List ℕ → Result (Unit {0}) × UpcSender
send s packet =
    if ltb s.max_size (length packet)
    then (err invalid_input, s)
    else if s.tx_closed
    then (err (unwrap_or s.error broken_pipe), s)
    else (ok tt, record s { tx = s.tx ++ (packet ∷ []) })

-- The `Head` that the tasks keep is the other end of both queues, so it is the two records.
unfoldable pub connection : List ℕ → ℕ → ℕ → ℕ → UpcSender × UpcReceiver
connection topic max_transfer_size max_send_size max_recv_size = (
  record { tx = []; tx_closed = false; error = none; max_size = max_send_size },
  record {
    topic = topic;
    rx = [];
    rx_closed = false;
    buffer = [];
    max_size = max_recv_size;
    max_transfer_size = max_transfer_size;
    error = none;
  },
)
