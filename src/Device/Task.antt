-- ===== src/Device/Task.antt =====
-- src/device.rs: the state of the main task, and the endpoint operations that its handlers share.
pub mod Requests
pub mod Events
use upc.Common.{
  ℕ, List, [], ◌∷◌, ◌++◌, Bool, true, false, Option, none, some, ErrorKind, leb, if◌then◌else◌,
}
use upc.Caps.Host.{HostCapabilities}
use upc.Caps.Host
use upc.Protocol.{max_size as default_max_size}
use upc.Device.Sender.{UpcSender}
use upc.Device.Receiver.{UpcReceiver}

-- `Cfg`, with the ping timeout in nanoseconds.
pub record Cfg : Type 0 where
  pub info : List ℕ
  pub ping_timeout : Option ℕ
  pub max_size : ℕ
  pub recv_pool_size : ℕ

unfoldable pub default_cfg : Cfg
default_cfg = record {
  info = [];
  ping_timeout = some 10_000_000_000;
  max_size = default_max_size;
  recv_pool_size = 5_242_880;
}

-- The endpoint for sending to the host (IN) and the one for receiving from it (OUT).
pub data Endpoint : Type 0 where
  ep_tx ep_rx : Endpoint

-- What the task asks of the hardware and of a control request.
pub data Effect : Type 0 where
  cancel : Endpoint → Effect
  control : Endpoint → Effect
  clear_halt : Endpoint → Effect
  discard_fifo : Endpoint → Effect
  halt : Endpoint → Effect
  prepare_in : ℕ → Effect
  recv_all : Effect
  reply : List ℕ → Effect
  send_bulk : List ℕ → Effect
  flush_bulk : Effect

-- The local variables of `task`. `in_running` and `out_running` say that `in_task` and `out_task` are
-- not `pending()`; `in_close` is the value of the watch channel for the byte count; `deadline` is that
-- of `timeout_sleep`, `none` being `Duration::MAX`; `accepted` lists the connections that were handed
-- to the application, the latest first, and `log` the effects so far.
pub record Task : Type 0 where
  pub cfg : Cfg
  pub mps : Option ℕ
  pub in_running : Bool
  pub out_running : Bool
  pub in_close : Option ℕ
  pub send_open : Bool
  pub recv_open : Bool
  pub last_status : ℕ
  pub deadline : Option ℕ
  pub conn_error : Option ErrorKind
  pub host_caps : HostCapabilities
  pub ping_timeout : Option ℕ
  pub accepted : List (UpcSender × UpcReceiver)
  pub log : List Effect

unfoldable pub initial : Cfg → Task
unfolding Host.default_caps
initial cfg = record {
  cfg = cfg;
  mps = none;
  in_running = false;
  out_running = false;
  in_close = none;
  send_open = false;
  recv_open = false;
  last_status = 0;
  deadline = none;
  conn_error = none;
  host_caps = Host.default_caps;
  ping_timeout = none;
  accepted = [];
  log = [];
}

-- What the task finds on its machine: `usize::MAX`, the last time that an `Instant` can hold, and the
-- largest buffer that `BytesMut::with_capacity` gives.
pub record Platform : Type 0 where
  pub usize_max : ℕ
  pub instant_max : ℕ
  pub capacity_max : ℕ

-- A handler goes on, ends the loop, returns early with an error (`?`), or panics.
pub data Outcome : Type 0 where
  next : Task → Outcome
  ended : Task → Outcome
  failed : ErrorKind → Task → Outcome
  panicked : Task → Outcome

infixl 5 ◌>>=◌
abbrev pub ◌>>=◌ : Outcome → (Task → Outcome) → Outcome
next t >>= f = f t
ended t >>= f = ended t
failed e t >>= f = failed e t
panicked t >>= f = panicked t

-- An operation whose error is dropped, or only logged.
unfoldable pub note : Effect → Task → Task
note e t = record t { log = t.log ++ (e ∷ []) }

-- `usize::try_from(n).unwrap_or(usize::MAX)`
unfoldable pub to_usize : ℕ → ℕ → ℕ
to_usize usize_max n = if leb n usize_max then n else usize_max

-- `fails` is the hardware: the error, if any, of an operation after the operations before it.
module _ (fails : List Effect → Effect → Option ErrorKind) where
  -- An operation under `?`.
  unfoldable pub attempt : Effect → Task → Outcome
  unfolding note
  attempt e t = elim (fails t.log e) [ none ↦ next (note e t) | some x ↦ failed x (note e t) ]

  -- Clears both AIO queues, then the halt status and the hardware FIFO of both endpoints.
  unfoldable pub clear_endpoints : Task → Outcome
  unfolding attempt
  clear_endpoints t = do
    t ← attempt (cancel ep_tx) t
    t ← attempt (cancel ep_rx) t
    t ← attempt (control ep_tx) t
    t ← attempt (control ep_rx) (note (clear_halt ep_tx) t)
    t ← attempt (control ep_tx) (note (clear_halt ep_rx) t)
    t ← attempt (control ep_rx) (note (discard_fifo ep_tx) t)
    next (note (discard_fifo ep_rx) t)
