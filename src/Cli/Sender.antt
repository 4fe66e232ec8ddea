-- ===== src/Cli/Sender.antt =====
-- src/bin/upc.rs: the trait UpcSend, and its implementations for the senders of both sides.
use upc.Common.{
  ℕ, ◌≤◌, ◌≡◌, refl, List, [], ◌∷◌, ◌++◌, Bool, true, false, not, if◌then◌else◌, ErrorKind, Result,
  ok, err, le→ltb,
}
use upc.Common.Lists.{length}
use upc.Device.Sender.{UpcSender as DeviceSender, send as device_send, unwrap_or}
use upc.Host.Sender.{UpcSender as HostSender, send as host_send, closed_error}

-- What the tool needs of a sender, and what every sender promises: while it is open, it takes a packet
-- within its limit and stays as it is otherwise; when it is closed, it gives its error. `upc_closed` is
-- an event of the loops that wait for it.
pub record UpcSend (S : Type 0) : Type 0 where
  pub upc_send : S → List ℕ → Result (Unit {0}) × S
  pub upc_max_size : S → ℕ
  pub queue : S → List (List ℕ)
  pub is_open : S → Bool
  pub after : S → List ℕ → S
  pub closed_kind : S → ErrorKind
  pub after-queue : (s : S) (p : List ℕ) → queue (after s p) ≡ queue s ++ (p ∷ [])
  pub after-max_size : (s : S) (p : List ℕ) → upc_max_size (after s p) ≡ upc_max_size s
  pub after-is_open : (s : S) (p : List ℕ) → is_open (after s p) ≡ is_open s
  pub send_open :
      (s : S) (p : List ℕ)
      → is_open s ≡ true
      → length p ≤ upc_max_size s
      → upc_send s p ≡ (ok tt, after s p)
  pub send_closed :
      (s : S) (p : List ℕ)
      → is_open s ≡ false
      → length p ≤ upc_max_size s
      → upc_send s p ≡ (err (closed_kind s), s)

pub open_device :
    (s : DeviceSender) (p : List ℕ) (closed : Bool)
    → s.tx_closed ≡ closed
    → length p ≤ s.max_size
    → device_send s p ≡ (
        if closed
        then (err (unwrap_or s.error ErrorKind.broken_pipe), s)
        else (ok tt, record s { tx = s.tx ++ (p ∷ []) }))
unfolding device_send
open_device s p closed o small = rw (le→ltb s.max_size (length p) small, o) refl

pub open_host :
    (s : HostSender) (p : List ℕ) (closed : Bool)
    → s.tx_closed ≡ closed
    → length p ≤ s.max_size
    → host_send s p ≡ (
        if closed
        then (err (closed_error s.error), s)
        else (ok tt, record s { tx = s.tx ++ (p ∷ []) }))
unfolding host_send
open_host s p closed o small = rw (le→ltb s.max_size (length p) small, o) refl

pub not_closed : (b : Bool) → not b ≡ true → b ≡ false
not_closed true e = cc
not_closed false e = refl

pub not_open : (b : Bool) → not b ≡ false → b ≡ true
not_open true e = refl
not_open false e = cc

instance abbrev pub device_sender : UpcSend DeviceSender
device_sender = record {
  upc_send = device_send;
  upc_max_size = λ s. s.max_size;
  queue = λ s. s.tx;
  is_open = λ s. not s.tx_closed;
  after = λ s p. record s { tx = s.tx ++ (p ∷ []) };
  closed_kind = λ s. unwrap_or s.error ErrorKind.broken_pipe;
  after-queue = λ s p. refl;
  after-max_size = λ s p. refl;
  after-is_open = λ s p. refl;
  send_open = λ s p o. open_device s p false (not_closed s.tx_closed o);
  send_closed = λ s p o. open_device s p true (not_open s.tx_closed o);
}

instance abbrev pub host_sender : UpcSend HostSender
host_sender = record {
  upc_send = host_send;
  upc_max_size = λ s. s.max_size;
  queue = λ s. s.tx;
  is_open = λ s. not s.tx_closed;
  after = λ s p. record s { tx = s.tx ++ (p ∷ []) };
  closed_kind = λ s. closed_error s.error;
  after-queue = λ s p. refl;
  after-max_size = λ s p. refl;
  after-is_open = λ s p. refl;
  send_open = λ s p o. open_host s p false (not_closed s.tx_closed o);
  send_closed = λ s p o. open_host s p true (not_open s.tx_closed o);
}
