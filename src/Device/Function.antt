-- ===== src/Device/Function.antt =====
-- src/device.rs: `InterfaceId`, the configuration and `accept` of `UpcFunction`, and `BytesPool`.
pub mod Laws
pub mod Setup
use upc.Common.{
  ℕ, zero, suc, ◌-◌, List, [], ◌∷◌, Bool, true, false, ltb, leb, if◌then◌else◌, Option, none, some,
  ErrorKind, broken_pipe, connection_reset, other, Result, ok, err,
}
use upc.Common.Lists.{length}
use upc.Protocol.{Class, info_size}
use upc.Device.Sender.{UpcSender}
use upc.Device.Receiver.{UpcReceiver}
use upc.Device.Task.{Cfg, Task}

-- A name is its bytes; a GUID is its 128-bit number.
pub record InterfaceId : Type 0 where
  pub class : Class
  pub name : List ℕ
  pub guid : Option ℕ

unfoldable pub default_name : List ℕ
default_name =
    b'U' ∷ b'S' ∷ b'B' ∷ 32 ∷ b'p' ∷ b'a' ∷ b'c' ∷ b'k' ∷ b'e' ∷ b't' ∷ 32 ∷ b'c' ∷ b'h' ∷ b'a'
    ∷ b'n' ∷ b'n' ∷ b'e' ∷ b'l' ∷ 32 ∷ 40 ∷ b'U' ∷ b'P' ∷ b'C' ∷ 41 ∷ []

unfoldable pub new_id : Class → InterfaceId
unfolding default_name
new_id class = record { class = class; name = default_name; guid = none }

unfoldable pub with_name : List ℕ → InterfaceId → InterfaceId
with_name name id = record id { name = name }

unfoldable pub with_guid : ℕ → InterfaceId → InterfaceId
with_guid guid id = record id { guid = some guid }

-- The assertion of `set_info` fails on `none`.
unfoldable pub set_info : List ℕ → Cfg → Option Cfg
set_info info cfg = if leb (length info) info_size then some (record cfg { info = info }) else none

unfoldable pub set_ping_timeout : Option ℕ → Cfg → Cfg
set_ping_timeout timeout cfg = record cfg { ping_timeout = timeout }

unfoldable pub set_max_size : ℕ → Cfg → Cfg
set_max_size size cfg = record cfg { max_size = size }

unfoldable pub set_recv_pool_size : ℕ → Cfg → Cfg
set_recv_pool_size size cfg = record cfg { recv_pool_size = size }

-- How the main task ended: `join_next` gives its result, the panic of it, or nothing any more.
pub data TaskEnd : Type 0 where
  returned : Result (Unit {0}) → TaskEnd
  join_error : TaskEnd
  no_task : TaskEnd

-- `queue` are the connections not yet accepted, oldest first; `ended` is looked at where none is left
-- and the task is gone. An io::Error made of a JoinError is of kind Other.
unfoldable pub accept :
    List (UpcSender × UpcReceiver)
    → TaskEnd
    → Result (UpcSender × UpcReceiver) × List (UpcSender × UpcReceiver)
accept (conn ∷ queue) ended = (ok conn, queue)
accept [] (returned (ok u)) = (err connection_reset, [])
accept [] (returned (err e)) = (err e, [])
accept [] (returned Result.diverged) = (Result.diverged, [])
accept [] join_error = (err other, [])
accept [] no_task = (err broken_pipe, [])

-- The buffer of the pool by its capacity. `with_capacity` is the allocator of the bytes crate: what it
-- gives for a capacity asked for.
pub record BytesPool : Type 0 where
  pub capacity : ℕ
  pub pool_size : ℕ

module _ (with_capacity : ℕ → ℕ) where
  unfoldable pub new_pool : ℕ → BytesPool
  new_pool pool_size = record { capacity = with_capacity pool_size; pool_size = pool_size }

  -- The capacity of the chunk, and the pool after it; `split_off` beyond the capacity panics: `none`.
  unfoldable pub chunk : ℕ → BytesPool → Option (ℕ × BytesPool)
  chunk size p =
      let capacity =
        if ltb p.capacity size
        then with_capacity (if ltb p.pool_size size then size else p.pool_size)
        else p.capacity in
      if leb size capacity then some (size, record p { capacity = capacity - size }) else none

  -- `prepare_in`: one chunk for each transfer that was waiting, and one for the receive that times
  -- out or fails.
  unfoldable pub prepare_in : ℕ → ℕ → BytesPool → Option BytesPool
  unfolding chunk
  prepare_in size zero p = elim (chunk size p) [ none ↦ none | some (c, q) ↦ some q ]
  prepare_in size (suc stale) p = elim (chunk size p) [
    | none ↦ none
    | some (c, q) ↦ prepare_in size stale q
  ]
