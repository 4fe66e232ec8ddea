-- ===== src/Device/Function/Setup.antt =====
-- src/device.rs: `UpcFunction` and how `new` and `with_ffs` make it, and what it tells of its
-- configuration.
use upc.Common.{ℕ, List, [], Option, none, some, Result, ok, err, diverged, ◌>>=◌}
use upc.Protocol.{Class}
use upc.Device.Sender.{UpcSender}
use upc.Device.Receiver.{UpcReceiver}
use upc.Device.Task.{Cfg, default_cfg, Task, initial}
use upc.Device.Function.{InterfaceId}

-- What the usb_gadget crate offers to describe a function and to build it. `existing` opens a mounted
-- FunctionFS directory, given by its path, and may fail.
pub record UsbGadget (Interface Endpoint Builder Custom Handle : Type 0) : Type 0 where
  pub new_interface : Class → List ℕ → Interface
  pub bulk_host_to_device : Endpoint
  pub bulk_device_to_host : Endpoint
  pub with_endpoint : Endpoint → Interface → Interface
  pub with_winusb_compat : Interface → Interface
  pub with_interface_guid : ℕ → Interface → Interface
  pub builder : Interface → Builder
  pub build : Builder → Custom × Handle
  pub existing : List ℕ → Builder → Result Custom

-- `conn_rx` are the connections not yet accepted, `task` the local variables of the main task, and
-- `cfg` what both share.
pub record UpcFunction : Type 0 where
  pub class : Class
  pub name : List ℕ
  pub task : Task
  pub conn_rx : List (UpcSender × UpcReceiver)
  pub cfg : Cfg

module _ {Interface Endpoint Builder Custom Handle : Type 0}
    (gadget : UsbGadget Interface Endpoint Builder Custom Handle) where
  abbrev with_guid_prop : Option ℕ → Interface → Interface
  with_guid_prop none interface = interface
  with_guid_prop (some guid) interface = gadget.with_interface_guid guid interface

  unfoldable pub describe : InterfaceId → Interface
  describe id =
      let interface = gadget.with_winusb_compat (
        gadget.with_endpoint gadget.bulk_device_to_host (
          gadget.with_endpoint gadget.bulk_host_to_device
            (gadget.new_interface id.class id.name))) in
      with_guid_prop id.guid interface

  -- The endpoint 0 that `build_fn` gives is the main task's, which starts.
  unfoldable pub init :
      {T : Type 0} → InterfaceId → (Builder → Result (Custom × T)) → Result (UpcFunction × T)
  unfolding describe initial default_cfg
  init id build_fn = build_fn (gadget.builder (describe id)) >>= λ (ep0, ret). ok (
    record {
      class = id.class;
      name = id.name;
      task = initial default_cfg;
      conn_rx = [];
      cfg = default_cfg;
    },
    ret,
  )

  -- `unwrap` panics on an error: `none`.
  abbrev unwrap : {A : Type 0} → Result A → Option A
  unwrap (ok a) = some a
  unwrap (err e) = none
  unwrap diverged = none

  unfoldable pub new : InterfaceId → Option (UpcFunction × Handle)
  unfolding init
  new id = unwrap (init id (λ builder. ok (gadget.build builder)))

  unfoldable pub with_ffs : List ℕ → InterfaceId → Result UpcFunction
  unfolding init
  with_ffs ffs_dir id =
      init id (λ builder. gadget.existing ffs_dir builder >>= λ custom. ok (custom, tt {0}))
      >>= λ (this, u). ok this

unfoldable pub info : UpcFunction → List ℕ
info f = f.cfg.info

unfoldable pub ping_timeout : UpcFunction → Option ℕ
ping_timeout f = f.cfg.ping_timeout

unfoldable pub max_size : UpcFunction → ℕ
max_size f = f.cfg.max_size

unfoldable pub recv_pool_size : UpcFunction → ℕ
recv_pool_size f = f.cfg.recv_pool_size
