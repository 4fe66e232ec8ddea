-- ===== src/Cli/DeviceCmd.antt =====
-- src/bin/upc.rs: the device command.
pub mod Laws
use upc.Common.{
  ℕ, List, [], ◌∷◌, Bool, true, false, not, if◌then◌else◌, Option, none, some, ErrorKind, Result,
  ok, err, diverged,
}
use upc.Protocol.{vendor_specific}
use upc.Device.Sender.{UpcSender}
use upc.Device.Task.{Cfg, default_cfg}
use upc.Device.Function.{InterfaceId, new_id, with_name, with_guid, set_info, set_max_size}
use upc.Cli.Devices.{is_empty}
use upc.Cli.Sender.{device_sender}
use upc.Cli.Forward.{Framing}
use upc.Cli.Commands.{
  Side, done, fails, crashes, busy, Session, forward_stdio, Exit, exit, panics, running, failure,
}

pub record DeviceCmd : Type 0 where
  pub subclass : ℕ
  pub protocol : ℕ
  pub name : Option (List ℕ)
  pub guid : Option (List ℕ)
  pub info : List ℕ
  pub max_packet : Option ℕ
  pub framing : Framing
  pub keep : Bool

abbrev named : Option (List ℕ) → InterfaceId → InterfaceId
unfolding with_name
named none id = id
named (some name) id = with_name name id

abbrev limited : Option ℕ → Cfg → Cfg
unfolding set_max_size
limited none cfg = cfg
limited (some size) cfg = set_max_size size cfg

-- The configuration of the function; `none` is the panic of `set_info`.
unfoldable pub configure : DeviceCmd → Option Cfg
unfolding default_cfg set_info limited
configure cmd =
    elim (if is_empty cmd.info then some default_cfg else set_info cmd.info default_cfg) [
      | none ↦ none
      | some cfg ↦ some (limited cmd.max_packet cfg)
    ]

-- A connection that comes in, or the error of `accept`, and what happens during it.
pub record Visit : Type 0 where
  pub accepted : Result UpcSender
  pub session : Session

-- What follows a connection; `later` is the rest of the loop.
abbrev pub on_end : Bool → Side → Exit → Exit
on_end true done later = later
on_end false done later = exit 0
on_end true (fails e) later = later
on_end false (fails e) later = exit 1
on_end keep crashes later = panics
on_end keep busy later = running

unfoldable pub on_accept : Framing → Bool → Result UpcSender → Session → Exit → Exit
unfolding forward_stdio
on_accept framing keep (ok tx) session later =
    on_end keep (forward_stdio tx framing keep session) later
on_accept framing keep (err e) session later = failure
on_accept framing keep diverged session later = running

-- The loop over the connections.
unfoldable pub serve : Framing → Bool → List Visit → Exit
unfolding on_accept
serve framing keep [] = running
serve framing keep (v ∷ vs) = on_accept framing keep v.accepted v.session (serve framing keep vs)

-- What the UUID crate makes of a text; whether there is a controller, and whether the gadget is bound.
module _ (parse_str : List ℕ → Option ℕ) (has_udc binds : Bool) where
  abbrev with_parsed : Option ℕ → InterfaceId → Option InterfaceId
  unfolding with_guid
  with_parsed none id = none
  with_parsed (some guid) id = some (with_guid guid id)

  abbrev identified : Option (List ℕ) → InterfaceId → Option InterfaceId
  unfolding with_parsed
  identified none id = some id
  identified (some guid) id = with_parsed (parse_str guid) id

  -- `none` where the GUID is not valid.
  unfoldable pub identify : DeviceCmd → Option InterfaceId
  unfolding identified named new_id vendor_specific
  identify cmd =
      identified cmd.guid (named cmd.name (new_id (vendor_specific cmd.subclass cmd.protocol)))

  abbrev pub bound : DeviceCmd → List Visit → Option Cfg → Exit
  bound cmd visits none = panics
  bound cmd visits (some cfg) =
      if not has_udc
      then failure
      else if not binds
      then failure
      else serve cmd.framing cmd.keep visits

  unfoldable pub with_id : DeviceCmd → List Visit → Option InterfaceId → Exit
  unfolding configure
  with_id cmd visits none = failure
  with_id cmd visits (some id) = bound cmd visits (configure cmd)

  unfoldable pub exec_device : DeviceCmd → List Visit → Exit
  unfolding with_id identify
  exec_device cmd visits = with_id cmd visits (identify cmd)
