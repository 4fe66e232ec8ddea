-- ===== src/Cli/Commands/Laws.antt =====
-- When the connect command succeeds.
use upc.Common.{
  Bool, arith, ℕ, ◌≡◌, ◌≢◌, ◌↔◌, inl, inr, refl, List, true, false, none, some, Bool-cases,
}
use upc.Host.Connect.{Connection, connect_with, next}
use upc.Host.Connect as Host
use upc.Cli.Devices.{DeviceInfo}
use upc.Cli.Select.{ConnectCmd, Selection, found, multiple, select}
use upc.Cli.Sender.{host_sender}
use upc.Cli.Forward.{Framing, send_fut}
use upc.Cli.Output.{recv_fut}
use upc.Cli.Commands.{
  Side, done, fails, crashes, busy, Session, forward_stdio, try_join, send_side, recv_side, exit,
  failure, exit_code, Bus, options, on_connect, on_selection, on_devices, exec_connect,
}

-- The process was connected to this interface, and each half of the forwarding ends as a success.
abbrev pub Forwarded :
    ℕ → ConnectCmd → Framing → Bus → Session → DeviceInfo → ℕ → Connection → Type 0
Forwarded usize_max cmd framing bus session dev n conn =
    (bus.reopens dev ≡ true)
    × ((connect_with usize_max (bus.answers dev) n (options cmd)).1 ≡ next conn)
    × (send_side (send_fut framing false session.interactive session.inputs conn.sender) ≡ done)
    × (recv_side (recv_fut false session.events) ≡ done)

try_join-done :
    (send_first : Bool) (x y : Side) → try_join send_first x y ≡ done → (x ≡ done) × (y ≡ done)
unfolding try_join
try_join-done b (fails e) (fails f) h = ground arith
try_join-done b crashes (fails f) h = ground arith
try_join-done b (fails e) crashes h = ground arith
try_join-done b (fails e) done h = absurd (cc)
try_join-done b (fails e) busy h = absurd (cc)
try_join-done b crashes done h = absurd (cc)
try_join-done b crashes busy h = absurd (cc)
try_join-done b crashes crashes h = absurd (cc)
try_join-done b done other h = (refl, h)
try_join-done b busy done h = absurd (cc)
try_join-done b busy busy h = absurd (cc)
try_join-done b busy (fails f) h = absurd (cc)
try_join-done b busy crashes h = absurd (cc)

exit_code-done : (side : Side) → exit_code side ≡ exit 0 → side ≡ done
exit_code-done done e = refl
exit_code-done (fails x) e = absurd (cc)
exit_code-done crashes e = cc
exit_code-done busy e = cc

on_connect-done :
    (framing : Framing) (session : Session) (o : Host.Outcome Connection)
    → on_connect framing session o ≡ exit 0
    → (conn : Connection) × (o ≡ next conn)
      × (send_side (send_fut framing false session.interactive session.inputs conn.sender) ≡ done)
      × (recv_side (recv_fut false session.events) ≡ done)
unfolding on_connect forward_stdio
on_connect-done framing session (Host.next conn) e =
    let (s, r) =
      try_join-done session.send_first _ _
        (exit_code-done (forward_stdio conn.sender framing false session) e) in
    (conn, refl, s, r)
on_connect-done framing session (Host.failed x) e = absurd (cc)
on_connect-done framing session Host.panicked e = absurd (cc)
on_connect-done framing session Host.waiting e = absurd (cc)

failure-nonzero : failure ≢ exit 0
failure-nonzero e = cc

Selected : ℕ → ConnectCmd → Framing → Bus → Session → Selection → Type 0
Selected usize_max cmd framing bus session s =
    (dev : DeviceInfo) × (n : ℕ) × (conn : Connection) × (s ≡ found (some (dev, n)))
    × Forwarded usize_max cmd framing bus session dev n conn

on_selection-done :
    (usize_max : ℕ) (cmd : ConnectCmd) (framing : Framing) (bus : Bus) (session : Session)
    (s : Selection)
    → on_selection usize_max cmd framing bus session s ≡ exit 0
    → Selected usize_max cmd framing bus session s
unfolding on_selection Selected
on_selection-done usize_max cmd framing bus session multiple e = absurd (cc)
on_selection-done usize_max cmd framing bus session (found none) e = absurd (cc)
on_selection-done usize_max cmd framing bus session (found (some (dev, n))) e =
    elim (Bool-cases (bus.reopens dev)) [
      | inr o ↦ absurd (failure-nonzero (rw o at e))
      | inl o ↦
          let (conn, c, f, g) = on_connect-done framing session _ (rw o at e) in
          (dev, n, conn, refl, (o, c, f, g))
    ]

done-on_selection :
    (usize_max : ℕ) (cmd : ConnectCmd) (framing : Framing) (bus : Bus) (session : Session)
    (s : Selection)
    → Selected usize_max cmd framing bus session s
    → on_selection usize_max cmd framing bus session s ≡ exit 0
unfolding on_selection Selected on_connect forward_stdio try_join
done-on_selection usize_max cmd framing bus session s (dev, n, conn, e, (o, c, f, g)) =
    rw (e, o, c, f, g) refl

-- The connect command, where it can list the devices, exits with the code 0 exactly where its
-- filters select one interface, its device opens, the handshake with it succeeds, and the sending
-- half and the receiving half of the forwarding both end, each without an error.
pub exec_connect-done :
    (usize_max : ℕ) (cmd : ConnectCmd) (framing : Framing) (bus : Bus) (session : Session)
    (devs : List DeviceInfo)
    → bus.devices ≡ some devs
    → (exec_connect usize_max cmd framing bus session ≡ exit 0) ↔ (
        (dev : DeviceInfo) × (n : ℕ) × (conn : Connection) × (select cmd bus.probes devs
          ≡ found (some (dev, n)))
        × Forwarded usize_max cmd framing bus session dev n conn)
unfolding exec_connect on_devices Selected
exec_connect-done usize_max cmd framing bus session devs listed =
    let s = select cmd bus.probes devs in
    (
      λ e. on_selection-done usize_max cmd framing bus session s (rw listed at e),
      λ h. rw listed (done-on_selection usize_max cmd framing bus session s h),
    )
