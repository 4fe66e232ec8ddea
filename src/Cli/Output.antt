-- ===== src/Cli/Output.antt =====
-- src/bin/upc.rs: the receiving half of `forward_stdio`.
pub mod Laws
use upc.Common.{
  ℕ, ◌+◌, List, [], ◌∷◌, ◌++◌, Bool, true, false, ltb, leb, if◌then◌else◌, Option, none, some,
  ErrorKind, Result, ok, err,
}
use upc.Cli.Forward.{is_broken_pipe}

-- One second, in milliseconds.
abbrev pub idle_timeout : ℕ
idle_timeout = 1000

-- What a round of the loop brings: a packet, and the error of writing it if any; the end of the
-- connection, or an error of it; the note that stdin is closed; or time that passes.
pub data Event : Type 0 where
  packet : List ℕ → Option ErrorKind → Event
  finished : Event
  failed : ErrorKind → Event
  stdin_closed : Event
  tick : Event

-- `deadline` is where the idle timeout fires; `none` is the far end of time.
pub record State : Type 0 where
  pub written : List (List ℕ)
  pub stdin_done : Bool
  pub deadline : Option ℕ

unfoldable pub initial : State
initial = record { written = []; stdin_done = false; deadline = none }

pub record RecvEnd : Type 0 where
  pub written : List (List ℕ)
  pub result : Result (Unit {0})
  pub stdout_open : Bool

pub data Flow : Type 0 where
  go : State → Flow
  stop : State → Result (Unit {0}) → Flow

-- The timer as it is set where stdin is closed.
unfoldable pub restart : ℕ → State → State
restart now s = record s {
  deadline = if s.stdin_done then some (now + idle_timeout) else s.deadline;
}

-- An error that means the other end is gone ends the loop as a success.
abbrev pub quit : State → ErrorKind → Flow
quit s e = if is_broken_pipe e then stop s (ok tt) else stop s (err e)

abbrev pub on_tick : ℕ → Option ℕ → State → Flow
on_tick now none s = go s
on_tick now (some deadline) s = if leb deadline now then stop s (ok tt) else go s

-- The branch that the select takes. A packet that cannot be written is not counted as such.
unfoldable pub take_branch : ℕ → Event → State → Flow
unfolding restart is_broken_pipe
take_branch now (packet p none) s = go (restart now (record s { written = s.written ++ (p ∷ []) }))
take_branch now (packet p (some e)) s = quit (restart now s) e
take_branch now finished s = stop s (ok tt)
take_branch now (failed e) s = quit s e
take_branch now stdin_closed s =
    if s.stdin_done
    then go s
    else go (record s { stdin_done = true; deadline = some (now + idle_timeout) })
take_branch now tick s = on_tick now s.deadline s

-- Whether the timer has fired before the time `now`.
abbrev pub overdue : ℕ → Option ℕ → Bool
overdue now none = false
overdue now (some deadline) = ltb deadline now

-- A round of the select, at the time `now`. The body of a round takes no time here, so a timer whose
-- time is past was the only branch ready when it fired, and has ended the loop; at its very time the
-- select may take another branch that is ready.
unfoldable pub recv_round : ℕ → Event → State → Flow
unfolding take_branch
recv_round now e s = if overdue now s.deadline then stop s (ok tt) else take_branch now e s

unfoldable pub recv_loop : List (ℕ × Event) → Flow → Flow
unfolding recv_round
recv_loop [] f = f
recv_loop (e ∷ es) (stop s r) = stop s r
recv_loop ((now, e) ∷ es) (go s) = recv_loop es (recv_round now e s)

pub data Outcome : Type 0 where
  ended : RecvEnd → Outcome
  waits : State → Outcome

abbrev pub finish : Bool → Flow → Outcome
finish keep (go s) = waits s
finish keep (stop s r) = ended (record { written = s.written; result = r; stdout_open = keep })

unfoldable pub recv_fut : Bool → List (ℕ × Event) → Outcome
unfolding recv_loop initial
recv_fut keep es = finish keep (recv_loop es (go initial))
