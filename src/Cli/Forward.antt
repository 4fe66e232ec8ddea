-- ===== src/Cli/Forward.antt =====
-- src/bin/upc.rs: the sending half of `forward_stdio`.
pub mod Chunks
pub mod Laws
use upc.Common.{
  ℕ, zero, suc, List, [], ◌∷◌, ◌++◌, Bool, true, false, ◌==◌, leb, if◌then◌else◌, Option, none,
  some, ErrorKind, broken_pipe, Result, ok, err, diverged,
}
use upc.Common.Lists.{length, take, drop}
use upc.Cli.Sender.{UpcSend}

-- `isize::MAX` of a machine with 64 bits.
abbrev pub isize_max : ℕ
isize_max = 9_223_372_036_854_775_807

pub data Framing : Type 0 where
  auto line raw : Framing

-- The shadowing of `framing` at the start.
unfoldable pub resolve : Framing → Bool → Framing
resolve auto true = line
resolve auto false = raw
resolve line interactive = line
resolve raw interactive = raw

-- What a round of the loop brings: the end of the connection, a line or the bytes of a read, the end
-- of stdin (a read of no bytes), or an error of it.
pub data Input : Type 0 where
  closed : Input
  got : List ℕ → Input
  eof : Input
  failed : ErrorKind → Input

-- The end of the half: its result, whether stdin is still open, and whether the other half was told.
pub record SendEnd (S : Type 0) : Type 0 where
  pub tx : S
  pub result : Result (Unit {0})
  pub stdin_open : Bool
  pub notified : Bool

pub data Outcome (S : Type 0) : Type 0 where
  ended : SendEnd S → Outcome S
  panicked : Outcome S
  waits : S → Outcome S

-- What a packet or the chunks of a line come to; `no_result` stands for a send that does not return.
pub data Sent : Type 0 where
  all_sent : Sent
  pipe_gone : Sent
  send_failed : ErrorKind → Sent
  no_result : Sent

-- The pieces of `slice::chunks`; the fuel is the length, as every piece has a byte.
unfoldable pub pieces : {A : Type 0} → ℕ → ℕ → List A → List (List A)
pieces zero size xs = []
pieces (suc fuel) size [] = []
pieces (suc fuel) size (x ∷ xs) = take size (x ∷ xs) ∷ pieces fuel size (drop size (x ∷ xs))

-- `chunks` panics for the size 0: `none`.
unfoldable pub chunks : {A : Type 0} → ℕ → List A → Option (List (List A))
unfolding pieces
chunks size xs = if size == 0 then none else some (pieces (length xs) size xs)

unfoldable pub is_broken_pipe : ErrorKind → Bool
is_broken_pipe ErrorKind.broken_pipe = true
is_broken_pipe e = false

module _ {S : Type 0} ⦃sender : UpcSend S⦄ where
  -- The match on the result of a send.
  abbrev pub on_send : Result (Unit {0}) × S → (S → Sent × S) → Sent × S
  on_send (ok u, s) later = later s
  on_send (err e, s) later = ((if is_broken_pipe e then pipe_gone else send_failed e), s)
  on_send (diverged, s) later = (no_result, s)

  unfoldable pub send_all : List (List ℕ) → S → Sent × S
  unfolding is_broken_pipe
  send_all [] s = (all_sent, s)
  send_all (p ∷ ps) s = on_send (sender.upc_send s p) (λ t. send_all ps t)

  -- What follows the loop.
  abbrev pub finish : Bool → Bool → Result (Unit {0}) → S → Outcome S
  finish keep interactive result s =
      ended (record { tx = s; result = result; stdin_open = keep; notified = interactive })

  -- A return from inside the loop.
  abbrev pub leave : Result (Unit {0}) → S → Outcome S
  leave result s = ended (record { tx = s; result = result; stdin_open = true; notified = false })

  abbrev pub after_send : Sent × S → (S → Outcome S) → Outcome S
  after_send (all_sent, s) later = later s
  after_send (pipe_gone, s) later = leave (ok tt) s
  after_send (send_failed e, s) later = leave (err e) s
  after_send (no_result, s) later = waits s

  abbrev pub send_chunks : Option (List (List ℕ)) → S → (S → Outcome S) → Outcome S
  send_chunks none s later = panicked
  send_chunks (some ps) s later = after_send (send_all ps s) later

  -- The loop over the lines; `max_send` is read before it.
  unfoldable pub forward_lines : Bool → Bool → ℕ → List Input → S → Outcome S
  unfolding chunks send_all
  forward_lines keep interactive max_send [] s = waits s
  forward_lines keep interactive max_send (closed ∷ is) s = finish keep interactive (ok tt) s
  forward_lines keep interactive max_send (got l ∷ is) s =
      send_chunks (chunks max_send (l ++ (b'\n' ∷ []))) s
        (λ t. forward_lines keep interactive max_send is t)
  forward_lines keep interactive max_send (eof ∷ is) s = finish keep interactive (ok tt) s
  forward_lines keep interactive max_send (failed e ∷ is) s = finish keep interactive (err e) s

  -- A read of no bytes is the end of stdin, whatever the reason.
  abbrev on_read : List ℕ → Outcome S → (List ℕ → Outcome S) → Outcome S
  on_read [] stdin_end next = stdin_end
  on_read (b ∷ bs) stdin_end next = next (b ∷ bs)

  -- The loop over the reads. A read brings what fits into the buffer of what stdin offers; the next
  -- input offers the rest again.
  unfoldable pub forward_reads : Bool → Bool → ℕ → List Input → S → Outcome S
  unfolding send_all
  forward_reads keep interactive max_send [] s = waits s
  forward_reads keep interactive max_send (closed ∷ is) s = finish keep interactive (ok tt) s
  forward_reads keep interactive max_send (got offered ∷ is) s =
      on_read (take max_send offered) (finish keep interactive (ok tt) s) (λ read.
        after_send (send_all (read ∷ []) s) (λ t. forward_reads keep interactive max_send is t))
  forward_reads keep interactive max_send (eof ∷ is) s = finish keep interactive (ok tt) s
  forward_reads keep interactive max_send (failed e ∷ is) s = finish keep interactive (err e) s

  -- The read buffer is made before the loop; its size may not be above `isize::MAX`.
  unfoldable pub forward_raw : Bool → Bool → ℕ → List Input → S → Outcome S
  unfolding forward_reads
  forward_raw keep interactive max_send is s =
      let forwarded = forward_reads keep interactive max_send is s in
      if leb max_send isize_max then forwarded else panicked

  abbrev by_framing : Framing → Bool → Bool → List Input → S → Outcome S
  unfolding forward_lines forward_raw
  by_framing auto keep interactive is s = panicked
  by_framing line keep interactive is s =
      forward_lines keep interactive (sender.upc_max_size s) is s
  by_framing raw keep interactive is s = forward_raw keep interactive (sender.upc_max_size s) is s

  unfoldable pub send_fut : Framing → Bool → Bool → List Input → S → Outcome S
  unfolding by_framing resolve
  send_fut framing keep interactive is s =
      by_framing (resolve framing interactive) keep interactive is s
