-- ===== src/Cli/DeviceCmd/Laws.antt =====
-- How the device command ends.
use upc.Common.{
  ℕ, ◌≡◌, ◌⊎◌, inl, inr, refl, ◌∙◌, List, [], ◌∷◌, ◌++◌, Bool, true, false, ErrorKind, ok, err,
}
use upc.Common.Lists.{All}
use upc.Device.Sender.{UpcSender}
use upc.Cli.Sender.{device_sender}
use upc.Cli.Forward.{Framing}
use upc.Cli.Commands.{Side, done, fails, forward_stdio, Exit, exit, failure}
use upc.Cli.DeviceCmd.{Visit, on_end, on_accept, serve}

-- The side has ended without a panic, and the exit code for it.
abbrev pub EndsAs : ℕ → Side → Type 0
EndsAs code side = ((side ≡ done) × (code ≡ 0)) ⊎ ((e : ErrorKind) × (side ≡ fails e) × (code ≡ 1))

-- A connection that came and ended, with that exit code.
abbrev pub Served : Framing → Bool → ℕ → Visit → Type 0
Served framing keep code v =
    (tx : UpcSender) × (v.accepted ≡ ok tx) × EndsAs code (forward_stdio tx framing keep v.session)

on_end-kept :
    (code : ℕ) (side : Side) (later : Exit) → EndsAs code side → on_end true side later ≡ later
on_end-kept code side later (inl (e, c)) = rw e refl
on_end-kept code side later (inr (x, e, c)) = rw e refl

on_end-exit :
    (code : ℕ) (side : Side) (later : Exit) → EndsAs code side → on_end false side later ≡ exit code
on_end-exit code side later (inl (e, c)) = rw (e, c) refl
on_end-exit code side later (inr (x, e, c)) = rw (e, c) refl

on_accept-Served :
    (framing : Framing) (keep : Bool) (code : ℕ) (v : Visit) (later : Exit)
    → (h : Served framing keep code v)
    → on_accept framing keep v.accepted v.session later
      ≡ on_end keep (forward_stdio h.0 framing keep v.session) later
unfolding on_accept
on_accept-Served framing keep code v later (tx, a, e) = rw a refl

-- A visit that ends, whatever its exit code.
abbrev pub Ended : Framing → Visit → Type 0
Ended framing v = (code : ℕ) × Served framing true code v

serve_kept :
    (framing : Framing) (vs rest : List Visit)
    → All (Ended framing) vs
    → serve framing true (vs ++ rest) ≡ serve framing true rest
unfolding serve
serve_kept framing [] rest h = refl
serve_kept framing (v ∷ vs) rest ((code, h), hs) =
    on_accept-Served framing true code v _ h
    ∙ on_end-kept code _ _ h.2
    ∙ serve_kept framing vs rest hs

-- With --keep, the connections that come and end do not end the command, however they end; a failure of
-- `accept` does, with the code 1.
pub serve-kept :
    (framing : Framing) (vs rest : List Visit) (last : Visit) (e : ErrorKind)
    → All (Ended framing) vs
    → last.accepted ≡ err e
    → serve framing true (vs ++ (last ∷ rest)) ≡ failure
unfolding serve on_accept
serve-kept framing vs rest last e h refused =
    serve_kept framing vs (last ∷ rest) h ∙ rw refused refl

-- Without --keep, the first connection that ends ends the command, with the exit code of its end.
pub serve-once :
    (framing : Framing) (code : ℕ) (v : Visit) (vs : List Visit)
    → Served framing false code v
    → serve framing false (v ∷ vs) ≡ exit code
unfolding serve
serve-once framing code v vs h =
    on_accept-Served framing false code v (serve framing false vs) h
    ∙ on_end-exit code _ (serve framing false vs) h.2
