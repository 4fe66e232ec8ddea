-- ===== src/Cli/Forward/Laws.antt =====
-- The packets that the lines of stdin become.
use upc.Common.{
  ℕ, ◌≤◌, ◌<◌, ◌≡◌, refl, sym, ap, ◌∙◌, List, [], ◌∷◌, ◌++◌, map, Bool, true, false, some,
  broken_pipe, ok, arith,
}
use upc.Common.Lists.{length, concat, All}
use mathlib.Core.List.{append_assoc, append-nil}
use upc.Cli.Sender.{UpcSend}
use upc.Cli.Forward.Chunks.{
  Fits, with_newline, lines, packets, packets-Fits, pieces-Fits, concat-packets, chunks_pos,
  pieces-line,
}
use mathlib.Core.Path.{subst}
use upc.Cli.Forward.{
  line, Input, got, closed, panicked, all_sent, pipe_gone, pieces, chunks, is_broken_pipe, on_send,
  send_all, finish, leave, after_send, send_chunks, forward_lines, send_fut,
}

module _ {S : Type 0} ⦃sender : UpcSend S⦄ where
  abbrev IsOpen : ℕ → S → Type 0
  IsOpen size s = (sender.is_open s ≡ true) × (sender.upc_max_size s ≡ size)

  -- The sender after the packets.
  abbrev pub afters : S → List (List ℕ) → S
  afters s [] = s
  afters s (p ∷ ps) = afters (sender.after s p) ps

  IsOpen-after : (size : ℕ) (s : S) (p : List ℕ) → IsOpen size s → IsOpen size (sender.after s p)
  IsOpen-after size s p (o, e) = (sender.after-is_open s p ∙ o, sender.after-max_size s p ∙ e)

  IsOpen-afters :
      (size : ℕ) (s : S) (ps : List (List ℕ)) → IsOpen size s → IsOpen size (afters s ps)
  IsOpen-afters size s [] o = o
  IsOpen-afters size s (p ∷ ps) o =
      IsOpen-afters size (sender.after s p) ps (IsOpen-after size s p o)

  afters-append : (s : S) (ps qs : List (List ℕ)) → afters s (ps ++ qs) ≡ afters (afters s ps) qs
  afters-append s [] qs = refl
  afters-append s (p ∷ ps) qs = afters-append (sender.after s p) ps qs

  queue-afters : (s : S) (ps : List (List ℕ)) → sender.queue (afters s ps) ≡ sender.queue s ++ ps
  queue-afters s [] = sym (append-nil (sender.queue s))
  queue-afters s (p ∷ ps) =
      queue-afters (sender.after s p) ps
      ∙ ap (λ q. q ++ ps) (sender.after-queue s p)
      ∙ append_assoc (sender.queue s) (p ∷ []) ps

  send_all-open :
      (size : ℕ) (ps : List (List ℕ)) (s : S)
      → IsOpen size s
      → All (Fits size) ps
      → send_all ps s ≡ (all_sent, afters s ps)
  unfolding send_all
  send_all-open size [] s o fits = refl
  send_all-open size (p ∷ ps) s (o, e) ((pos, small), fits) =
      ap (λ r. on_send r (λ t. send_all ps t)) (sender.send_open s p o (omega arith))
      ∙ send_all-open size ps (sender.after s p) (IsOpen-after size s p (o, e)) fits

  lines_sent :
      (keep interactive : Bool) (size : ℕ) (ls : List (List ℕ)) (s : S)
      → IsOpen size s
      → 0 < size
      → forward_lines keep interactive size (lines ls) s
        ≡ finish keep interactive (ok tt) (afters s (packets size ls))
  unfolding forward_lines
  lines_sent keep interactive size [] s o pos = refl
  lines_sent keep interactive size (l ∷ ls) s o pos =
      let l = with_newline l in
      let ps = pieces (length l) size l in
      ap (λ c. send_chunks c s (λ t. forward_lines keep interactive size (lines ls) t))
        (chunks_pos size l pos)
      ∙ ap (λ r. after_send r (λ t. forward_lines keep interactive size (lines ls) t))
          (send_all-open size ps s o (pieces-Fits (length l) size l pos))
      ∙ lines_sent keep interactive size ls (afters s ps) (IsOpen-afters size s ps o) pos
      ∙ ap (finish keep interactive (ok tt)) (sym (afters-append s ps (packets size ls)))

  -- While the sender is open and its limit is not 0, the lines of stdin are queued as packets of 1
  -- byte up to the limit, whose bytes together are the lines with their newlines, and at the end of
  -- stdin the sending half ends as a success.
  pub forward-lines :
      (keep interactive : Bool) (ls : List (List ℕ)) (s : S)
      → sender.is_open s ≡ true
      → 0 < sender.upc_max_size s
      → (ps : List (List ℕ)) × (t : S) × (send_fut line keep interactive (lines ls) s
          ≡ finish keep interactive (ok tt) t)
        × (sender.queue t ≡ sender.queue s ++ ps)
        × (concat ps ≡ concat (map with_newline ls))
        × All (Fits (sender.upc_max_size s)) ps
  unfolding send_fut
  forward-lines keep interactive ls s o pos =
      let size = sender.upc_max_size s in
      let ps = packets size ls in
      (
        ps,
        afters s ps,
        lines_sent keep interactive size ls s (o, refl) pos,
        queue-afters s ps,
        concat-packets size ls pos,
        packets-Fits size ls pos,
      )

  send_all-gone :
      (p : List ℕ) (ps : List (List ℕ)) (s : S)
      → sender.is_open s ≡ false
      → sender.closed_kind s ≡ broken_pipe
      → length p ≤ sender.upc_max_size s
      → send_all (p ∷ ps) s ≡ (pipe_gone, s)
  unfolding send_all is_broken_pipe
  send_all-gone p ps s gone kind small =
      ap (λ r. on_send r (λ t. send_all ps t)) (sender.send_closed s p gone small) ∙ rw kind refl

  -- If the sender is closed as by the other end, the sending half of the tool ends as a success
  -- either way; but where it learns this from the send of a line, it leaves stdin open and does not
  -- notify the receiving half, while it does both as configured where it learns it from the select.
  pub send_early-return :
      (keep interactive : Bool) (l : List ℕ) (later : List Input) (s : S)
      → sender.is_open s ≡ false
      → sender.closed_kind s ≡ broken_pipe
      → 0 < sender.upc_max_size s
      → (send_fut line keep interactive (got l ∷ later) s ≡ leave (ok tt) s)
        × (send_fut line keep interactive (closed ∷ later) s ≡ finish keep interactive (ok tt) s)
  unfolding send_fut forward_lines
  send_early-return keep interactive l later s gone kind pos =
      let size = sender.upc_max_size s in
      let (p, ps, cut) = pieces-line size l in
      let fits =
        subst (All (Fits size)) cut
          (pieces-Fits (length (with_newline l)) size (with_newline l) pos) in
      (
        ap (λ c. send_chunks c s (λ t. forward_lines keep interactive size later t))
              (chunks_pos size (with_newline l) pos ∙ ap some cut)
            ∙ ap (λ r. after_send r (λ t. forward_lines keep interactive size later t))
                (send_all-gone p ps s gone kind fits.0.1),
        refl,
      )

  -- Where the peer takes no byte, the first line is the panic of `chunks`.
  pub zero_size-panics :
      (keep interactive : Bool) (l : List ℕ) (later : List Input) (s : S)
      → sender.upc_max_size s ≡ 0
      → send_fut line keep interactive (got l ∷ later) s ≡ panicked
  unfolding send_fut forward_lines chunks
  zero_size-panics keep interactive l later s zero_size =
      ap
        (λ n.
          send_chunks (chunks n (with_newline l)) s
            (λ t. forward_lines keep interactive (sender.upc_max_size s) later t))
        zero_size
