-- ===== src/Channel/Tools.antt =====
-- The command-line tool on both sides of a channel: src/bin/upc.rs over src/host/native.rs and
-- src/device.rs. Also the browser's `out_task` (src/host/web.rs) towards the device.
use upc.Common.{
  ℕ, suc, ◌*◌, ◌≤◌, ◌<◌, ◌≡◌, inl, inr, refl, sym, ap, ◌∙◌, List, [], ◌∷◌, ◌++◌, map, Bool, true,
  false, none, ok, ready, pending, if◌then◌else◌, arith,
}
use mathlib.Core.Path.{subst}
use upc.Common.Lists.{length, concat, All}
use upc.Framing.Controller.{Controller, wire}
use upc.Host.OutTask.{Completion, OutState, initial, go, stop, out_loop}
use upc.Host.OutTask.Wire.{rounds, packets_of, submissions}
use upc.Host.Sender.{UpcSender}
use upc.Device.Receiver.{UpcReceiver, end_of_channel, into_stream}
use upc.Device.Receiver.Reassembly.{into_stream-IsStream}
use upc.Channel.ToDevice.{packets_reach_device, reaching-IsStream}
use upc.Web.OutTask as Web
use upc.Web.OutTask.Laws.{web_out_task-Ends}
use upc.Web.OutTask.Laws as WebLaws
use upc.Cli.Sender.{host_sender}
use upc.Cli.Forward.{line, Outcome, finish, send_fut}
use upc.Cli.Forward as Forward
use upc.Cli.Forward.Chunks.{Fits, lines, with_newline}
use upc.Cli.Forward.Laws.{forward-lines}
use upc.Cli.Output.{ended, finished, recv_fut}
use upc.Cli.Output.Laws.{Arrival, events, arrived, recv_fut-finished}

-- The sender at the end of the sending half.
abbrev left_by : UpcSender → Outcome UpcSender → UpcSender
left_by s (Forward.Outcome.ended e) = e.tx
left_by s Forward.Outcome.panicked = s
left_by s (Forward.Outcome.waits t) = t

Fits-≤ :
    (size limit : ℕ) (ps : List (List ℕ))
    → size ≤ limit
    → All (Fits size) ps
    → All (λ p. length p ≤ limit) ps
Fits-≤ size limit [] le h = tt
Fits-≤ size limit (p ∷ ps) le ((pos, fits), h) = (omega arith, Fits-≤ size limit ps le h)

module _ {mps : ℕ} (c : Controller mps) (k : ℕ) (pos : 0 < mps) (kpos : 0 < k) where
  -- If the tool on the host has sent the lines of its stdin, no transfer of the host's task fails
  -- and the task ends on the close of its queue, the device's queue holds the transfers of `k`
  -- packets that the endpoint model makes of what was submitted, and the host's limit is not above
  -- the device's maximum, then the tool on the device, given what the device's stream yields at
  -- whatever times and then the end, writes exactly the lines with their newlines to its stdout and
  -- ends as a success.
  pub lines_reach_stdout :
      (keep interactive keep_device : Bool) (ls : List (List ℕ)) (s t : UpcSender)
      (outcome : ℕ → Completion) (rs : List (List ℕ × ℕ)) (out : OutState) (r : UpcReceiver)
      (arrivals : List Arrival) (now : ℕ)
      → s.tx ≡ []
      → s.tx_closed ≡ false
      → 0 < s.max_size
      → send_fut line keep interactive (lines ls) s ≡ finish keep interactive (ok tt) t
      → packets_of rs ≡ t.tx
      → ((n : ℕ) → (outcome n).status ≡ none)
      → out_loop outcome mps (rounds rs) (go initial) ≡ stop true out
      → r.max_transfer_size ≡ k * mps
      → r.rx ≡ c.receive k (wire c out.submitted)
      → r.buffer ≡ []
      → s.max_size ≤ r.max_size
      → into_stream (suc (length (packets_of rs))) r
        ≡ (arrived arrivals, ready (end_of_channel r.error))
      → (written : List (List ℕ)) × (recv_fut keep_device
            (events arrivals ++ ((now, finished) ∷ []))
          ≡ ended (record { written = written; result = ok tt; stdout_open = keep_device }))
        × (concat written ≡ concat (map with_newline ls))
  lines_reach_stdout keep interactive keep_device ls s t outcome rs out r arrivals now fresh is_open
        room run taken good ran size queued empty fits answered =
      let (ps, left, sends, put, bytes, small) =
        forward-lines keep interactive ls s (rw is_open refl) room in
      let same : packets_of rs ≡ ps =
        taken ∙ ap (λ x. x.tx) (ap (left_by s) (sym run ∙ sends)) ∙ put ∙ ap (λ q. q ++ ps) fresh in
      let got : arrived arrivals ≡ packets_of rs =
        ap (λ x. x.0)
          (sym answered
            ∙ packets_reach_device c k pos kpos outcome rs out r good ran size queued empty (
                subst (All (λ p. length p ≤ r.max_size)) (sym same)
                  (Fits-≤ s.max_size r.max_size ps fits small))) in
      (arrived arrivals, recv_fut-finished keep_device arrivals now, ap concat (got ∙ same) ∙ bytes)

  -- The transfers of the browser's task, at its end.
  abbrev made : Web.Flow → List (List ℕ)
  made (Web.go t) = t.submitted
  made (Web.stop h t) = t.submitted

  made_all :
      (outcome : List (List ℕ) → List ℕ → Web.Transfer) (ds : List (List ℕ)) (t : Web.OutState)
      → Web.out_loop outcome mps (WebLaws.rounds ds) (Web.go Web.initial) ≡ Web.stop true t
      → WebLaws.Ends outcome mps ds Web.initial
      → t.submitted ≡ submissions mps ds
  made_all outcome ds t run (inl (u, run', sub, _, _, _)) = ap made (sym run ∙ run') ∙ sub
  made_all outcome ds t run (inr (u, run', left, tried)) = absurd (cc)

  -- If the browser's send task ends on the close of its queue behind the packets `ds`, and the
  -- device's queue holds the transfers of `k` packets that the endpoint model makes of what was
  -- sent, then the device's stream yields exactly `ds`, in order, where none is larger than the
  -- device's maximum.
  pub web_packets_reach_device :
      (outcome : List (List ℕ) → List ℕ → Web.Transfer) (ds : List (List ℕ)) (t : Web.OutState)
      (r : UpcReceiver)
      → Web.out_loop outcome mps (WebLaws.rounds ds) (Web.go Web.initial) ≡ Web.stop true t
      → r.max_transfer_size ≡ k * mps
      → r.rx ≡ c.receive k (wire c t.submitted)
      → r.buffer ≡ []
      → All (λ d. length d ≤ r.max_size) ds
      → into_stream (suc (length ds)) r
        ≡ (ds, (if r.rx_closed then ready (end_of_channel r.error) else pending))
  web_packets_reach_device outcome ds t r run size queued empty fits =
      into_stream-IsStream r size (reaching-IsStream c k pos kpos ds)
        (queued
          ∙ ap (λ x. c.receive k (wire c x))
              (made_all outcome ds t run (web_out_task-Ends outcome mps ds)))
        empty fits
