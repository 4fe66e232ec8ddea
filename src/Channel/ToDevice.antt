-- ===== src/Channel/ToDevice.antt =====
-- From the host's `out_task` (src/host/native.rs) to the device's `in_task` and `recv`
-- (src/device.rs).
use upc.Common.{
  ℕ, suc, ◌*◌, ◌%◌, ◌≤◌, ◌<◌, ◌≡◌, refl, sym, ap, ◌∙◌, List, [], ◌∷◌, ◌++◌, true, none, ok, ready,
  pending, if◌then◌else◌,
}
use upc.Common.Lists.{length, concat, All}
use upc.Common.Words.{u64_mod}
use upc.Framing.{IsStream}
use upc.Framing.Controller.{Controller, wire}
use upc.Framing.Transport.{receive-IsStream, concat-IsStream}
use upc.Host.OutTask.{Completion, OutState, initial, go, stop, out_loop}
use upc.Host.OutTask.Wire.{
  submissions, submissions-IsStream, submitted_by, rounds, packets_of, out_task_announces,
}
use upc.Device.InTask.{
  InState, InEvent, announce, close_changed, running, finished, in_run, in_task,
}
use upc.Device.InTask.Laws.{in_task-IsSound, announce_completes, IsSound, Counts}
use upc.Device.Receiver.{UpcReceiver, end_of_channel, into_stream}
use upc.Device.Receiver.Reassembly.{into_stream-IsStream}
use mathlib.Core.List.{append-nil}
use mathlib.Core.Path.{subst}

end_none : end_of_channel none ≡ ok none
unfolding end_of_channel
end_none = refl

module _ {mps : ℕ} (c : Controller mps) (k : ℕ) (pos : 0 < mps) (kpos : 0 < k) where
  -- The transfers that reach the device's buffers of `k` packets.
  abbrev pub reaching : List (List ℕ) → List (List ℕ)
  reaching ds = c.receive k (wire c (submissions mps ds))

  pub reaching-IsStream : (ds : List (List ℕ)) → IsStream (k * mps) ds (reaching ds)
  reaching-IsStream ds =
      let (ts, arrived, got) = receive-IsStream c k kpos [] (submissions-IsStream c pos ds) in
      subst (λ x. IsStream (k * mps) ds x)
        (sym (
          ap (c.receive k) (sym (append-nil (wire c (submissions mps ds))))
          ∙ got
          ∙ ap (λ x. ts ++ x) (c.receive_none k)
          ∙ append-nil ts))
        arrived

  -- If the host's task, none of whose transfers fails, ends on the close of its queue after the
  -- packets of `rs`, and the device's queue holds the transfers of `k` packets that the endpoint
  -- model makes of what was submitted, then the device's stream yields exactly those packets, in
  -- order, where none is larger than the device's maximum.
  pub packets_reach_device :
      (outcome : ℕ → Completion) (rs : List (List ℕ × ℕ)) (s : OutState) (r : UpcReceiver)
      → ((n : ℕ) → (outcome n).status ≡ none)
      → out_loop outcome mps (rounds rs) (go initial) ≡ stop true s
      → r.max_transfer_size ≡ k * mps
      → r.rx ≡ c.receive k (wire c s.submitted)
      → r.buffer ≡ []
      → All (λ d. length d ≤ r.max_size) (packets_of rs)
      → into_stream (suc (length (packets_of rs))) r
        ≡ (packets_of rs, (if r.rx_closed then ready (end_of_channel r.error) else pending))
  packets_reach_device outcome rs s r good run size queued empty fits =
      let (s₁, s₂, run', fin, sub, sub') = out_task_announces outcome good mps rs in
      into_stream-IsStream r size (reaching-IsStream (packets_of rs))
        (queued ∙ ap (λ x. c.receive k (wire c x)) (ap submitted_by (sym run ∙ run') ∙ sub')) empty
        fits

  -- If the device's task has delivered all transfers of `ds` and waits, then the host's byte count
  -- of `ds`, modulo 2^64, makes it end as complete, with the same transfers delivered.
  half_close_completes :
      (ds : List (List ℕ)) (es : List InEvent) (s : InState)
      → in_task es ≡ running s
      → s.delivered ≡ reaching ds
      → let n = length (concat ds) % u64_mod in
        (r : InState) × (in_run (running s) (announce n ∷ close_changed ∷ [])
          ≡ finished (ok true) r)
        × (r.delivered ≡ reaching ds)
  half_close_completes ds es s run all =
      let counted : Counts s = subst IsSound run (in_task-IsSound es) in
      let n : ℕ = length (concat ds) % u64_mod in
      let same : s.total_received ≡ n =
        counted
        ∙ ap (λ x. length (concat x) % u64_mod) all
        ∙ ap (λ x. length x % u64_mod) (concat-IsStream (reaching-IsStream ds)) in
      let (r, ends, kept) = announce_completes s n same in (r, ends, kept ∙ all)

  -- If the device's task has delivered all transfers of `ds`, none larger than the device's
  -- maximum, and waits, then the host's byte count of `ds`, modulo 2^64, makes it end as complete,
  -- and a receiver with what it delivered, once closed, yields exactly `ds`, in order, and then the
  -- end of the channel.
  pub half_close_delivers :
      (ds : List (List ℕ)) (es : List InEvent) (s : InState) (topic : List ℕ) (max : ℕ)
      → in_task es ≡ running s
      → s.delivered ≡ reaching ds
      → All (λ d. length d ≤ max) ds
      → (t : InState) × (in_run
            (running s)
            (announce (length (concat ds) % u64_mod) ∷ close_changed ∷ [])
          ≡ finished (ok true) t)
        × (into_stream (suc (length ds)) (record {
          topic = topic;
          rx = t.delivered;
          rx_closed = true;
          buffer = [];
          max_size = max;
          max_transfer_size = k * mps;
          error = none;
        })
            ≡ (ds, ready (ok none)))
  half_close_delivers ds es s topic max run all fits =
      let (t, ends, kept) = half_close_completes ds es s run all in
      let r : UpcReceiver = record {
        topic = topic;
        rx = t.delivered;
        rx_closed = true;
        buffer = [];
        max_size = max;
        max_transfer_size = k * mps;
        error = none;
      } in
      (
        t,
        ends,
        into_stream-IsStream r refl (reaching-IsStream ds) kept refl fits
            ∙ ap (λ a. (ds, ready a)) end_none,
      )
