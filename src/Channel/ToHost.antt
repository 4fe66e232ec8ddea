-- ===== src/Channel/ToHost.antt =====
-- From the device's `out_task` (src/device.rs) to the host's `recv` (src/host/mod.rs).
use upc.Common.{
  ℕ, suc, ◌*◌, ◌≤◌, ◌<◌, ◌≡◌, refl, sym, ap, ◌∙◌, List, [], ◌++◌, Option, none, ErrorKind, ready,
  pending, if◌then◌else◌, map,
}
use upc.Common.Lists.{length, All}
use upc.Framing.Controller.{Controller, wire}
use upc.Framing.Transport.{receive-IsStream}
use upc.Device.OutTask.{EpOp, out_task}
use upc.Device.OutTask.Frames.{transfers, out_task-IsStream}
use upc.Host.Receiver.{UpcReceiver, packet_data, end_of_channel, into_stream}
use upc.Host.Receiver.Reassembly.{host_into_stream-IsStream}
use upc.Common.{◌∷◌, true, false}
use upc.Host.Errors.{TransferError}
use upc.Host.Receiver.{RecvPacket}
use upc.Host.InTask.{InState, InEvent, failure, running, finished, in_run}
use upc.Host.InTask.Laws.{arriving, error_kind, final_answer, in_task_ends}
use mathlib.Core.List.{append-nil}

-- If the device queues the packets `ds`, no operation of its endpoint fails, and the host's queue
-- holds the transfers of `k` packets that the endpoint model makes of what the device put on the
-- wire, then the host's stream yields exactly `ds`, in order, where none is larger than the host's
-- maximum.
pub packets_reach_host :
    {mps : ℕ} (c : Controller mps) (k : ℕ)
    → 0 < mps
    → 0 < k
    → (fails : List EpOp → EpOp → Option ErrorKind)
    → ((log : List EpOp) (op : EpOp) → fails log op ≡ none)
    → (ds : List (List ℕ)) (r : UpcReceiver) → r.max_transfer_size ≡ k * mps
    → map packet_data r.rx ≡ c.receive k (wire c (transfers (out_task fails mps (k * mps) ds).0))
    → r.buffer ≡ []
    → All (λ d. length d ≤ r.max_size) ds
    → into_stream (suc (length ds)) r
      ≡ (ds, (if r.rx_closed then ready (end_of_channel r.error) else pending))
packets_reach_host c k pos kpos fails never ds r size queued empty fits =
    let (ops, run, stream) = out_task-IsStream c k pos kpos fails never ds in
    let (ts, arrived, got) = receive-IsStream c k kpos [] stream in
    host_into_stream-IsStream r size arrived
      (queued
        ∙ ap (λ x. c.receive k (wire c (transfers x.0))) run
        ∙ ap (c.receive k) (sym (append-nil _))
        ∙ got
        ∙ ap (λ x. ts ++ x) (c.receive_none k)
        ∙ append-nil ts)
      empty fits

-- If the device queues the packets `ds`, none larger than the host's maximum, no operation of its
-- endpoint fails, and the host's receive task takes the transfers of `k` packets that the endpoint
-- model makes of what the device put on the wire, with room for each, and then a failed one, then
-- the task ends as closed by the device, and a receiver with what it delivered yields exactly `ds`,
-- in order, and then the end of the channel for a stall and the kind of the failure for any other.
pub packets_then_end :
    {mps : ℕ} (c : Controller mps) (k : ℕ)
    → 0 < mps
    → 0 < k
    → (fails : List EpOp → EpOp → Option ErrorKind)
    → ((log : List EpOp) (op : EpOp) → fails log op ≡ none)
    → (ds : List (List ℕ)) (ps : List RecvPacket) (e : TransferError) (later : List InEvent)
      (max : ℕ)
    → map packet_data ps ≡ c.receive k (wire c (transfers (out_task fails mps (k * mps) ds).0))
    → All (λ d. length d ≤ max) ds
    → (s : InState) × (in_run
          (running (record { delivered = []; error = none }))
          (arriving ps ++ (failure e ∷ later))
        ≡ finished false s)
      × (into_stream (suc (length ds)) (record {
        rx = s.delivered;
        rx_closed = true;
        error = error_kind s.error;
        buffer = [];
        max_size = max;
        max_transfer_size = k * mps;
      })
          ≡ (ds, ready (final_answer e)))
packets_then_end {mps} c k pos kpos fails never ds ps e later max arrived fits =
    let (s, run, all, answer) = in_task_ends ps e later in
    let r : UpcReceiver = record {
      rx = s.delivered;
      rx_closed = true;
      error = error_kind s.error;
      buffer = [];
      max_size = max;
      max_transfer_size = k * mps;
    } in
    (
      s,
      run,
      packets_reach_host c k pos kpos fails never ds r refl (ap (map packet_data) all ∙ arrived)
            refl fits
          ∙ ap (λ a. (ds, ready a)) answer,
    )
