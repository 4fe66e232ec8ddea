-- ===== src/Host/Receiver/Oversize.antt =====
-- `UpcReceiver::recv` of src/host/mod.rs on a message above the maximum, queued in one go or not.
use upc.Common.{
  ℕ, ◌≤◌, ◌≡◌, refl, sym, ap, ◌∙◌, List, [], ◌∷◌, ◌++◌, Bool, true, false, le→ltb, some, ok, ready,
  map, arith,
}
use mathlib.Core.List.{map-append, append_assoc, append-nil}
use upc.Common.Lists.{concat-append, length, concat, All, length-append}
use upc.Host.Receiver.{
  RecvPacket, packet_data, UpcReceiver, Batch, drain, take_batch, recv_loop, recv,
}
use upc.Host.Receiver.Reassembly.{add_batch_lem}
use upc.Host.Receiver.Schedule.{arrive, Step, arrives, polled, answers}
use upc.Framing.{IsFrame}
use upc.Host.Receiver.Reassembly.{host_recv-IsFrame}
use upc.Common.{err, out_of_memory, ◌<◌, lt→ltb}

module _ (size : ℕ) where
  drain_full :
      (ps : List RecvPacket)
      → All (λ p. size ≤ length (packet_data p)) ps
      → drain size ps ≡ record { batch = ps; rest = []; short = false }
  unfolding drain
  drain_full [] u = refl
  drain_full (p ∷ ps) (full, fulls) =
      rw (le→ltb (length (packet_data p)) size full)
        (ap (λ (b : Batch). record b { batch = p ∷ b.batch }) (drain_full ps fulls))

  drain_through :
      (ps : List RecvPacket) (last : RecvPacket)
      → All (λ p. size ≤ length (packet_data p)) ps
      → length (packet_data last) < size
      → drain size (ps ++ last ∷ []) ≡ record { batch = ps ++ last ∷ []; rest = []; short = true }
  unfolding drain
  drain_through [] last u short = rw (lt→ltb (length (packet_data last)) size short) refl
  drain_through (p ∷ ps) last (full, fulls) short =
      rw (le→ltb (length (packet_data p)) size full)
        (ap (λ (b : Batch). record b { batch = p ∷ b.batch }) (drain_through ps last fulls short))

module _ (size : ℕ) (p : RecvPacket) (ps : List RecvPacket) where
  take_full :
      size ≤ length (packet_data p)
      → All (λ p. size ≤ length (packet_data p)) ps
      → take_batch size p ps ≡ record { batch = ps; rest = []; short = false }
  unfolding take_batch
  take_full full fulls = rw (le→ltb (length (packet_data p)) size full) (drain_full size ps fulls)

  take_through :
      (last : RecvPacket)
      → size ≤ length (packet_data p)
      → All (λ p. size ≤ length (packet_data p)) ps
      → length (packet_data last) < size
      → take_batch size p (ps ++ last ∷ [])
        ≡ record { batch = ps ++ last ∷ []; rest = []; short = true }
  unfolding take_batch
  take_through last full fulls short =
      rw (le→ltb (length (packet_data p)) size full) (drain_through size ps last fulls short)

concat-map_append :
    (ps qs : List RecvPacket)
    → concat (map packet_data (ps ++ qs))
      ≡ concat (map packet_data ps) ++ concat (map packet_data qs)
concat-map_append ps qs =
    ap concat (map-append packet_data ps qs)
    ∙ concat-append (map packet_data ps) (map packet_data qs)

-- A round whose batch takes all that is queued and is above the maximum refuses and discards it.
refuse :
    (p : RecvPacket) (ps : List RecvPacket) (short : Bool) (r : UpcReceiver)
    → r.buffer ≡ []
    → r.rx ≡ p ∷ ps
    → take_batch r.max_transfer_size p ps ≡ record { batch = ps; rest = []; short = short }
    → r.max_size < length (concat (map packet_data (p ∷ ps)))
    → recv r ≡ (ready (err out_of_memory), record r { rx = []; buffer = [] })
unfolding recv recv_loop
refuse p ps short r empty queued taken over =
    rw
      (
        queued,
        taken,
        add_batch_lem r.buffer p ps,
        empty,
        lt→ltb r.max_size (length (concat (map packet_data (p ∷ ps)))) over,
      )
      refl

arrives-answers :
    (ps : List RecvPacket) (es : List Step) (r : UpcReceiver)
    → answers (map arrives ps ++ es) r ≡ answers es (arrive ps r)
unfolding answers
arrives-answers [] es r = ap (λ q. answers es (record r { rx = q })) (sym (append-nil r.rx))
arrives-answers (p ∷ ps) es r =
    arrives-answers ps es (arrive (p ∷ []) r)
    ∙ ap (λ q. answers es (record r { rx = q })) (append_assoc r.rx (p ∷ []) ps)

-- A receiver with nothing in its queue and its buffer.
abbrev pub idle : UpcReceiver → UpcReceiver
idle r = record r { rx = []; buffer = [] }

module _ (r : UpcReceiver) (is_open : r.rx_closed ≡ false) where
  refused_poll :
      (es : List Step) (ps : List RecvPacket)
      → recv (arrive ps (idle r)) ≡ (ready (err out_of_memory), idle r)
      → (answers (map arrives ps ++ polled ∷ es) (idle r)).0
        ≡ err out_of_memory ∷ (answers es (idle r)).0
  unfolding answers
  refused_poll es ps refused = rw (arrives-answers ps (polled ∷ es) (idle r), refused) refl

  idle_poll : (answers (polled ∷ []) (idle r)).0 ≡ []
  unfolding answers recv recv_loop
  idle_poll = rw is_open refl

  last_poll :
      (last : RecvPacket)
      → length (packet_data last) < r.max_transfer_size
      → length (packet_data last) ≤ r.max_size
      → (answers (arrives last ∷ polled ∷ []) (idle r)).0 ≡ ok (some (packet_data last)) ∷ []
  unfolding answers
  last_poll last short fits =
      let whole : packet_data last ++ [] ≡ packet_data last = append-nil (packet_data last) in
      let one =
        host_recv-IsFrame (last ∷ []) [] (arrive (last ∷ []) (idle r))
          (IsFrame.last (packet_data last) short) refl (rw whole fits) in
      rw (one, whole) refl

  -- Where the full transfers of a message are together above the maximum of the host's receiver,
  -- which holds nothing before, and its short last transfer is within it: if all of them are queued
  -- at the first poll, that poll is answered with OutOfMemory and the next one waits; if the last
  -- transfer arrives between the polls, the second poll returns it as a packet.
  pub oversized_by_time :
      (p : RecvPacket) (ps : List RecvPacket) (last : RecvPacket)
      → All (λ t. r.max_transfer_size ≤ length (packet_data t)) (p ∷ ps)
      → length (packet_data last) < r.max_transfer_size
      → r.max_size < length (concat (map packet_data (p ∷ ps)))
      → length (packet_data last) ≤ r.max_size
      → ((answers (map arrives ((p ∷ ps) ++ last ∷ []) ++ polled ∷ polled ∷ []) (idle r)).0
          ≡ err out_of_memory ∷ [])
        × ((answers (map arrives (p ∷ ps) ++ polled ∷ arrives last ∷ polled ∷ []) (idle r)).0
            ≡ err out_of_memory ∷ ok (some (packet_data last)) ∷ [])
  oversized_by_time p ps last (full, fulls) short over fits =
      let bytes =
        length-append (concat (map packet_data (p ∷ ps))) (concat (map packet_data (last ∷ []))) in
      let joined = ap length (concat-map_append (p ∷ ps) (last ∷ [])) in
      let at_once =
        refuse p (ps ++ last ∷ []) true (arrive ((p ∷ ps) ++ last ∷ []) (idle r)) refl refl
          (take_through r.max_transfer_size p ps last full fulls short)
          (omega (arith, bytes, joined)) in
      let before =
        refuse p ps false (arrive (p ∷ ps) (idle r)) refl refl
          (take_full r.max_transfer_size p ps full fulls) over in
      (
        refused_poll (polled ∷ []) ((p ∷ ps) ++ last ∷ []) at_once
            ∙ ap (◌∷◌ (err out_of_memory)) idle_poll,
        refused_poll (arrives last ∷ polled ∷ []) (p ∷ ps) before
            ∙ ap (◌∷◌ (err out_of_memory)) (last_poll last short fits),
      )
