-- ===== src/Tests/Tools.antt =====
-- Two tools and a browser over a bulk endpoint with packets of four bytes.
use upc.Common.{
  ℕ, zero, suc, ◌*◌, ◌≡◌, refl, List, [], ◌∷◌, ◌++◌, map, true, false, none, some, ok, arith, ready,
}
use upc.Common.Lists.{concat}
use upc.Framing.Controller.{wire}
use upc.Tests.Usb.{usb, collect, split}
use upc.Device.Receiver
use upc.Host.Sender.{UpcSender, send}
use upc.Host.OutTask.{Completion, OutState, initial, go, stop, out_loop}
use upc.Host.OutTask.Wire.{rounds}
use upc.Cli.Sender.{host_sender}
use upc.Cli.Forward.{line, finish, send_fut}
use upc.Cli.Forward.Chunks.{lines, with_newline}
use upc.Cli.Output.{ended, finished, recv_fut}
use upc.Cli.Output.Laws.{Arrival, events, arrived}
use upc.Channel.Tools.{lines_reach_stdout}

abbrev typed : List (List ℕ)
typed = (1 ∷ 2 ∷ 3 ∷ []) ∷ (5 ∷ []) ∷ []

abbrev packets : List (List ℕ)
packets = (1 ∷ 2 ∷ 3 ∷ 10 ∷ []) ∷ (5 ∷ 10 ∷ []) ∷ []

abbrev sender : List (List ℕ) → UpcSender
sender tx = record { tx = tx; tx_closed = false; error = none; max_size = 4 }

forwarded :
    send_fut line false false (lines typed) (sender [])
    ≡ finish false false (ok tt) (sender packets)
unfolding send_fut send
forwarded = refl

abbrev queued : List (List ℕ × ℕ)
queued = (1 ∷ 2 ∷ 3 ∷ 10 ∷ [], 0) ∷ (5 ∷ 10 ∷ [], 0) ∷ []

abbrev whole : ℕ → Completion
whole zero = record { status = none; actual_len = 4 }
whole (suc n) = record { status = none; actual_len = 2 * n }

whole_good : (n : ℕ) → (whole n).status ≡ none
whole_good zero = refl
whole_good (suc n) = refl

abbrev transfers : List (List ℕ)
transfers = (1 ∷ 2 ∷ 3 ∷ 10 ∷ []) ∷ [] ∷ (5 ∷ 10 ∷ []) ∷ []

abbrev submitted : OutState
submitted = record {
  submitted = transfers;
  pending = 4 ∷ 0 ∷ 2 ∷ [];
  completed = 0;
  total_bytes_sent = 6;
  error = none;
}

ran : out_loop whole 4 (rounds queued) (go initial) ≡ stop true submitted
unfolding out_loop
ran = refl

abbrev device : Receiver.UpcReceiver
device = record {
  topic = [];
  rx = packets;
  rx_closed = true;
  buffer = [];
  max_size = 16;
  max_transfer_size = 8;
  error = none;
}

device_queue : packets ≡ (usb 3).receive 2 (wire (usb 3) transfers)
unfolding wire collect split
device_queue = refl

abbrev arrivals : List Arrival
arrivals = (3, some (1 ∷ 2 ∷ 3 ∷ 10 ∷ [])) ∷ (900, none) ∷ (950, some (5 ∷ 10 ∷ [])) ∷ []

streamed : Receiver.into_stream 3 device ≡ (arrived arrivals, ready (Receiver.end_of_channel none))
unfolding Receiver.into_stream Receiver.recv
streamed = refl

lines_reach_stdout_example :
    (written : List (List ℕ)) × (recv_fut true (events arrivals ++ ((1_000, finished) ∷ []))
      ≡ ended (record { written = written; result = ok tt; stdout_open = true }))
    × (concat written ≡ concat (map with_newline typed))
lines_reach_stdout_example =
    lines_reach_stdout (usb 3) 2 (omega arith) (omega arith) false false true typed (sender [])
      (sender packets) whole queued submitted device arrivals 1_000 refl refl (omega arith)
      forwarded refl whole_good ran refl device_queue refl (omega arith) streamed
