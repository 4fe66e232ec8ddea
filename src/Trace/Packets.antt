-- ===== src/Trace/Packets.antt =====
-- src/trace.rs with the feature trace-packets: the events and the numbers of the packets.
use upc.Common.{ℕ, suc, ◌+◌, ◌%◌, List, [], ◌∷◌, Bool}
use upc.Trace.{
  Span, Message, enqueued, received_data, dequeued_part, dequeued, sending_data, send_part,
  received_packet, deque_transfer, dequeing, send_terminator, data_finished, Place, outside, within,
  packet, Event, Tracing,
}

pub record Tracer : Type 0 where
  pub span : Span
  pub seq : ℕ
  pub packet_span : Place

unfoldable pub new : Span → Tracer
new span = record { span = span; seq = 0; packet_span = outside }

unfoldable pub say : Place → Message → List Event
say place message = record { place = place; message = message } ∷ []

-- The atomic counter wraps at the size of a usize.
module _ (usize_max : ℕ) where
  -- `fetch_add(1)`: the number, and the counter after it.
  unfoldable pub fetch_add : Tracer → ℕ × Tracer
  fetch_add t = (t.seq, record t { seq = (t.seq + 1) % suc usize_max })

  unfoldable pub next : Tracer → Tracer
  unfolding fetch_add
  next t = let (seq, t') = fetch_add t in record t' { packet_span = packet t.span seq }

  unfoldable pub on_enqueued : ℕ → Tracer → Tracer × List Event
  unfolding fetch_add say
  on_enqueued len t = let (seq, t') = fetch_add t in (t', say (packet t.span seq) (enqueued len))

unfoldable pub on_received_data : ℕ → Tracer → List Event
unfolding say
on_received_data len t = say t.packet_span (received_data len)

unfoldable pub on_dequeued_part : ℕ → Tracer → List Event
unfolding say
on_dequeued_part len t = say t.packet_span (dequeued_part len)

unfoldable pub on_dequeing : Tracer → List Event
unfolding say
on_dequeing t = say t.packet_span dequeing

unfoldable pub on_dequeued : ℕ → Tracer → List Event
unfolding say
on_dequeued len t = say t.packet_span (dequeued len)

unfoldable pub on_deque_transfer : ℕ → Bool → Tracer → List Event
unfolding say
on_deque_transfer len short t = say t.packet_span (deque_transfer len short)

unfoldable pub on_sending_data : ℕ → Tracer → List Event
unfolding say
on_sending_data len t = say t.packet_span (sending_data len)

unfoldable pub on_send_part : ℕ → Tracer → List Event
unfolding say
on_send_part len t = say t.packet_span (send_part len)

unfoldable pub on_send_terminator : Tracer → List Event
unfolding say
on_send_terminator t = say t.packet_span send_terminator

unfoldable pub on_data_finished : Tracer → List Event
unfolding say
on_data_finished t = say t.packet_span data_finished

unfoldable pub on_received_packet : ℕ → Tracer → List Event
unfolding say
on_received_packet len t = say (within t.span) (received_packet len)

unfoldable pub packets : ℕ → Tracing Tracer
unfolding new next on_enqueued
packets usize_max = record {
  new = new;
  next = next usize_max;
  on_enqueued = on_enqueued usize_max;
  on_received_data = on_received_data;
  on_dequeued_part = on_dequeued_part;
  on_dequeing = on_dequeing;
  on_dequeued = on_dequeued;
  on_deque_transfer = on_deque_transfer;
  on_sending_data = on_sending_data;
  on_send_part = on_send_part;
  on_send_terminator = on_send_terminator;
  on_data_finished = on_data_finished;
  on_received_packet = on_received_packet;
}
