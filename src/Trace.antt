-- ===== src/Trace.antt =====
-- src/trace.rs: the packet tracer, with its two implementations.
pub mod Packets
pub mod NoOp
pub mod OutTask
use upc.Common.{ℕ, List, Bool}

-- The spans of the tracers; those of the host carry the name of the connection.
pub data Span : Type 0 where
  device_enqueue device_dequeue device_in device_out : Span
  host_enqueue host_dequeue host_in host_out : List ℕ → Span

pub data Message : Type 0 where
  enqueued received_data dequeued_part dequeued sending_data send_part : ℕ → Message
  received_packet : ℕ → Message
  deque_transfer : ℕ → Bool → Message
  dequeing send_terminator data_finished : Message

-- The span that an event is in: none of the tracer's, its own, or that of one packet with its number.
pub data Place : Type 0 where
  outside : Place
  within : Span → Place
  packet : Span → ℕ → Place

pub record Event : Type 0 where
  pub place : Place
  pub message : Message

-- What the tasks use of a tracer: the eight that are made, the next packet, and the reports. A report
-- gives the events; that of a queued packet counts it as well.
pub record Tracing (Tracer : Type 0) : Type 0 where
  pub new : Span → Tracer
  pub next : Tracer → Tracer
  pub on_enqueued : ℕ → Tracer → Tracer × List Event
  pub on_received_data : ℕ → Tracer → List Event
  pub on_dequeued_part : ℕ → Tracer → List Event
  pub on_dequeing : Tracer → List Event
  pub on_dequeued : ℕ → Tracer → List Event
  pub on_deque_transfer : ℕ → Bool → Tracer → List Event
  pub on_sending_data : ℕ → Tracer → List Event
  pub on_send_part : ℕ → Tracer → List Event
  pub on_send_terminator : Tracer → List Event
  pub on_data_finished : Tracer → List Event
  pub on_received_packet : ℕ → Tracer → List Event
