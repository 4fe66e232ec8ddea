-- ===== src/Trace/NoOp.antt =====
-- src/trace.rs without the feature trace-packets: nothing is kept and nothing reported.
use upc.Common.{[]}
use upc.Trace.{Tracing}

unfoldable pub no_op : Tracing (Unit {0})
no_op = record {
  new = λ span. tt;
  next = λ t. t;
  on_enqueued = λ len t. (t, []);
  on_received_data = λ len t. [];
  on_dequeued_part = λ len t. [];
  on_dequeing = λ t. [];
  on_dequeued = λ len t. [];
  on_deque_transfer = λ len short t. [];
  on_sending_data = λ len t. [];
  on_send_part = λ len t. [];
  on_send_terminator = λ t. [];
  on_data_finished = λ t. [];
  on_received_packet = λ len t. [];
}
