-- ===== src/Tests/Web.antt =====
-- The browser's side on concrete inputs.
use upc.Common.{ℕ, ◌≡◌, ◌&&◌, refl, List, [], ◌∷◌, true, false, Option, none, some, if◌then◌else◌}
use upc.Common.Lists.{length}
use upc.Protocol.{vendor_specific}
use upc.Caps.Device.{DeviceCapabilities}
use upc.Caps.Device
use upc.Host.Options.{UpcOptions}
use upc.Host.Interfaces.{InterfaceDesc, bulk_in, bulk_out}
use upc.Host.Connect.{next}
use upc.Host.HalfClose as NativeHandle
use upc.Host.HalfClose.{sending, receiving}
use upc.Host.OutTask as Native
use upc.Web.Errors.{WebErrorKind}
use upc.Web.Interfaces.{got}
use upc.Web.HalfClose.{new, calls}
use upc.Web.HalfClose.Laws.{erase, web_calls-same}
use upc.Web.OutTask.{Transfer, sent, failed, initial}
use upc.Web.OutTask.Laws.{Ends, web_out_task-Ends}
use upc.Web.Barrier.{Wait, arrived, expired, barrier}
use upc.Web.Barrier.Laws.{IsBarrier, barrier-IsBarrier}
use upc.Web.Connect.{Answers, connect_with}
use upc.Web.Connect.Laws.{SendsSome, handshake, web_connect_with-Sends}

-- Markers of three bytes, and a stale packet before the marker of the second round.
abbrev markers : ℕ → List ℕ
markers i = i ∷ 7 ∷ 9 ∷ []

abbrev accepts : ℕ → Option WebErrorKind
accepts i = none

abbrev stale_waits : List Wait
stale_waits =
    arrived (5 ∷ []) ∷ expired ∷ arrived (markers 0) ∷ arrived (markers 1) ∷ arrived (8 ∷ []) ∷ []

abbrev passed : List Wait
passed = arrived (8 ∷ []) ∷ []

passes : (barrier markers accepts 50 0 stale_waits).1 ≡ next passed
unfolding barrier upc.Web.Barrier.await_marker
passes = refl

barrier-IsBarrier_example :
    IsBarrier markers accepts 50 0 stale_waits (barrier markers accepts 50 0 stale_waits)
barrier-IsBarrier_example = barrier-IsBarrier markers accepts 50 0 stale_waits

abbrev caps : DeviceCapabilities
caps = record {
  ping_timeout = none;
  status_supported = true;
  max_size = 65_536;
  echo_supported = true;
}

abbrev interfaces : List InterfaceDesc
interfaces =
    record {
      number = 1;
      class = vendor_specific 22 3;
      endpoints =
          record { kind = bulk_in; max_packet_size = 512; address = 1 }
          ∷ record { kind = bulk_out; max_packet_size = 512; address = 2 }
          ∷ [];
    }
    ∷ []

abbrev answers : Answers
answers = record {
  in_use = ((4, 1) ∷ []) ∷ [] ∷ [];
  configuration = some interfaces;
  claim = none;
  clear_in = none;
  clear_out = none;
  close = none;
  caps = got (Device.encode caps);
  host_caps = none;
  markers = markers;
  echo = accepts;
  waits = stale_waits;
  open_connection = none;
}

abbrev options : UpcOptions
options = record { topic = 7 ∷ []; ping_interval = none; max_size = 1_000 }

web_connect_with-Sends_example :
    SendsSome (handshake answers options) (connect_with 4_294_967_295 answers (4, 1) options)
web_connect_with-Sends_example = web_connect_with-Sends 4_294_967_295 answers (4, 1) options

abbrev closes : List NativeHandle.Call
closes = NativeHandle.Call.sending true 5 ∷ NativeHandle.Call.receiving false ∷ []

web_calls-same_example :
    (erase (calls closes new) ≡ NativeHandle.calls closes NativeHandle.new)
    × ((calls closes new).releases
        ≡ (if (calls closes new).send_closed && (calls closes new).recv_closed then 1 else 0))
web_calls-same_example = web_calls-same closes

-- A device that stalls on the second transfer.
abbrev stalls_second : List (List ℕ) → List ℕ → Transfer
stalls_second [] d = sent (length d)
stalls_second (t ∷ ts) d = failed WebErrorKind.stall

web_out_task-Ends_example : Ends stalls_second 2 ((1 ∷ 2 ∷ []) ∷ (3 ∷ []) ∷ []) initial
web_out_task-Ends_example = web_out_task-Ends stalls_second 2 ((1 ∷ 2 ∷ []) ∷ (3 ∷ []) ∷ [])

abbrev sends_all : List (List ℕ) → List ℕ → Transfer
sends_all ts d = sent (length d)

abbrev completion : ℕ → Native.Completion
completion n = record { status = none; actual_len = n }

abbrev queued : List (List ℕ × ℕ)
queued = (1 ∷ 2 ∷ [], 1) ∷ (3 ∷ [], 0) ∷ []
