-- ===== src/Web/Connect/Laws.antt =====
-- The handshake that the browser's `connect_with` makes.
use upc.Common.{
  ◌∙◌, ErrorKind, ℕ, zero, suc, ◌≤◌, inl, inr, refl, List, [], ◌∷◌, ◌++◌, Option, none, some,
  Result, ok, err, diverged, arith, Bool-cases,
}
use upc.Protocol.CtrlReq
use upc.Caps.Device.{DeviceCapabilities}
use upc.Caps.Device
use upc.Caps.Host
use mathlib.Core.List.{append-nil}
use upc.Host.Options.{UpcOptions}
use upc.Host.Interfaces.{InterfaceDesc, InUse, acquire}
use upc.Host.Connect.{
  Request, output, input, next, failed, panicked, waiting, Run, ◌>>=◌, ◌>>◌, find_number, build,
  caps_size,
}
use upc.Host.Connect.Laws.{
  Sends, Sends-begin, Sends-bind, topic_too_big-Sends, both_endpoints-Sends, of_result-Sends,
}
use upc.Web.Errors.{WebErrorKind}
use upc.Web.Interfaces.{ControlIn, got, lost}
use upc.Web.Barrier.{Wait, arrived, channel_closed, expired, drain}
use upc.Web.Barrier.Laws.{echoes, IsBarrier, barrier-IsBarrier}
use upc.Web.Connect.{
  Answers, web, control_out, notify_out, on_guard, take_guard, guard_retries, interface_endpoints,
  get_endpoints, query_caps, echo_retries, flush_stale, open_channel, connect_with,
}

-- A run that sends the requests for some number of ECHO rounds.
abbrev pub SendsSome : {A : Type 0} → (ℕ → List Request) → Run A → Type 0
SendsSome hs r = (n : ℕ) × (n ≤ echo_retries) × Sends (hs n) r

module _ {A B : Type 0} where
  then_some :
      (hs : List Request) (g : ℕ → List Request) (m : Run A) (f : A → Run B)
      → Sends hs m
      → ((a : A) → SendsSome g (f a))
      → SendsSome (λ n. hs ++ g n) (m >>= f)
  then_some hs g (sent, next a) f h k =
      let (n, few, s) = k a in (n, few, Sends-bind hs (g n) (sent, next a) (λ _. f a) h (λ _. s))
  then_some hs g (sent, failed e) f h k = (0, omega arith, Sends-begin hs (g 0) sent h)
  then_some hs g (sent, panicked) f h k = (0, omega arith, Sends-begin hs (g 0) sent h)
  then_some hs g (sent, waiting) f h k = (0, omega arith, Sends-begin hs (g 0) sent h)

  some_then :
      (g : ℕ → List Request) (hs : List Request) (m : Run A) (f : A → Run B)
      → SendsSome g m
      → ((a : A) → Sends hs (f a))
      → SendsSome (λ n. g n ++ hs) (m >>= f)
  some_then g hs m f (n, few, s) k = (n, few, Sends-bind (g n) hs m f s k)

drain-Sends : (ws : List Wait) → Sends [] (drain ws)
unfolding drain
drain-Sends [] = ([], refl)
drain-Sends (arrived bytes ∷ ws) = drain-Sends ws
drain-Sends (channel_closed ∷ ws) = refl
drain-Sends (expired ∷ ws) = refl

barrier_sends :
    (a : Answers) (ws : List Wait) (r : Run (List Wait))
    → IsBarrier a.markers a.echo echo_retries 0 ws r
    → SendsSome (λ n. echoes a.markers a.echo 0 n) r
barrier_sends a ws (sent, next rest) (n, _, _, lt, e, _, _) = (suc n, omega arith, e)
barrier_sends a ws (sent, failed x) (inl (late, e)) =
    (echo_retries, omega arith, ([], append-nil sent ∙ e))
barrier_sends a ws (sent, failed x) (inr (n, _, lt, e, _, _)) =
    (suc n, omega arith, ([], append-nil sent ∙ e))
barrier_sends a ws (sent, panicked) h = elim h [ ]
barrier_sends a ws (sent, waiting) (n, le, e, _) = (n, le, ([], append-nil sent ∙ e))

flush_stale-Sends :
    (a : Answers) (caps : DeviceCapabilities)
    → SendsSome (λ n. echoes a.markers a.echo 0 n) (flush_stale a caps)
unfolding flush_stale
flush_stale-Sends a caps = elim (Bool-cases (caps.echo_supported)) [
  | inl has ↦
      rw has (barrier_sends a a.waits _ (barrier-IsBarrier a.markers a.echo echo_retries 0 a.waits))
  | inr without ↦ rw without (0, omega arith, drain-Sends a.waits)
]

web-Sends : (e : Option WebErrorKind) → Sends [] (web e)
web-Sends none = refl
web-Sends (some e) = ([], refl)

control_out-Sends :
    (e : Option WebErrorKind) (code : ℕ) (payload : List ℕ)
    → Sends (output code payload ∷ []) (control_out e code payload)
control_out-Sends none code payload = refl
control_out-Sends (some e) code payload = ([], refl)

on_guard-Sends :
    (r : Result (ℕ × ℕ) × InUse) (busy : Run InUse) → Sends [] busy → Sends [] (on_guard r busy)
on_guard-Sends (ok key, set) busy h = refl
on_guard-Sends (err ErrorKind.resource_busy, set) busy h = h
on_guard-Sends (diverged, set) busy h = ([], refl)
on_guard-Sends (err e, set) busy h = ([], refl)

take_guard-Sends :
    (remaining : ℕ) (key : ℕ × ℕ) (sets : List InUse) → Sends [] (take_guard remaining key sets)
unfolding take_guard
take_guard-Sends remaining key [] = ([], refl)
take_guard-Sends zero key (set ∷ sets) = on_guard-Sends (acquire key set) _ ([], refl)
take_guard-Sends (suc remaining) key (set ∷ sets) =
    on_guard-Sends (acquire key set) _ (take_guard-Sends remaining key sets)

interface_endpoints-Sends :
    (usize_max : ℕ) (i : Option InterfaceDesc) → Sends [] (interface_endpoints usize_max i)
unfolding interface_endpoints
interface_endpoints-Sends usize_max none = ([], refl)
interface_endpoints-Sends usize_max (some i) = both_endpoints-Sends _ _ _

get_endpoints-Sends :
    (usize_max : ℕ) (configuration : Option (List InterfaceDesc)) (interface : ℕ)
    → Sends [] (get_endpoints usize_max configuration interface)
unfolding get_endpoints
get_endpoints-Sends usize_max none interface = ([], refl)
get_endpoints-Sends usize_max (some is) interface =
    interface_endpoints-Sends usize_max (find_number interface is)

query_caps-Sends :
    (answer : ControlIn) → Sends (input CtrlReq.capabilities caps_size ∷ []) (query_caps answer)
unfolding query_caps
query_caps-Sends (got bytes) = of_result-Sends (Device.decode bytes)
query_caps-Sends (lost e) = refl

-- The requests from the capabilities of the host on, with `n` ECHO rounds.
unfoldable pub opening : Answers → UpcOptions → ℕ → List Request
unfolding Host.encode
opening a options n =
    (output CtrlReq.capabilities (Host.encode (record { max_size = options.max_size })) ∷ [])
    ++ (echoes a.markers a.echo 0 n ++ (output CtrlReq.open_connection options.topic ∷ []))

-- The requests of the handshake, with `n` ECHO rounds.
unfoldable pub handshake : Answers → UpcOptions → ℕ → List Request
unfolding opening
handshake a options n =
    (output CtrlReq.close [] ∷ [])
    ++ ((input CtrlReq.capabilities caps_size ∷ []) ++ opening a options n)

notify_out-Sends :
    (e : Option WebErrorKind) (code : ℕ) (payload : List ℕ)
    → Sends (output code payload ∷ []) (notify_out e code payload)
notify_out-Sends e code payload = refl

returned-Sends :
    {A : Type 0} (e : Option WebErrorKind) (code : ℕ) (payload : List ℕ) (a : A)
    → Sends (output code payload ∷ []) (control_out e code payload >> ([], next a))
returned-Sends none code payload a = refl
returned-Sends (some e) code payload a = ([], refl)

open_channel_sends :
    (usize_max : ℕ) (a : Answers) (options : UpcOptions) (mps : ℕ) (caps : DeviceCapabilities)
    → SendsSome (opening a options) (open_channel usize_max a options mps caps)
unfolding open_channel opening
open_channel_sends usize_max a options mps caps =
    let host = Host.encode (record { max_size = options.max_size }) in
    let rest = λ (waits : List Wait).
      control_out a.open_connection CtrlReq.open_connection options.topic
      >> ([], next (build usize_max options caps mps, waits)) in
    let sent = output CtrlReq.open_connection options.topic ∷ [] in
    let waiting_for = λ (n : ℕ). echoes a.markers a.echo 0 n in
    then_some (output CtrlReq.capabilities host ∷ []) (λ n. waiting_for n ++ sent)
      (notify_out a.host_caps CtrlReq.capabilities host) (λ _. flush_stale a caps >>= rest)
      (notify_out-Sends a.host_caps CtrlReq.capabilities host)
      λ _.
        some_then waiting_for sent (flush_stale a caps) rest (flush_stale-Sends a caps)
          λ waits. returned-Sends a.open_connection _ _ _

-- Whatever browser and device answer, the browser's `connect_with` sends the control requests
-- CLOSE, query of the capabilities, capabilities of the host, at most 50 ECHO and OPEN in this
-- order: all of them if it succeeds, and a beginning of them if it does not.
pub web_connect_with-Sends :
    (usize_max : ℕ) (a : Answers) (key : ℕ × ℕ) (options : UpcOptions)
    → SendsSome (handshake a options) (connect_with usize_max a key options)
unfolding connect_with handshake
web_connect_with-Sends usize_max a (handle, interface) options =
    let h = handshake a options in
    then_some [] h _ _ (topic_too_big-Sends options) λ _.
      then_some [] h _ _ (take_guard-Sends guard_retries (handle, interface) a.in_use) λ _.
        then_some [] h _ _ (get_endpoints-Sends usize_max a.configuration interface)
          λ (_, (_, mps)). then_some [] h _ _ (web-Sends a.claim) λ _.
            then_some [] h _ _ (web-Sends a.clear_in) λ _.
              then_some [] h _ _ (web-Sends a.clear_out) λ _.
                then_some (output CtrlReq.close [] ∷ [])
                  (λ n. (input CtrlReq.capabilities caps_size ∷ []) ++ opening a options n) _ _
                  (control_out-Sends a.close _ _)
                  λ _.
                    then_some (input CtrlReq.capabilities caps_size ∷ []) (opening a options) _ _
                      (query_caps-Sends a.caps)
                      λ caps. open_channel_sends usize_max a options mps caps
