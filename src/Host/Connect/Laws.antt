-- ===== src/Host/Connect/Laws.antt =====
-- The handshake that `connect_with` makes, and the limits that the channel starts with.
use upc.Common.{
  ℕ, ◌≡◌, refl, sym, ap, ◌∙◌, List, [], ◌∷◌, ◌++◌, leb, Option, none, some, Result, ok, err,
  diverged, Bool-cases, inl, inr,
}
use upc.Common.Lists.{length}
use upc.Protocol.{info_size}
use upc.Protocol.CtrlReq
use upc.Caps.Device.{DeviceCapabilities}
use upc.Caps.Device
use upc.Caps.Host
use upc.Host.Errors.{TransferError, UsbErrorKind}
use upc.Host.Options.{UpcOptions}
use upc.Host.Interfaces.{InterfaceDesc, ControlIn, got, lost}
use upc.Host.Connect.{
  Answers, Request, output, input, next, failed, panicked, waiting, Run, ◌>>=◌, ◌>>◌, Flush, stale,
  failure, timed_out, find_number, both_endpoints, get_endpoints, claim, flush, query_caps, build,
  connect_with, caps_size, claim_timeout, notify_out, open_channel, topic_too_big, usb, control_out,
  of_result, interface_endpoints,
}
use mathlib.Core.List.{append_assoc}

-- A run sends exactly these requests where it succeeds, and the first of them where it does not.
abbrev pub Sends : {A : Type 0} → List Request → Run A → Type 0
Sends hs (sent, next a) = sent ≡ hs
Sends hs (sent, failed e) = (rest : List Request) × (sent ++ rest ≡ hs)
Sends hs (sent, panicked) = (rest : List Request) × (sent ++ rest ≡ hs)
Sends hs (sent, waiting) = (rest : List Request) × (sent ++ rest ≡ hs)

pub Sends-begin :
    (hs gs : List Request) (sent : List Request)
    → (rest : List Request) × (sent ++ rest ≡ hs)
    → (rest : List Request) × (sent ++ rest ≡ hs ++ gs)
Sends-begin hs gs sent (rest, e) =
    (rest ++ gs, sym (append_assoc sent rest gs) ∙ ap (λ x. x ++ gs) e)

Sends-after :
    {B : Type 0} (hs gs sent : List Request) (r : Run B)
    → sent ≡ hs
    → Sends gs r
    → Sends (hs ++ gs) (sent ++ r.0, r.1)
Sends-after hs gs sent (more, next b) e h = rw (e, h) refl
Sends-after hs gs sent (more, failed x) e (rest, h) =
    (rest, rw (e, append_assoc hs more rest, h) refl)
Sends-after hs gs sent (more, panicked) e (rest, h) =
    (rest, rw (e, append_assoc hs more rest, h) refl)
Sends-after hs gs sent (more, waiting) e (rest, h) =
    (rest, rw (e, append_assoc hs more rest, h) refl)

module _ {A B : Type 0} where
  pub Sends-bind :
      (hs gs : List Request) (m : Run A) (f : A → Run B)
      → Sends hs m
      → ((a : A) → Sends gs (f a))
      → Sends (hs ++ gs) (m >>= f)
  Sends-bind hs gs (sent, next a) f h k = Sends-after hs gs sent (f a) h (k a)
  Sends-bind hs gs (sent, failed x) f h k = Sends-begin hs gs sent h
  Sends-bind hs gs (sent, panicked) f h k = Sends-begin hs gs sent h
  Sends-bind hs gs (sent, waiting) f h k = Sends-begin hs gs sent h

-- The requests of the handshake.
unfoldable pub handshake : UpcOptions → List Request
unfolding Host.encode
handshake options =
    output CtrlReq.close []
    ∷ input CtrlReq.capabilities caps_size
    ∷ output CtrlReq.capabilities (Host.encode (record { max_size = options.max_size }))
    ∷ output CtrlReq.open_connection options.topic
    ∷ []

pub both_endpoints-Sends : (i o : Option ℕ) (mps : ℕ) → Sends [] (both_endpoints i o mps)
unfolding both_endpoints
both_endpoints-Sends none o mps = ([], refl)
both_endpoints-Sends (some i) none mps = ([], refl)
both_endpoints-Sends (some i) (some o) mps = refl

interface_endpoints-Sends :
    (usize_max : ℕ) (i : Option InterfaceDesc) → Sends [] (interface_endpoints usize_max i)
unfolding interface_endpoints
interface_endpoints-Sends usize_max none = ([], refl)
interface_endpoints-Sends usize_max (some i) = both_endpoints-Sends _ _ _

get_endpoints-Sends :
    (usize_max : ℕ) (configuration : Option (List InterfaceDesc)) (interface : ℕ)
    → Sends [] (get_endpoints usize_max configuration interface)
unfolding get_endpoints
get_endpoints-Sends usize_max none interface = ([], refl)
get_endpoints-Sends usize_max (some is) interface =
    interface_endpoints-Sends usize_max (find_number interface is)

claim-Sends : (attempts : List (ℕ × Option UsbErrorKind)) → Sends [] (claim attempts)
unfolding claim
claim-Sends [] = ([], refl)
claim-Sends ((now, none) ∷ attempts) = refl
claim-Sends ((now, some UsbErrorKind.busy) ∷ attempts) = elim (Bool-cases (leb claim_timeout now)) [
  | inl late ↦ rw late ([], refl)
  | inr early ↦ rw early (claim-Sends attempts)
]
claim-Sends ((now, some UsbErrorKind.disconnected) ∷ attempts) = ([], refl)
claim-Sends ((now, some UsbErrorKind.permission_denied) ∷ attempts) = ([], refl)
claim-Sends ((now, some UsbErrorKind.not_found) ∷ attempts) = ([], refl)
claim-Sends ((now, some UsbErrorKind.unsupported) ∷ attempts) = ([], refl)
claim-Sends ((now, some UsbErrorKind.other) ∷ attempts) = ([], refl)

flush-Sends : (fs : List Flush) → Sends [] (flush fs)
unfolding flush
flush-Sends [] = ([], refl)
flush-Sends (stale ∷ fs) = flush-Sends fs
flush-Sends (failure ∷ fs) = refl
flush-Sends (timed_out ∷ fs) = refl

pub topic_too_big-Sends : (options : UpcOptions) → Sends [] (topic_too_big options)
topic_too_big-Sends options = elim (Bool-cases (leb (length options.topic) info_size)) [
  | inl small ↦ rw small refl
  | inr big ↦ rw big ([], refl)
]

usb-Sends : (e : Option UsbErrorKind) → Sends [] (usb e)
usb-Sends none = refl
usb-Sends (some e) = ([], refl)

control_out-Sends :
    (e : Option TransferError) (code : ℕ) (payload : List ℕ)
    → Sends (output code payload ∷ []) (control_out e code payload)
control_out-Sends none code payload = refl
control_out-Sends (some e) code payload = ([], refl)

pub of_result-Sends :
    (r : Result DeviceCapabilities)
    → Sends (input CtrlReq.capabilities caps_size ∷ []) (of_result r)
of_result-Sends (ok caps) = refl
of_result-Sends (err e) = ([], refl)
of_result-Sends diverged = (_, refl)

query_caps-Sends :
    (answer : ControlIn) → Sends (input CtrlReq.capabilities caps_size ∷ []) (query_caps answer)
unfolding query_caps
query_caps-Sends (got bytes) = of_result-Sends (Device.decode bytes)
query_caps-Sends (lost e) = refl

open_channel-Sends :
    (usize_max : ℕ) (a : Answers) (options : UpcOptions) (mps : ℕ) (caps : DeviceCapabilities)
    → Sends
        (output CtrlReq.capabilities (Host.encode (record { max_size = options.max_size }))
          ∷ output CtrlReq.open_connection options.topic
          ∷ [])
        (open_channel usize_max a options mps caps)
unfolding open_channel
open_channel-Sends usize_max a options mps caps =
    elim (a.open_connection)
      as (λ x. Sends _ (
        (notify_out a.host_caps CtrlReq.capabilities
          (Host.encode (record { max_size = options.max_size })))
        >> (control_out x CtrlReq.open_connection options.topic
            >> ([], next (build usize_max options caps mps))))) [
              | none ↦ refl
              | some e ↦ ([], refl)
            ]

-- Whatever the device answers, `connect_with` sends the control requests CLOSE, query of the
-- capabilities, capabilities of the host and OPEN in this order: all four if it succeeds, and a
-- beginning of them if it does not.
pub connect_with-Sends :
    (usize_max : ℕ) (a : Answers) (interface : ℕ) (options : UpcOptions)
    → Sends (handshake options) (connect_with usize_max a interface options)
unfolding connect_with handshake
connect_with-Sends usize_max a interface options =
    Sends-bind [] _ _ _ (topic_too_big-Sends options) λ _.
      Sends-bind [] _ _ _ (get_endpoints-Sends usize_max a.configuration interface) λ (_, (_, mps)).
        Sends-bind [] _ _ _ (claim-Sends a.claims) λ _.
          Sends-bind [] _ _ _ (usb-Sends a.open_in) λ _.
            Sends-bind [] _ _ _ (usb-Sends a.open_out) λ _.
              Sends-bind [] _ _ _ (usb-Sends a.clear_in) λ _.
                Sends-bind [] _ _ _ (usb-Sends a.clear_out) λ _.
                  Sends-bind (output CtrlReq.close [] ∷ []) _ _ _ (control_out-Sends a.close _ _)
                    λ _. Sends-bind [] _ _ _ (flush-Sends a.flushes) λ _.
                      Sends-bind (input CtrlReq.capabilities caps_size ∷ []) _ _ _
                        (query_caps-Sends a.caps)
                        λ caps. open_channel-Sends usize_max a options mps caps
