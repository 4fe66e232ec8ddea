-- ===== src/Web/OutTask/Faults.antt =====
-- src/host/web.rs: the transfers that `out_task` tries, one by one, and what is a failure of one.
use mathlib.Core.Path.{subst}
use upc.Common.{
  arith, false, ◌⊎◌, inl, inr, sym, Bool-cases, ℕ, ◌%◌, ◌≡◌, ◌≢◌, refl, List, [], ◌∷◌, ◌++◌, ◌&&◌,
  ltb, ◌==◌, if◌then◌else◌, Option, none, some,
}
use upc.Common.Lists.{length}
use upc.Web.Errors.{WebErrorKind, TaskError, web_usb, partial_send, get_or_insert}
use upc.Web.OutTask.{
  Transfer, sent, failed, OutState, go, stop, record_failure, after_packet, after_terminator,
}

-- A packet, or the zero-length transfer behind one.
pub data Try : Type 0 where
  whole : List ℕ → Try
  terminator : Try

abbrev pub bytes : Try → List ℕ
bytes (whole d) = d
bytes terminator = []

abbrev pub packet_tries : ℕ → List ℕ → List Try
packet_tries mps d =
    whole d ∷ (if ltb 0 (length d) && length d % mps == 0 then terminator ∷ [] else [])

abbrev pub tries : ℕ → List (List ℕ) → List Try
tries mps [] = []
tries mps (d ∷ ds) = packet_tries mps d ++ tries mps ds

-- A packet has to be sent whole.
pub data IsGood : Try → Transfer → Type 0 where
  sent_whole : (d : List ℕ) → IsGood (whole d) (sent (length d))
  ended : (n : ℕ) → IsGood terminator (sent n)

-- What a failed transfer leaves as the error of the tasks: nothing if the device stalled.
abbrev pub fault : WebErrorKind → Option TaskError
fault WebErrorKind.stall = none
fault e = some (web_usb e)

pub data IsFault : Try → Transfer → Option TaskError → Type 0 where
  partial :
      (d : List ℕ) (n : ℕ)
      → n ≢ length d
      → IsFault (whole d) (sent n) (some (partial_send (length d) n))
  broken : (x : Try) (e : WebErrorKind) → IsFault x (failed e) (fault e)

-- How the tries end.
pub data End : Type 0 where
  all_good : End
  stopped : Option TaskError → End

module _ (outcome : List (List ℕ) → List ℕ → Transfer) where
  -- The tries in order, each behind the transfers made before it: up to the first that fails, with
  -- its error, or all of them.
  pub data IsTried : List (List ℕ) → List Try → List (List ℕ) → End → Type 0 where
    nothing : (ts : List (List ℕ)) → IsTried ts [] ts all_good
    good :
        {ts us : List (List ℕ)} {xs : List Try} {end : End} (x : Try)
        → IsGood x (outcome ts (bytes x))
        → IsTried (ts ++ (bytes x ∷ [])) xs us end
        → IsTried ts (x ∷ xs) us end
    fails :
        {ts : List (List ℕ)} {xs : List Try} {e : Option TaskError} (x : Try)
        → IsFault x (outcome ts (bytes x)) e
        → IsTried ts (x ∷ xs) (ts ++ (bytes x ∷ [])) (stopped e)

record_failure-submitted :
    (e : WebErrorKind) (s : OutState) → (record_failure e s).submitted ≡ s.submitted
unfolding record_failure
record_failure-submitted WebErrorKind.stall s = refl
record_failure-submitted e s = refl

record_failure-fault :
    (e : WebErrorKind) (s : OutState) → s.error ≡ none → (record_failure e s).error ≡ fault e
unfolding record_failure get_or_insert
record_failure-fault WebErrorKind.stall s clean = clean
record_failure-fault e s clean = rw clean refl

-- A packet's transfer is good and the loop goes on, or it is a failure and the loop stops with it.
pub after_packet_cases :
    (d : List ℕ) (r : Transfer) (s : OutState)
    → s.error ≡ none
    → ((after_packet d r s ≡ go s) × IsGood (whole d) r)
      ⊎ ((t : OutState) × (after_packet d r s ≡ stop false t)
          × (t.submitted ≡ s.submitted)
          × IsFault (whole d) r t.error)
unfolding after_packet
after_packet_cases d (sent n) s clean = elim (Bool-cases (n == length d)) [
  | inl same ↦
      let n_is : n ≡ length d = ground arith in
      inl (rw same refl, subst (λ k. IsGood (whole d) (sent k)) (sym n_is) (sent_whole d))
  | inr short ↦ inr (
    record s { error = some (partial_send (length d) n) },
    rw short refl,
    refl,
    partial d n (λ e. ground arith),
  )
]
after_packet_cases d (failed e) s clean = inr (
  record_failure e s,
  refl,
  record_failure-submitted e s,
  subst (IsFault (whole d) (failed e)) (sym (record_failure-fault e s clean)) (broken (whole d) e),
)

pub after_terminator_cases :
    (r : Transfer) (s : OutState)
    → s.error ≡ none
    → ((after_terminator r s ≡ go s) × IsGood terminator r)
      ⊎ ((t : OutState) × (after_terminator r s ≡ stop false t)
          × (t.submitted ≡ s.submitted)
          × IsFault terminator r t.error)
unfolding after_terminator
after_terminator_cases (sent n) s clean = inl (refl, IsGood.ended n)
after_terminator_cases (failed e) s clean = inr (
  record_failure e s,
  refl,
  record_failure-submitted e s,
  subst (IsFault terminator (failed e)) (sym (record_failure-fault e s clean))
      (broken terminator e),
)
