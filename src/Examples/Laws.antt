-- ===== src/Examples/Laws.antt =====
-- The test packets of examples/common.rs in the two halves of examples/host.rs and examples/device.rs.
use upc.Common.{
  ℕ, zero, suc, ◌+◌, ◌≤◌, ◌<◌, ◌≡◌, refl, sym, ap, ◌∙◌, List, [], ◌∷◌, ◌++◌, true, Option, none,
  some, Result, ok, Poll, ready, arith, ==-refl,
}
use mathlib.Core.List.{append_assoc, append-nil}
use mathlib.Core.Path.{subst}
use upc.Common.Lists.{length, concat, All, length-append}
use upc.Cli.Sender.{UpcSend}
use upc.Host.Interfaces.{same_bytes}
use upc.Examples.TestData.{
  ChaCha8Rng, TestData, new, next_length, generate, validate, test_packet_max_size,
}
use upc.Examples.Halves.{closed, panicked, send_half, receive_half}

-- The receiver answers with these packets and then with the end of the channel.
module _ {R : Type 0} (recv : R → Poll (Result (Option (List ℕ))) × R) where
  abbrev pub Yields : R → List (List ℕ) → Type 0
  Yields r [] = (recv r).0 ≡ ready (ok none)
  Yields r (d ∷ ds) = ((recv r).0 ≡ ready (ok (some d))) × Yields (recv r).1 ds

-- What rand promises: a number of a range that is not empty, and a slice filled as it is long.
pub record RngLaws {Rng : Type 0} (chacha : ChaCha8Rng Rng) : Type 0 where
  pub in_range :
      (m : ℕ) (r : Rng)
      → 0 < m
      → (n : ℕ) × (s : Rng) × (chacha.random_range m r ≡ some (n, s)) × (n < m)
  pub filled : (n : ℕ) (r : Rng) → length (chacha.fill_bytes n r).0 ≡ n

same_bytes_refl : (bs : List ℕ) → same_bytes bs bs ≡ true
unfolding same_bytes
same_bytes_refl [] = refl
same_bytes_refl (b ∷ bs) = rw (==-refl b, same_bytes_refl bs) refl

-- A generator whose lengths are all within `max`.
abbrev pub Bounded : {Rng : Type 0} → ℕ → TestData Rng → Type 0
Bounded max td = (0 < td.max_length) × (td.max_length ≤ max) × All (λ len. len ≤ max) td.pre_lengths

total_behind :
    (total : ℕ) (d : List ℕ) (ds : List (List ℕ))
    → (total + length d) + length (concat ds) ≡ total + length (concat (d ∷ ds))
total_behind total d ds = omega (arith, length-append d (concat ds))

module _ {Rng : Type 0} (chacha : ChaCha8Rng Rng) where
  -- The packets that a generator makes, one after the other.
  unfoldable pub test_packets : ℕ → TestData Rng → List (List ℕ)
  test_packets zero td = []
  test_packets (suc n) td = elim (generate chacha td) [
    | some (packet, next) ↦ packet ∷ test_packets n next
    | none ↦ []
  ]

  test_packets_next :
      (n : ℕ) (td : TestData Rng) {packet : List ℕ} {next : TestData Rng}
      → generate chacha td ≡ some (packet, next)
      → test_packets (suc n) td ≡ packet ∷ test_packets n next
  unfolding test_packets
  test_packets_next n td e =
      ap (λ g. elim g [ some (packet, next) ↦ packet ∷ test_packets n next | none ↦ [] ]) e

  pub new-Bounded : (seed : ℕ) → Bounded test_packet_max_size (new chacha seed test_packet_max_size)
  unfolding new
  new-Bounded seed = (omega arith, omega arith, ground arith)

  module _ (laws : RngLaws chacha) (max : ℕ) where
    next_length-Bounded :
        (lens : List ℕ) (rng : Rng) (m : ℕ)
        → let td : TestData Rng = record { rng = rng; max_length = m; pre_lengths = lens } in
          Bounded max td
          → (len : ℕ) × (next : TestData Rng) × (next_length chacha td ≡ some (len, next))
            × (len ≤ max)
            × Bounded max next
    unfolding next_length
    next_length-Bounded [] rng m (pos, bound, small) =
        let (n, s, drawn, below) = laws.in_range m rng pos in
        (
          n,
          record { rng = s; max_length = m; pre_lengths = [] },
          rw (next_length, drawn) refl,
          omega arith,
          (pos, bound, small),
        )
    next_length-Bounded (len ∷ lens) rng m (pos, bound, (fit, fits)) =
        (len, _, refl, fit, (pos, bound, fits))

    generate-Bounded :
        (td : TestData Rng)
        → Bounded max td
        → (packet : List ℕ) × (next : TestData Rng) × (generate chacha td ≡ some (packet, next))
          × (length packet ≤ max)
          × Bounded max next
    unfolding generate
    generate-Bounded td bounded =
        let (len, next, e, small, later) =
          next_length-Bounded td.pre_lengths td.rng td.max_length bounded in
        let (packet, rng) = chacha.fill_bytes len next.rng in
        (
          packet,
          record next { rng = rng },
          rw (generate, e) refl,
          rw (laws.filled len next.rng) small,
          later,
        )

    validates :
        (td : TestData Rng) (packet : List ℕ) (next : TestData Rng)
        → generate chacha td ≡ some (packet, next)
        → validate chacha packet td ≡ some next
    unfolding validate
    validates td packet next e =
        rw (validate, e, ==-refl (length packet), same_bytes_refl packet) refl

    pub test_packets-fit :
        (n : ℕ) (td : TestData Rng)
        → Bounded max td
        → (length (test_packets n td) ≡ n) × All (λ d. length d ≤ max) (test_packets n td)
    unfolding test_packets
    test_packets-fit zero td bounded = (refl, tt)
    test_packets-fit (suc n) td bounded =
        let (packet, next, e, small, later) = generate-Bounded td bounded in
        let (count, fits) = test_packets-fit n next later in
        rw (test_packets_next n td e) (ap suc count, (small, fits))

    module _ {S : Type 0} (u : UpcSend S) where
      send_next :
          (n : ℕ) (td : TestData Rng) (total : ℕ) (s : S) {packet : List ℕ} {next : TestData Rng}
          {s' : S}
          → generate chacha td ≡ some (packet, next)
          → u.upc_send s packet ≡ (ok tt, s')
          → send_half chacha u (suc n) td total s
            ≡ send_half chacha u n next (total + length packet) s'
      unfolding send_half
      send_next n td total s {packet = packet} {next = next} e sent =
          ap
            (λ g. elim g [
              | some (packet, next) ↦
                  let (sent, s') = u.upc_send s packet in
                  elim sent [
                    | ok done ↦ send_half chacha u n next (total + length packet) s'
                    | _ ↦ none
                  ]
              | none ↦ none
            ])
            e
          ∙ ap
              (λ sent. elim sent.0 [
                | ok done ↦ send_half chacha u n next (total + length packet) sent.1
                | _ ↦ none
              ])
              sent

      -- Over an open sender whose limit is not below `max`, the sending half sends all its packets
      -- without a panic, and gives the sum of their lengths.
      pub send_half-packets :
          (n : ℕ) (td : TestData Rng) (total : ℕ) (s : S)
          → Bounded max td
          → u.is_open s ≡ true
          → max ≤ u.upc_max_size s
          → (s' : S) × (send_half chacha u n td total s
              ≡ some (total + length (concat (test_packets n td)), s'))
            × (u.queue s' ≡ u.queue s ++ test_packets n td)
      unfolding send_half test_packets
      send_half-packets zero td total s bounded is_open room =
          (s, ap (λ t. some (t, s)) (omega arith), sym (append-nil (u.queue s)))
      send_half-packets (suc n) td total s bounded is_open room =
          let (packet, next, e, small, later) = generate-Bounded td bounded in
          let sent = u.send_open s packet is_open (omega arith) in
          let (s', run, queued) =
            send_half-packets n next (total + length packet) (u.after s packet) later
              (u.after-is_open s packet ∙ is_open) (rw (u.after-max_size s packet) room) in
          (
            s',
            send_next n td total s e sent
                ∙ (run
                    ∙ ap (λ t. some (t, s'))
                        (total_behind total packet (test_packets n next)
                          ∙ ap (λ ds. total + length (concat ds))
                              (sym (test_packets_next n td e)))),
            rw (test_packets_next n td e) (
                queued
                ∙ rw (u.after-queue s packet)
                    (append_assoc (u.queue s) (packet ∷ []) (test_packets n next))),
          )

    module _ {R : Type 0} (recv : R → Poll (Result (Option (List ℕ))) × R) where
      receive_next :
          (n : ℕ) (td : TestData Rng) (total : ℕ) (r : R) {packet : List ℕ} {next : TestData Rng}
          → (recv r).0 ≡ ready (ok (some packet))
          → validate chacha packet td ≡ some next
          → receive_half chacha recv (suc n) td total r
            ≡ receive_half chacha recv n next (total + length packet) (recv r).1
      unfolding receive_half
      receive_next n td total r {packet = packet} given valid = rw given (
          ap
            (λ v. elim v [
              | some next ↦ receive_half chacha recv n next (total + length packet) (recv r).1
              | none ↦ panicked
            ])
            valid)

      -- A receiver that yields the same packets and then the end makes the receiving half validate
      -- all of them, and gives the sum of their lengths.
      pub receive_half-closed :
          (n : ℕ) (td : TestData Rng) (total : ℕ) (r : R)
          → Bounded max td
          → Yields recv r (test_packets n td)
          → receive_half chacha recv n td total r
            ≡ closed (total + length (concat (test_packets n td)))
      unfolding receive_half test_packets
      receive_half-closed zero td total r bounded end = rw end (ap closed (omega arith))
      receive_half-closed (suc n) td total r bounded yields =
          let (packet, next, e, small, later) = generate-Bounded td bounded in
          let (given, yields') = subst (Yields recv r) (test_packets_next n td e) yields in
          rw (test_packets_next n td e) (
            receive_next n td total r given (validates td packet next e)
            ∙ receive_half-closed n next (total + length packet) (recv r).1 later yields'
            ∙ ap closed (total_behind total packet (test_packets n next)))
