-- ===== src/Examples/Halves.antt =====
-- examples/host.rs and examples/device.rs: the sending half and the receiving half of a connection,
-- which are the same on both sides.
use upc.Common.{
  ℕ, zero, suc, ◌+◌, List, Option, none, some, Result, ok, err, diverged, Poll, ready, pending,
}
use upc.Common.Lists.{length}
use upc.Cli.Sender.{UpcSend}
use upc.Examples.TestData.{ChaCha8Rng, TestData, generate, validate}

-- How the receiving half ends: with the total once the receiver is closed, in a panic, or it waits.
pub data ReceiveEnd : Type 0 where
  closed : ℕ → ReceiveEnd
  panicked : ReceiveEnd
  waiting : ReceiveEnd

module _ {Rng : Type 0} (chacha : ChaCha8Rng Rng) where
  -- `for n in 0..TEST_PACKETS`: generate a packet and send it, which must succeed. The total of the
  -- lengths, and the sender behind the loop.
  module _ {S : Type 0} (u : UpcSend S) where
    unfoldable pub send_half : ℕ → TestData Rng → ℕ → S → Option (ℕ × S)
    send_half zero td total s = some (total, s)
    send_half (suc n) td total s = elim (generate chacha td) [
      | some (packet, next) ↦
          let (sent, s') = u.upc_send s packet in
          elim sent [ ok done ↦ send_half n next (total + length packet) s' | _ ↦ none ]
      | none ↦ none
    ]

  module _ {R : Type 0} (recv : R → Poll (Result (Option (List ℕ))) × R) where
    -- Behind the loop: the receiver must answer `Ok(None)`.
    abbrev expect_close : ℕ → Poll (Result (Option (List ℕ))) → ReceiveEnd
    expect_close total (ready (ok none)) = closed total
    expect_close total (ready (ok (some packet))) = panicked
    expect_close total (ready (err e)) = panicked
    expect_close total (ready diverged) = panicked
    expect_close total pending = waiting

    -- `expect("receive failed").expect("unexpected EOF")`.
    abbrev on_answer : Poll (Result (Option (List ℕ))) → (List ℕ → ReceiveEnd) → ReceiveEnd
    on_answer (ready (ok (some packet))) later = later packet
    on_answer (ready (ok none)) later = panicked
    on_answer (ready (err e)) later = panicked
    on_answer (ready diverged) later = panicked
    on_answer pending later = waiting

    unfoldable pub receive_half : ℕ → TestData Rng → ℕ → R → ReceiveEnd
    receive_half zero td total r = expect_close total (recv r).0
    receive_half (suc n) td total r =
        let (answer, r') = recv r in
        on_answer answer (λ packet. elim (validate chacha packet td) [
          | some next ↦ receive_half n next (total + length packet) r'
          | none ↦ panicked
        ])
