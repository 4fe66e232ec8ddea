-- ===== src/Tests/Examples.antt =====
-- The test packets of the examples with a generator that counts.
use upc.Common.{
  ℕ, zero, suc, ◌+◌, ◌%◌, ◌<◌, min, ◌≡◌, refl, List, [], ◌∷◌, true, Option, none, some, ErrorKind,
  arith, map,
}
use upc.Common.Lists.{length}
use upc.Cli.Sender.{host_sender, device_sender}
use upc.Device.OutTask.{EpOp}
use upc.Device.Receiver
use upc.Examples.TestData.{ChaCha8Rng, TestData, next_length, generate, validate}
use upc.Examples.Halves.{closed, panicked, receive_half}
use upc.Examples.Laws.{RngLaws, Bounded, test_packets}

abbrev counted : ℕ → ℕ → Option (ℕ × ℕ)
counted zero r = none
counted (suc m) r = some (min r m, r + 1)

abbrev copies : ℕ → ℕ → List ℕ
copies zero b = []
copies (suc n) b = b ∷ copies n b

abbrev pub counter : ChaCha8Rng ℕ
counter = record {
  seed_from_u64 = λ seed. seed;
  random_range = counted;
  fill_bytes = λ n r. (copies n (r % 256), r + 1);
}

counted_below : (m r : ℕ) → 0 < m → (n : ℕ) × (s : ℕ) × (counted m r ≡ some (n, s)) × (n < m)
counted_below zero r pos = absurd (omega arith)
counted_below (suc m) r pos = (min r m, r + 1, refl, omega arith)

length-copies : (n b : ℕ) → length (copies n b) ≡ n
length-copies zero b = refl
length-copies (suc n) b = omega (arith, length-copies n b)

pub counter_laws : RngLaws counter
counter_laws = record { in_range = counted_below; filled = λ n r. length-copies n (r % 256) }

abbrev test_data : TestData ℕ
test_data = record { rng = 7; max_length = 1; pre_lengths = 3 ∷ 4 ∷ [] }

test_data-Bounded : Bounded 16 test_data
test_data-Bounded = (omega arith, omega arith, ground arith)

abbrev three : List (List ℕ)
three = (7 ∷ 7 ∷ 7 ∷ []) ∷ (8 ∷ 8 ∷ 8 ∷ 8 ∷ []) ∷ [] ∷ []

three_packets : test_packets counter 3 test_data ≡ three
unfolding test_packets generate next_length
three_packets = refl

abbrev at_device : Receiver.UpcReceiver
at_device = record {
  topic = [];
  rx = three;
  rx_closed = true;
  buffer = [];
  max_size = 16;
  max_transfer_size = 8;
  error = none;
}

validated : receive_half counter Receiver.recv 3 test_data 0 at_device ≡ closed 7
unfolding receive_half Receiver.recv validate generate next_length
validated = refl

-- The third packet is empty.
longer_refused :
    receive_half counter Receiver.recv 3 test_data 0 (record at_device { rx = map (◌∷◌ 7) three })
    ≡ panicked
unfolding receive_half Receiver.recv validate generate next_length
longer_refused = refl

abbrev pub never : List EpOp → EpOp → Option ErrorKind
never log op = none
