-- ===== src/Examples/TestData.antt =====
-- examples/common.rs: the test packets, which both sides generate from the same seed.
use upc.Common.{ℕ, List, [], ◌∷◌, ◌&&◌, ◌==◌, if◌then◌else◌, Option, none, some}
use upc.Common.Lists.{length}
use upc.Host.Interfaces.{same_bytes}

abbrev pub host_seed : ℕ
host_seed = 12523

abbrev pub device_seed : ℕ
device_seed = 23152

abbrev pub test_packet_count : ℕ
test_packet_count = 1000

abbrev pub test_packet_max_size : ℕ
test_packet_max_size = 1_000_000

-- ChaCha8Rng of the rand crate. `random_range m` is a number of the range `0..m`, and panics on an
-- empty range: `none`. `fill_bytes n` fills a slice of `n` bytes.
pub record ChaCha8Rng (Rng : Type 0) : Type 0 where
  pub seed_from_u64 : ℕ → Rng
  pub random_range : ℕ → Rng → Option (ℕ × Rng)
  pub fill_bytes : ℕ → Rng → List ℕ × Rng

pub record TestData (Rng : Type 0) : Type 0 where
  pub rng : Rng
  pub max_length : ℕ
  pub pre_lengths : List ℕ

abbrev pub first_lengths : List ℕ
first_lengths =
    0 ∷ 1 ∷ 2 ∷ 3 ∷ 511 ∷ 512 ∷ 513 ∷ 1023 ∷ 1024 ∷ 1025 ∷ 0 ∷ 2000 ∷ 2048 ∷ 0 ∷ 4096 ∷ 5000 ∷ 8191
    ∷ 8192 ∷ 8193 ∷ 0 ∷ 8193 ∷ test_packet_max_size ∷ []

module _ {Rng : Type 0} (chacha : ChaCha8Rng Rng) where
  unfoldable pub new : ℕ → ℕ → TestData Rng
  new seed max_length = record {
    rng = chacha.seed_from_u64 seed;
    max_length = max_length;
    pre_lengths = first_lengths;
  }

  -- The length of the next packet, and the state behind it.
  unfoldable pub next_length : TestData Rng → Option (ℕ × TestData Rng)
  next_length td = elim td.pre_lengths [
    | len ∷ lens ↦ some (len, record td { pre_lengths = lens })
    | [] ↦ elim (chacha.random_range td.max_length td.rng) [
      | some (len, rng) ↦ some (len, record td { rng = rng })
      | none ↦ none
    ]
  ]

  -- A panic is `none`, here and below.
  unfoldable pub generate : TestData Rng → Option (List ℕ × TestData Rng)
  unfolding next_length
  generate td = elim (next_length td) [
    | some (len, next) ↦
        let (packet, rng) = chacha.fill_bytes len next.rng in
        some (packet, record next { rng = rng })
    | none ↦ none
  ]

  -- Both assertions: the lengths, and then the bytes.
  unfoldable pub validate : List ℕ → TestData Rng → Option (TestData Rng)
  unfolding generate same_bytes
  validate packet td = elim (generate td) [
    | some (expected, next) ↦
        if length packet == length expected && same_bytes packet expected then some next else none
    | none ↦ none
  ]
