-- ===== src/Common/Words.antt =====
-- Unsigned machine words: `to_le_bytes` and `from_le_bytes` of the integer types.
use upc.Common.Lists.{length}
use Prim.Native.Nat.{ℕ, zero, suc, ◌+◌, ◌*◌, ◌/◌, ◌%◌, ◌^◌, ◌<◌}
use mathlib.Core.Path.{◌≡◌, refl, ap}
use mathlib.Core.List.{List, [], ◌∷◌}
use native.Mathlib.Omega.{arith}

abbrev pub IsByte : ℕ → Type 0
IsByte b = b < 256

abbrev pub u64_mod : ℕ
u64_mod = 2 ^ 64

-- The `k` bytes of `n`, lowest first.
abbrev pub to_le_bytes : ℕ → ℕ → List ℕ
to_le_bytes zero n = []
to_le_bytes (suc k) n = (n % 256) ∷ to_le_bytes k (n / 256)

abbrev pub from_le_bytes : List ℕ → ℕ
from_le_bytes [] = 0
from_le_bytes (b ∷ bs) = b + 256 * from_le_bytes bs

pub length-to_le_bytes : (k n : ℕ) → length (to_le_bytes k n) ≡ k
length-to_le_bytes zero n = refl
length-to_le_bytes (suc k) n = ap suc (length-to_le_bytes k (n / 256))

pub from_le_bytes-to_le_bytes_u16 : (n : ℕ) → n < 2 ^ 16 → from_le_bytes (to_le_bytes 2 n) ≡ n
from_le_bytes-to_le_bytes_u16 n h = omega arith

pub from_le_bytes-to_le_bytes_u32 : (n : ℕ) → n < 2 ^ 32 → from_le_bytes (to_le_bytes 4 n) ≡ n
from_le_bytes-to_le_bytes_u32 n h = omega arith

pub from_le_bytes-to_le_bytes_u64 : (n : ℕ) → n < 2 ^ 64 → from_le_bytes (to_le_bytes 8 n) ≡ n
from_le_bytes-to_le_bytes_u64 n h = omega arith
