-- ===== src/Common/Results.antt =====
-- std::io::ErrorKind as far as the crate names it, and the results of fallible code.
use mathlib.Core.Path.{◌≡◌, refl}
use mathlib.Core.Logic.{◌≢◌, ◌⊎◌, inl, inr}
use mathlib.Core.Bool.{Bool, true, false}

pub data ErrorKind : Type 0 where
  broken_pipe timed_out connection_reset connection_aborted invalid_input invalid_data : ErrorKind
  out_of_memory not_found permission_denied resource_busy unsupported unexpected_eof : ErrorKind
  write_zero network_down other : ErrorKind

pub ErrorKind-discrete : Discrete ErrorKind
ErrorKind-discrete = hlevel

-- `diverged` is no value of the program: a loop of the model ran out of fuel.
pub data Result {ℓ} (A : Type ℓ) : Type ℓ where
  ok : A → Result A
  err : ErrorKind → Result A
  diverged : Result A

infixl 5 ◌>>=◌ ◌>>◌
abbrev pub ◌>>=◌ {ℓ κ} : {A : Type ℓ} {B : Type κ} → Result A → (A → Result B) → Result B
ok a >>= f = f a
err e >>= f = err e
diverged >>= f = diverged

abbrev pub ◌>>◌ {ℓ κ} : {A : Type ℓ} {B : Type κ} → Result A → Result B → Result B
m >> k = m >>= λ _. k

abbrev pub is_ok {ℓ} : {A : Type ℓ} → Result A → Bool
is_ok (ok a) = true
is_ok (err e) = false
is_ok diverged = false

module _ {ℓ} {A : Type ℓ} where
  pub ok-injective : {a b : A} → ok a ≡ ok b → a ≡ b
  ok-injective h = cc

  pub Result-cases :
      (r : Result A) → r ≢ diverged → ((a : A) × (r ≡ ok a)) ⊎ ((e : ErrorKind) × (r ≡ err e))
  Result-cases (ok a) h = inl (a, refl)
  Result-cases (err e) h = inr (e, refl)
  Result-cases diverged h = absurd (h refl)

-- What a poll of a future answers: its output, or that it still waits.
pub data Poll {ℓ} (A : Type ℓ) : Type ℓ where
  ready : A → Poll A
  pending : Poll A
