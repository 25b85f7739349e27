-- ===== src/Base/Run.antt =====
-- The outcome of kernel code that reads and writes a state.
use os_11740_assignment.Base.Tests.{if◌then◌else◌}
use mathlib.Core.Bool.{Bool}
use mathlib.Core.Path.{◌≡◌, ap}

-- `panic` is a call of panic(), `fault` an access that C leaves undefined (an array index out of
-- range, a null pointer), `waits` a call of sleep() for something that another process has to do, and
-- `out_of_fuel` a loop that was given too few rounds.
pub data Run {ℓ κ} (S : Type ℓ) (A : Type κ) : Type (ℓ ⊔ κ) where
  ok : A → S → Run S A
  panic : Run S A
  fault : Run S A
  waits : Run S A
  out_of_fuel : Run S A

abbrev pub Cmd {ℓ κ} : Type ℓ → Type κ → Type (ℓ ⊔ κ)
Cmd S A = S → Run S A

module _ {ℓ κ} {S : Type ℓ} {A : Type κ} where
  abbrev pub pure : A → Cmd S A
  pure a s = ok a s

  abbrev pub panics : Cmd S A
  panics s = panic

  abbrev pub faults : Cmd S A
  faults s = fault

  abbrev pub blocks : Cmd S A
  blocks s = waits

  abbrev pub spins : Cmd S A
  spins s = out_of_fuel

module _ {ℓ} {S : Type ℓ} where
  abbrev pub get : Cmd S S
  get s = ok s s

  abbrev pub put : S → Cmd S (Unit {0})
  put t s = ok tt t

  abbrev pub modify : (S → S) → Cmd S (Unit {0})
  modify f s = ok tt (f s)

  abbrev pub when : Bool → Cmd S (Unit {0}) → Cmd S (Unit {0})
  when b m = if b then m else pure tt

module _ {ℓ κ λ'} {S : Type ℓ} {A : Type κ} {B : Type λ'} where
  abbrev pub and_then : Run S A → (A → Cmd S B) → Run S B
  and_then (ok a s) k = k a s
  and_then panic k = panic
  and_then fault k = fault
  and_then waits k = waits
  and_then out_of_fuel k = out_of_fuel

  infixl 5 ◌>>=◌ ◌>>◌
  abbrev pub ◌>>=◌ : Cmd S A → (A → Cmd S B) → Cmd S B
  m >>= k = λ s. and_then (m s) k

  abbrev pub ◌>>◌ : Cmd S A → Cmd S B → Cmd S B
  m >> n = m >>= λ _. n

module _ {ℓ κ λ'} {S : Type ℓ} {A : Type κ} {B : Type λ'} where
  -- What follows a step that is known to succeed.
  pub and_then-ok :
      {r : Run S A} {a : A} {s : S} (k : Cmd S B) → r ≡ ok a s → and_then r (λ _. k) ≡ k s
  and_then-ok k e = ap (λ x. and_then x (λ _. k)) e
