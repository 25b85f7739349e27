-- ===== src/Base/Ends.antt =====
-- Commands that end: whatever the state, they are given enough rounds, and where they return, the state
-- is related to the one before.
use os_11740_assignment.Base.Tests.{if◌then◌else◌}
use os_11740_assignment.Base.Run.{
  Run, ok, panic, fault, waits, out_of_fuel, Cmd, pure, panics, blocks, get, when, and_then, ◌>>=◌,
}
use mathlib.Core.Bool.{Bool, true, false}
use mathlib.Core.Path.{◌≡◌, refl}
use mathlib.Core.Logic.{◌≢◌}
use mathlib.Core.Option.{Option, none, some}

-- The run ends, and where it returns, `P` holds of the state.
pub data Ends {ℓ κ μ} {S : Type ℓ} {A : Type κ} (P : S → Type μ) : Run S A → Type (ℓ ⊔ κ ⊔ μ) where
  returns : {a : A} {s : S} → P s → Ends P (ok a s)
  panicked : Ends P panic
  faulted : Ends P fault
  waiting : Ends P waits

module _ {ℓ κ μ} {S : Type ℓ} {A : Type κ} {P : S → Type μ} where
  pub Ends-ne-out_of_fuel : {r : Run S A} → Ends P r → r ≢ out_of_fuel
  Ends-ne-out_of_fuel (returns p) e = cc
  Ends-ne-out_of_fuel panicked e = cc
  Ends-ne-out_of_fuel faulted e = cc
  Ends-ne-out_of_fuel waiting e = cc

  pub Ends-bind {κ' μ'} :
      {B : Type κ'} {Q : S → Type μ'} {r : Run S A} {k : A → Cmd S B}
      → Ends P r
      → ((a : A) (s : S) → P s → Ends Q (k a s))
      → Ends Q (and_then r k)
  Ends-bind (returns p) f = f _ _ p
  Ends-bind panicked f = panicked
  Ends-bind faulted f = faulted
  Ends-bind waiting f = waiting

  pub Ends-map {μ'} : {Q : S → Type μ'} {r : Run S A} → Ends P r → ((s : S) → P s → Q s) → Ends Q r
  Ends-map (returns p) f = returns (f _ p)
  Ends-map panicked f = panicked
  Ends-map faulted f = faulted
  Ends-map waiting f = waiting

-- Each branch has the outcome of the test.
pub Ends-test {ℓ κ μ} :
    {S : Type ℓ} {A : Type κ} {P : S → Type μ} (b : Bool) (m n : Cmd S A) (s : S)
    → (b ≡ true → Ends P (m s))
    → (b ≡ false → Ends P (n s))
    → Ends P ((if b then m else n) s)
Ends-test true m n s h g = h refl
Ends-test false m n s h g = g refl

pub record IsOrder {ℓ μ} {S : Type ℓ} (R : S → S → Type μ) : Type (ℓ ⊔ μ) where
  pub same : (s : S) → R s s
  pub trans : (s t u : S) → R s t → R t u → R s u

-- From every state the command ends in one that `R` relates to it.
pub record Keeps {ℓ κ μ} {S : Type ℓ} {A : Type κ} (R : S → S → Type μ) (m : Cmd S A)
    : Type (ℓ ⊔ κ ⊔ μ) where
  pub at : (s : S) → Ends (R s) (m s)

module _ {ℓ μ} {S : Type ℓ} {R : S → S → Type μ} (o : IsOrder R) where
  pub Keeps-bind {κ κ'} :
      {A : Type κ} {B : Type κ'} {m : Cmd S A} {k : A → Cmd S B}
      → Keeps R m
      → ((a : A) → Keeps R (k a))
      → Keeps R (m >>= k)
  Keeps-bind h f = record {
    at = λ s. Ends-bind (h.at s) (λ a t p. Ends-map ((f a).at t) (λ u. o.trans s t u p));
  }

  pub Keeps-pure {κ} : {A : Type κ} (a : A) → Keeps R (pure a)
  Keeps-pure a = record { at = λ s. returns (o.same s) }

  -- A command that looks at the state and changes nothing.
  pub Keeps-look {κ} : {A : Type κ} (f : S → A) → Keeps R (λ s. ok (f s) s)
  Keeps-look f = record { at = λ s. returns (o.same s) }

  pub Keeps-get : Keeps R (get {S = S})
  Keeps-get = Keeps-look (λ s. s)

  pub Keeps-if {κ} :
      {A : Type κ} {m n : Cmd S A} (b : Bool) → Keeps R m → Keeps R n → Keeps R (if b then m else n)
  Keeps-if true h g = h
  Keeps-if false h g = g

  pub Keeps-when : {m : Cmd S (Unit {0})} (b : Bool) → Keeps R m → Keeps R (when b m)
  Keeps-when b h = Keeps-if b h (Keeps-pure tt)

  pub Keeps-option {κ κ'} :
      {A : Type κ} {B : Type κ'} {m : Cmd S B} {k : A → Cmd S B} (r : Option A)
      → Keeps R m
      → ((a : A) → Keeps R (k a))
      → Keeps R (elim r as (λ _. Cmd S B) [ none ↦ m | some a ↦ k a ])
  Keeps-option none h f = h
  Keeps-option (some a) h f = f a

module _ {ℓ κ μ} {S : Type ℓ} {A : Type κ} {R : S → S → Type μ} where
  -- Each branch has the outcome of the test.
  pub Keeps-test :
      {m n : Cmd S A} (b : Bool)
      → (b ≡ true → Keeps R m)
      → (b ≡ false → Keeps R n)
      → Keeps R (if b then m else n)
  Keeps-test true h g = h refl
  Keeps-test false h g = g refl

  pub Keeps-panics : Keeps R (panics {S = S} {A = A})
  Keeps-panics = record { at = λ s. panicked }

  pub Keeps-blocks : Keeps R (blocks {S = S} {A = A})
  Keeps-blocks = record { at = λ s. waiting }
