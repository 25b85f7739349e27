-- ===== src/Base/Bits.antt =====
-- Laws of `|` and `&` on words, from the digit recursion that the native operations stand for.
use Prim.Native.Nat.{bit_or, bit_and, digits, bitwise, max, bit_or-bitwise, bit_and-bitwise}
use Prim.Native.Nat.{ℕ, zero, suc, ◌+◌, ◌-◌, ◌*◌, ◌/◌, ◌%◌, ◌≤◌, ◌<◌, min}
use mathlib.Core.Path.{◌≡◌, refl, ap}
use native.Mathlib.Omega.{arith}

-- `x & ~m`: the bits of `m` that `x` has are taken away.
abbrev pub and_not : ℕ → ℕ → ℕ
and_not x m = x - bit_and x m

-- The count of digits to go does not matter once it reaches the first number.
module _ (z : ℕ → ℕ) (f : ℕ → ℕ → ℕ) where
  digits-enough : (n m a b : ℕ) → a ≤ n → a ≤ m → digits z f n a b ≡ digits z f m a b
  digits-enough zero zero a b h k = refl
  digits-enough n zero zero b h k = elim n as (λ n. digits z f n 0 b ≡ z b) [
    | zero ↦ refl
    | suc _ ↦ refl
  ]
  digits-enough zero (suc m) zero b h k = refl
  digits-enough (suc n) (suc m) zero b h k = refl
  digits-enough (suc n) zero (suc a) b h k = absurd (omega arith)
  digits-enough zero (suc m) (suc a) b h k = absurd (omega arith)
  digits-enough (suc n) (suc m) (suc a) b h k =
      rw (digits-enough n m (suc a / 2) (b / 2) (omega arith) (omega arith))

  bitwise-digit :
      (a b : ℕ)
      → bitwise z f (suc a) b ≡ bitwise z f (suc a / 2) (b / 2) * 2 + f (suc a % 2) (b % 2)
  bitwise-digit a b =
      omega (arith, digits-enough a (suc a / 2) (suc a / 2) (b / 2) (omega arith) (omega arith))

or_digit : (a b : ℕ) → bit_or a b ≡ bit_or (a / 2) (b / 2) * 2 + max (a % 2) (b % 2)
or_digit zero b = omega (arith, bit_or-bitwise 0 b, bit_or-bitwise 0 (b / 2))
or_digit (suc a) b = omega (
  arith,
  bit_or-bitwise (suc a) b,
  bit_or-bitwise (suc a / 2) (b / 2),
  bitwise-digit (λ y. y) max a b,
)

and_digit : (a b : ℕ) → bit_and a b ≡ bit_and (a / 2) (b / 2) * 2 + min (a % 2) (b % 2)
and_digit zero b = omega (arith, bit_and-bitwise 0 b, bit_and-bitwise 0 (b / 2))
and_digit (suc a) b = omega (
  arith,
  bit_and-bitwise (suc a) b,
  bit_and-bitwise (suc a / 2) (b / 2),
  bitwise-digit (λ y. 0) min a b,
)

-- With zero on the right, by a bound on the left number.
or_zero_below : (n a : ℕ) → a ≤ n → bit_or a 0 ≡ a
or_zero_below zero zero h = bit_or-bitwise 0 0
or_zero_below (suc n) zero h = bit_or-bitwise 0 0
or_zero_below zero (suc a) h = absurd (omega arith)
or_zero_below (suc n) (suc a) h =
    omega (arith, or_digit (suc a) 0, or_zero_below n (suc a / 2) (omega arith))

pub or_zero : (a : ℕ) → bit_or a 0 ≡ a
or_zero a = or_zero_below a a (omega arith)

and_zero_below : (n a : ℕ) → a ≤ n → bit_and a 0 ≡ 0
and_zero_below zero zero h = bit_and-bitwise 0 0
and_zero_below (suc n) zero h = bit_and-bitwise 0 0
and_zero_below zero (suc a) h = absurd (omega arith)
and_zero_below (suc n) (suc a) h =
    omega (arith, and_digit (suc a) 0, and_zero_below n (suc a / 2) (omega arith))

pub and_zero : (a : ℕ) → bit_and a 0 ≡ 0
and_zero a = and_zero_below a a (omega arith)

-- `x | 1` and `x | 2`: the bit is set unless it is there.
pub or_one : (x : ℕ) → bit_or x 1 ≡ x + (1 - x % 2)
or_one x = omega (arith, or_digit x 1, or_zero (x / 2))

pub or_two : (x : ℕ) → bit_or x 2 ≡ x + 2 * (1 - x / 2 % 2)
or_two x = omega (arith, or_digit x 2, or_one (x / 2))

pub or_four : (x : ℕ) → bit_or x 4 ≡ x + 4 * (1 - x / 4 % 2)
or_four x = omega (arith, or_digit x 4, or_two (x / 2))

-- `x & 2`, and so `x & ~2`.
pub and_two : (x : ℕ) → bit_and x 2 ≡ 2 * (x / 2 % 2)
and_two x = omega (arith, and_digit x 2, and_digit (x / 2) 1, and_zero (x / 2 / 2))

pub and_four : (x : ℕ) → bit_and x 4 ≡ 4 * (x / 4 % 2)
and_four x = omega (arith, and_digit x 4, and_two (x / 2))

-- `q << k`.
abbrev shift : ℕ → ℕ → ℕ
shift zero q = q
shift (suc k) q = 2 * shift k q

-- A number with its low digits free takes a smaller one in by adding.
or_shift : (k q r : ℕ) → r < shift k 1 → bit_or (shift k q) r ≡ shift k q + r
or_shift zero q zero h = omega (arith, or_zero q)
or_shift zero q (suc r) h = absurd (omega arith)
or_shift (suc k) q r h =
    omega (arith, or_digit (2 * shift k q) r, half, or_shift k q (r / 2) (omega arith))
  where
    half : bit_or (2 * shift k q / 2) (r / 2) ≡ bit_or (shift k q) (r / 2)
    half = ap (λ t. bit_or t (r / 2)) (omega arith)

-- A page address and page flags.
pub or_page : (p r : ℕ) → p % 4096 ≡ 0 → r < 4096 → bit_or p r ≡ p + r
or_page p r e h =
    let s : shift 12 (p / 4096) ≡ p = omega arith in
    rw (← s) (or_shift 12 (p / 4096) r (omega arith))
