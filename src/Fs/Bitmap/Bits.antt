-- ===== src/Fs/Bitmap/Bits.antt =====
-- Setting and clearing a bit of a byte, and of the bitmap in a block.
use os_11740_assignment.Base.{
  ℕ, zero, suc, ◌+◌, ◌*◌, ◌/◌, ◌%◌, ◌≡◌, ap, ◌∙◌, arith, true, false, ◌==◌, if◌then◌else◌,
}
use os_11740_assignment.Fs.Bitmap.{test_bit, set_bit, clear_bit, is_marked, mark, unmark}

test_bit-set_bit : (x i j : ℕ) → test_bit (set_bit x i) j ≡ (if j == i then true else test_bit x j)
unfolding test_bit set_bit
test_bit-set_bit x zero zero = ground arith
test_bit-set_bit x zero (suc j) =
    let e : (x / 2 * 2 + 1) / 2 ≡ x / 2 = omega arith in ap (λ y. test_bit y j) e ∙ ground arith
test_bit-set_bit x (suc i) zero = ground arith
test_bit-set_bit x (suc i) (suc j) =
    ap (λ y. test_bit y j) (omega arith) ∙ test_bit-set_bit (x / 2) i j ∙ ground arith

test_bit-clear_bit :
    (x i j : ℕ) → test_bit (clear_bit x i) j ≡ (if j == i then false else test_bit x j)
unfolding test_bit clear_bit
test_bit-clear_bit x zero zero = ground arith
test_bit-clear_bit x zero (suc j) =
    let e : x / 2 * 2 / 2 ≡ x / 2 = omega arith in ap (λ y. test_bit y j) e ∙ ground arith
test_bit-clear_bit x (suc i) zero = ground arith
test_bit-clear_bit x (suc i) (suc j) =
    ap (λ y. test_bit y j) (omega arith) ∙ test_bit-clear_bit (x / 2) i j ∙ ground arith

clear_bit-set_bit : (x i : ℕ) → test_bit x i ≡ false → clear_bit (set_bit x i) i ≡ x
unfolding test_bit set_bit clear_bit
clear_bit-set_bit x zero e = ground arith
clear_bit-set_bit x (suc i) e =
    let inner : clear_bit ((set_bit (x / 2) i * 2 + x % 2) / 2) i ≡ x / 2 =
      ap (λ y. clear_bit y i) (omega arith) ∙ clear_bit-set_bit (x / 2) i e in
    omega (inner, arith)

pub is_marked-mark :
    (d : ℕ → ℕ) (i j : ℕ) → is_marked (mark i d) j ≡ (if j == i then true else is_marked d j)
is_marked-mark d i j = ground (arith, test_bit-set_bit (d (i / 8)) (i % 8) (j % 8))

pub is_marked-unmark :
    (d : ℕ → ℕ) (i j : ℕ) → is_marked (unmark i d) j ≡ (if j == i then false else is_marked d j)
is_marked-unmark d i j = ground (arith, test_bit-clear_bit (d (i / 8)) (i % 8) (j % 8))

pub unmark-mark :
    (d : ℕ → ℕ) (i : ℕ) → is_marked d i ≡ false → (x : ℕ) → unmark i (mark i d) x ≡ d x
unmark-mark d i e x = ground (arith, clear_bit-set_bit (d (i / 8)) (i % 8) e)
