-- ===== src/Fs/Bitmap.antt =====
-- balloc() and bfree() of xv6-public/fs.c: the bitmap of the blocks in use.
pub mod Bits
pub mod Alloc
pub mod Free
use os_11740_assignment.Base.{
  ℕ, zero, suc, ◌+◌, ◌-◌, ◌*◌, ◌/◌, ◌%◌, Bool, true, false, ◌&&◌, ◌==◌, ltb, Option, none, some,
  if◌then◌else◌, update,
}
use os_11740_assignment.Base.Run.{Cmd, pure, panics, spins, ◌>>=◌, ◌>>◌}
use os_11740_assignment.Fs.{Superblock, Fs, bpb, bblock, bread, change}

-- Bit `i` of a number, the number with the bit set, and with the bit cleared: with m = 1 << i, these are
-- (x & m) != 0, x | m and x & ~m.
unfoldable pub test_bit : ℕ → ℕ → Bool
test_bit x zero = x % 2 == 1
test_bit x (suc i) = test_bit (x / 2) i

unfoldable pub set_bit : ℕ → ℕ → ℕ
set_bit x zero = x / 2 * 2 + 1
set_bit x (suc i) = set_bit (x / 2) i * 2 + x % 2

unfoldable pub clear_bit : ℕ → ℕ → ℕ
clear_bit x zero = x / 2 * 2
clear_bit x (suc i) = clear_bit (x / 2) i * 2 + x % 2

-- The same for bit `bi` of the bytes of a block.
abbrev pub is_marked : (ℕ → ℕ) → ℕ → Bool
is_marked d bi = test_bit (d (bi / 8)) (bi % 8)

abbrev pub mark : ℕ → (ℕ → ℕ) → ℕ → ℕ
mark bi d = update d (bi / 8) (set_bit (d (bi / 8)) (bi % 8))

abbrev pub unmark : ℕ → (ℕ → ℕ) → ℕ → ℕ
unmark bi d = update d (bi / 8) (clear_bit (d (bi / 8)) (bi % 8))

abbrev pub bzero : ℕ → Cmd Fs (Unit {0})
bzero bno = change bno (λ d _. 0)

-- The inner loop of balloc(): the first of the `k` bits from `bi` on that is free and stands for a
-- block of the disk.
unfoldable pub find_bit : ℕ → (ℕ → ℕ) → ℕ → ℕ → ℕ → Option ℕ
find_bit size d b zero bi = none
find_bit size d b (suc k) bi =
    let rest = find_bit size d b k (bi + 1) in
    if ltb (b + bi) size then (if is_marked d bi then rest else some bi) else none

module _ (sb : Superblock) where
  -- The outer loop from block `b` on, with a bound on its rounds. `b` is an int of C, which the model does
  -- not let wrap: the disk has fewer than 2^31 blocks.
  unfoldable pub balloc_loop : ℕ → ℕ → Cmd Fs ℕ
  balloc_loop zero b = spins
  balloc_loop (suc k) b =
      let rest = balloc_loop k (b + bpb) in
      if ltb b sb.size
      then (do
        d ← bread (bblock sb b)
        elim (find_bit sb.size d b bpb 0) [
          | some bi ↦ do change (bblock sb b) (mark bi); bzero (b + bi); pure (b + bi)
          | none ↦ rest
        ])
      else panics

  unfoldable pub balloc : Cmd Fs ℕ
  balloc = balloc_loop (sb.size / bpb + 2) 0

  unfoldable pub bfree : ℕ → Cmd Fs (Unit {0})
  bfree b = do
    d ← bread (bblock sb b)
    if is_marked d (b % bpb) then change (bblock sb b) (unmark (b % bpb)) else panics
