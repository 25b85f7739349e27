-- ===== src/Syscall.antt =====
-- The argument checks of xv6-public/syscall.c. `none` stands for -1.
pub mod Checks
mod Tests
use os_11740_assignment.Base.{
  ℕ, zero, suc, ◌+◌, ◌-◌, ◌*◌, ◌^◌, Bool, ◌||◌, ◌==◌, ltb, leb, Option, none, some, if◌then◌else◌,
}
use os_11740_assignment.Mmu.{u32}
use os_11740_assignment.Fs.Words.{get32}

-- The bytes of the memory of the process, its size, and the user stack pointer in the trap frame.
pub record Task : Type 0 where
  pub mem : ℕ → ℕ
  pub sz : ℕ
  pub esp : ℕ

module _ (t : Task) where
  unfoldable pub fetchint : ℕ → Option ℕ
  fetchint addr =
      if leb t.sz addr || ltb t.sz (u32 (addr + 4)) then none else some (get32 t.mem addr)

  -- The loop of fetchstr() over the `k` bytes from `s` on; `pp` is where the string begins.
  unfoldable pub string_loop : ℕ → ℕ → ℕ → Option ℕ
  string_loop pp zero s = none
  string_loop pp (suc k) s =
      let rest = string_loop pp k (s + 1) in if t.mem s == 0 then some (s - pp) else rest

  -- The length of the string.
  unfoldable pub fetchstr : ℕ → Option ℕ
  fetchstr addr = if leb t.sz addr then none else string_loop addr (t.sz - addr) addr

  unfoldable pub argint : ℕ → Option ℕ
  unfolding fetchint
  argint n = fetchint (u32 (t.esp + 4 + 4 * n))

  -- `size` is the bit pattern of an int.
  abbrev pub check_range : ℕ → ℕ → Option ℕ
  check_range size i =
      if leb (2 ^ 31) size || (leb t.sz i || ltb t.sz (u32 (i + size))) then none else some i

  unfoldable pub argptr : ℕ → ℕ → Option ℕ
  argptr n size = elim (argint n) [ none ↦ none | some i ↦ check_range size i ]

  -- The address and the length of the string.
  unfoldable pub argstr : ℕ → Option (ℕ × ℕ)
  argstr n = elim (argint n) [
    | none ↦ none
    | some addr ↦ elim (fetchstr addr) [ none ↦ none | some len ↦ some (addr, len) ]
  ]
