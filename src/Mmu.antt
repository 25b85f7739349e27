-- ===== src/Mmu.antt =====
-- The constants and address macros of xv6-public/mmu.h, memlayout.h and param.h, on 32-bit words.
-- A mask by a power of two is written as a remainder or a quotient, which is the same number.
use os_11740_assignment.Base.{ℕ, ◌+◌, ◌-◌, ◌*◌, ◌/◌, ◌%◌, ◌^◌, Bool, ◌==◌}

-- A C `uint` wraps at 2^32.
abbrev pub u32 : ℕ → ℕ
u32 n = n % 2 ^ 32

-- PGSIZE, and the number of entries of a page directory or page table
abbrev pub pgsize : ℕ
pgsize = 4096

abbrev pub npdentries : ℕ
npdentries = 1024

abbrev pub nptentries : ℕ
nptentries = 1024

abbrev pub kernbase : ℕ
kernbase = 0x80000000

abbrev pub phystop : ℕ
phystop = 0xE000000

-- The length of `refc_cnt`, PHYSTOP >> PGSHIFT.
abbrev pub nframes : ℕ
nframes = phystop / pgsize

abbrev pub v2p : ℕ → ℕ
v2p a = u32 (a + 2 ^ 32 - kernbase)

abbrev pub p2v : ℕ → ℕ
p2v a = u32 (a + kernbase)

abbrev pub pground_up : ℕ → ℕ
pground_up sz = let x = u32 (sz + pgsize - 1) in x - x % pgsize

abbrev pub pground_down : ℕ → ℕ
pground_down a = a - a % pgsize

abbrev pub pdx : ℕ → ℕ
pdx va = va / 2 ^ 22 % 1024

abbrev pub ptx : ℕ → ℕ
ptx va = va / 2 ^ 12 % 1024

-- PGADDR(d, 0, 0)
abbrev pub pgaddr : ℕ → ℕ
pgaddr d = u32 (d * 2 ^ 22)

abbrev pub pte_p : ℕ
pte_p = 1

abbrev pub pte_w : ℕ
pte_w = 2

abbrev pub pte_u : ℕ
pte_u = 4

abbrev pub pte_addr : ℕ → ℕ
pte_addr pte = pte - pte % pgsize

abbrev pub pte_flags : ℕ → ℕ
pte_flags pte = pte % pgsize

-- The tests `pte & PTE_P`, `pte & PTE_W` and `pte & PTE_U`.
abbrev pub is_present : ℕ → Bool
is_present pte = pte % 2 == 1

abbrev pub is_writable : ℕ → Bool
is_writable pte = pte / 2 % 2 == 1

abbrev pub is_user : ℕ → Bool
is_user pte = pte / 4 % 2 == 1
