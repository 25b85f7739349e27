-- ===== src/Kalloc.antt =====
-- xv6-public/kalloc.c: the allocator of physical pages, with a reference count for each page frame.
pub mod Inv
pub mod Alloc
pub mod Free
pub mod Range
pub mod Share
mod Tests
use os_11740_assignment.Base.{
  ℕ, zero, suc, ◌+◌, ◌-◌, ◌/◌, ◌%◌, ◌^◌, Bool, true, false, ◌&&◌, ◌||◌, ◌==◌, ◌!=◌, ltb, leb,
  if◌then◌else◌, update,
}
use os_11740_assignment.Base.Run.{
  Cmd, panic, fault, ok, pure, panics, faults, spins, get, modify, when, ◌>>=◌, ◌>>◌,
}
use os_11740_assignment.Mmu.{u32, pgsize, phystop, nframes, v2p, pground_up}

-- `kmem`, and the physical memory that its free list runs through: `mem f i` is the 32-bit word `i`
-- of page frame `f`. `locked` says that this processor holds `kmem.lock`. Pointers are kernel
-- virtual addresses; 0 is the null pointer. A count is the bit pattern of the C `int`.
pub record Kmem : Type 0 where
  pub mem : ℕ → ℕ → ℕ
  pub freelist : ℕ
  pub freecnt : ℕ
  pub refc_cnt : ℕ → ℕ
  pub use_lock : Bool
  pub locked : Bool

-- The frame of a kernel address.
abbrev pub frame : ℕ → ℕ
frame v = v2p v / pgsize

-- The word that memset(v, 1, PGSIZE) leaves everywhere.
abbrev pub junk : ℕ
junk = 0x01010101

-- `if(kmem.use_lock) acquire(&kmem.lock)`: to acquire a lock that this processor holds is a panic.
unfoldable pub lock : Cmd Kmem (Unit {0})
lock s =
    if s.use_lock then (if s.locked then panic else ok tt (record s { locked = true })) else ok tt s

-- `if(kmem.use_lock) release(&kmem.lock)`: to release a lock that is not held is a panic.
unfoldable pub unlock : Cmd Kmem (Unit {0})
unlock s =
    if s.use_lock
    then (if s.locked then ok tt (record s { locked = false }) else panic)
    else ok tt s

-- `kmem.refc_cnt[i]`, read and written; the index is checked.
unfoldable pub read_refc : ℕ → Cmd Kmem ℕ
read_refc i s = if ltb i nframes then ok (s.refc_cnt i) s else fault

unfoldable pub write_refc : ℕ → ℕ → Cmd Kmem (Unit {0})
write_refc i n s =
    if ltb i nframes then ok tt (record s { refc_cnt = update s.refc_cnt i n }) else fault

unfoldable pub incr_refc : ℕ → Cmd Kmem (Unit {0})
unfolding lock unlock read_refc write_refc
incr_refc pa = do lock; n ← read_refc (pa / pgsize); write_refc (pa / pgsize) (u32 (n + 1)); unlock

unfoldable pub decr_refc : ℕ → Cmd Kmem (Unit {0})
unfolding lock unlock read_refc write_refc
decr_refc pa = do
  lock
  n ← read_refc (pa / pgsize)
  write_refc (pa / pgsize) (u32 (n + 2 ^ 32 - 1))
  unlock

unfoldable pub get_refc : ℕ → Cmd Kmem ℕ
unfolding lock unlock read_refc
get_refc pa = do lock; ret ← read_refc (pa / pgsize); unlock; pure ret

unfoldable pub countfp : Cmd Kmem ℕ
unfolding lock unlock
countfp = do lock; s ← get; unlock; pure s.freecnt

-- `> 0` on the bit pattern of an `int`.
abbrev pub is_positive : ℕ → Bool
is_positive n = (n != 0) && ltb n (2 ^ 31)

-- memset(v, 1, PGSIZE); r->next = kmem.freelist; kmem.freelist = r; kmem.freecnt++
abbrev pub push_free : ℕ → Kmem → Kmem
push_free v s = record s {
  mem = update s.mem (frame v) (update (λ _. junk) 0 s.freelist);
  freelist = v;
  freecnt = u32 (s.freecnt + 1);
}

-- `end`, the first address after the kernel, is placed by the linker.
module _ (kernel_end : ℕ) where
  -- The test at the head of kfree().
  abbrev pub is_bad : ℕ → Bool
  is_bad v = (v % pgsize != 0) || (ltb v kernel_end || leb phystop (v2p v))

  unfoldable pub kfree : ℕ → Cmd Kmem (Unit {0})
  unfolding lock unlock get_refc decr_refc
  kfree v = if is_bad v then panics else do
    lock
    s ← get
    let islock = s.use_lock
    modify (λ s. record s { use_lock = false })
    n ← get_refc (v2p v)
    when (is_positive n) (decr_refc (v2p v))
    n' ← get_refc (v2p v)
    when (n' == 0) (modify (push_free v))
    modify (λ s. record s { use_lock = islock })
    unlock

  -- The loop of freerange() from `p`, with a bound on its rounds.
  freerange_loop : ℕ → ℕ → ℕ → Cmd Kmem (Unit {0})
  freerange_loop zero p vend = spins
  freerange_loop (suc k) p vend = elim (leb (u32 (p + pgsize)) vend) [
    | true ↦ do write_refc (frame p) 0; kfree p; freerange_loop k (u32 (p + pgsize)) vend
    | false ↦ pure tt
  ]

  -- 2^20 rounds cover the address space.
  unfoldable pub freerange : ℕ → ℕ → Cmd Kmem (Unit {0})
  unfolding freerange_loop
  freerange vstart vend = freerange_loop (2 ^ 20 + 1) (pground_up vstart) vend

  unfoldable pub kinit1 : ℕ → ℕ → Cmd Kmem (Unit {0})
  kinit1 vstart vend = do
    modify (λ s. record s { use_lock = false; locked = false; freecnt = 0 })
    freerange vstart vend

  unfoldable pub kinit2 : ℕ → ℕ → Cmd Kmem (Unit {0})
  kinit2 vstart vend = do freerange vstart vend; modify (λ s. record s { use_lock = true })

-- The head of the free list with its count set to 1, or the null pointer. The counter of free pages
-- goes down in both cases.
pop_free : Cmd Kmem ℕ
unfolding write_refc
pop_free s =
    if s.freelist == 0
    then ok 0 (record s { freecnt = u32 (s.freecnt + 2 ^ 32 - 1) })
    else (do
      modify (λ t. record t { freelist = t.mem (frame s.freelist) 0 })
      write_refc (frame s.freelist) 1
      modify (λ t. record t { freecnt = u32 (t.freecnt + 2 ^ 32 - 1) })
      pure s.freelist)
        s

unfoldable pub kalloc : Cmd Kmem ℕ
unfolding lock unlock pop_free
kalloc = do lock; r ← pop_free; unlock; pure r
