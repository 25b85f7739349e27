-- ===== src/Kalloc/Alloc.antt =====
-- kalloc(): what it returns, and what it leaves.
use os_11740_assignment.Base.{ℕ, ◌+◌, ◌-◌, ◌^◌, ◌<◌, ◌≡◌, ◌≢◌, false, List, [], ◌∷◌, arith, update}
use os_11740_assignment.Base.Run.{ok}
use os_11740_assignment.Mmu.{u32, nframes}
use os_11740_assignment.Kalloc.{Kmem, frame, kalloc, countfp}
use os_11740_assignment.Kalloc.Inv.{IsKmem, IsPage-frame, unowned-update}

-- The state after the page `v` was taken from the head of the list.
abbrev pub taken : ℕ → Kmem → Kmem
taken v s = record s {
  freelist = s.mem (frame v) 0;
  freecnt = u32 (s.freecnt + 2 ^ 32 - 1);
  refc_cnt = update s.refc_cnt (frame v) 1;
}

module _ (s : Kmem) where
  -- With the lock free, locking and unlocking around a step changes nothing else.
  pub kalloc-head :
      (v : ℕ)
      → s.locked ≡ false
      → s.freelist ≡ v
      → v ≢ 0
      → frame v < nframes
      → kalloc s ≡ ok v (taken v s)
  unfolding kalloc
  kalloc-head v free e ne h = ground arith

  pub kalloc-null :
      s.locked ≡ false
      → s.freelist ≡ 0
      → kalloc s ≡ ok 0 (record s { freecnt = u32 (s.freecnt + 2 ^ 32 - 1) })
  unfolding kalloc
  kalloc-null free e = ground arith

module _ {kernel_end : ℕ} {s : Kmem} where
  -- kalloc() hands out the first free page with a count of one, and the rest of the free list,
  -- its counter included, is as it should be.
  pub kalloc-cons :
      {v : ℕ} {vs : List ℕ}
      → IsKmem kernel_end (v ∷ vs) s
      → (kalloc s ≡ ok v (taken v s)) × IsKmem kernel_end vs (taken v s)
  kalloc-cons {v} {vs} i = (
    kalloc-head s v i.unlocked i.chain.0 (IsPage-frame i.pages.0).0 (IsPage-frame i.pages.0).1,
    record {
      chain = i.chain.1;
      pages = i.pages.1;
      distinct = i.distinct.1;
      unowned = unowned-update s.refc_cnt 1 vs i.pages.0 i.pages.1 i.distinct.0 i.unowned.1;
      counted = omega (arith, i.counted);
      unlocked = i.unlocked;
    },
  )

  -- With no free page kalloc() returns the null pointer, and the counter of free pages, which was 0,
  -- wraps to 2^32 - 1: countfp() then returns that instead of 0.
  pub kalloc_exhausted :
      IsKmem kernel_end [] s
      → (t : Kmem) × (kalloc s ≡ ok 0 t) × (countfp s ≡ ok 0 s) × (countfp t ≡ ok (2 ^ 32 - 1) t)
  unfolding countfp
  kalloc_exhausted i = (
    record s { freecnt = u32 (s.freecnt + 2 ^ 32 - 1) },
    kalloc-null s i.unlocked i.chain,
    ground (arith, i.counted, i.unlocked),
    ground (arith, i.counted, i.unlocked),
  )
