-- ===== src/Kalloc/Range.antt =====
-- freerange(), kinit1() and kinit2(): every whole page of the range becomes free.
use os_11740_assignment.Base.{
  ℕ, zero, suc, ◌+◌, ◌*◌, ◌^◌, ◌≡◌, ◌∙◌, true, List, [], ◌∷◌, All, arith, update, ◌<◌, ◌≤◌, refl,
  ◌%◌, le→leb, lt→leb_false, lt→ltb,
}
use os_11740_assignment.Base.Run.{ok}
use os_11740_assignment.Mmu.{u32, pgsize, nframes, pground_up, phystop, kernbase}
use os_11740_assignment.Kalloc.{
  Kmem, frame, kfree, write_refc, freerange_loop, freerange, kinit1, kinit2,
}
use os_11740_assignment.Kalloc.Inv.{IsPage, IsKmem, IsPage-frame, NotIn}
use os_11740_assignment.Kalloc.Free.{kfree_last-IsKmem, IsKmem-count}

-- The free list once the `n` pages from `p` on were freed in order: the last one is the first.
abbrev pub add_pages : ℕ → ℕ → List ℕ → List ℕ
add_pages p zero free = free
add_pages p (suc n) free = add_pages (p + pgsize) n (p ∷ free)

abbrev pub Below : ℕ → List ℕ → Type 0
Below p free = All (λ w. w < p) free

NotIn-Below : (p : ℕ) (free : List ℕ) → Below p free → NotIn p free
NotIn-Below p [] h = tt
NotIn-Below p (w ∷ free) h = (omega arith, NotIn-Below p free h.1)

Below-more : (p : ℕ) (free : List ℕ) → Below p free → Below (p + pgsize) free
Below-more p [] h = tt
Below-more p (w ∷ free) h = (omega arith, Below-more p free h.1)

-- The range that starts at the page `p` holds `n` whole pages, and lies in the memory that kfree()
-- accepts.
pub record IsRange (kernel_end p vend n : ℕ) : Type 0 where
  pub aligned : p % pgsize ≡ 0
  pub above : kernel_end ≤ p
  pub high : kernbase ≤ p
  pub covers : p + n * pgsize ≤ vend
  pub stops : vend < p + (n + 1) * pgsize
  pub below : vend ≤ kernbase + phystop

module _ {kernel_end : ℕ} where
  IsRange-IsPage : {p vend n : ℕ} → IsRange kernel_end p vend (suc n) → IsPage kernel_end p
  IsRange-IsPage r = omega arith

  -- One round frees the page, whatever its count was.
  round-IsKmem :
      {p : ℕ} {free : List ℕ} {s : Kmem}
      → IsPage kernel_end p
      → Below p free
      → IsKmem kernel_end free s
      → (t : Kmem) × (kfree kernel_end p (record s { refc_cnt = update s.refc_cnt (frame p) 0 })
          ≡ ok tt t)
        × IsKmem kernel_end (p ∷ free) t
  round-IsKmem {p} {free} {s} page b i =
      let cleared = IsKmem-count p page (NotIn-Below p free b) i 0 in
      let (t, e, j, _, _, _) =
        kfree_last-IsKmem page cleared (ground arith) (NotIn-Below p free b) in
      (t, e, j)

  loop-step :
      (k n : ℕ) {p vend : ℕ} (s : Kmem) {t : Kmem}
      → IsRange kernel_end p vend (suc n)
      → kfree kernel_end p (record s { refc_cnt = update s.refc_cnt (frame p) 0 }) ≡ ok tt t
      → freerange_loop kernel_end (suc k) p vend s ≡ freerange_loop kernel_end k (p + pgsize) vend t
  unfolding freerange_loop write_refc
  loop-step k n {p} {vend} s r e =
      let next : u32 (p + pgsize) ≡ p + pgsize = omega arith in
      rw (
        le→leb (u32 (p + pgsize)) vend (omega arith),
        freerange_loop,
        lt→ltb (frame p) nframes (IsPage-frame (IsRange-IsPage r)).1,
        e,
        next,
      )

  loop-IsKmem :
      (k n : ℕ) {p vend : ℕ} {free : List ℕ} {s : Kmem}
      → n < k
      → IsRange kernel_end p vend n
      → Below p free
      → IsKmem kernel_end free s
      → (t : Kmem) × (freerange_loop kernel_end k p vend s ≡ ok tt t)
        × IsKmem kernel_end (add_pages p n free) t
  unfolding freerange_loop write_refc
  loop-IsKmem zero n h r b i = absurd (omega arith)
  loop-IsKmem (suc k) zero {p} {vend} {free} {s} h r b i =
      (s, rw (lt→leb_false (u32 (p + pgsize)) vend (omega arith), freerange_loop), i)
  loop-IsKmem (suc k) (suc n) {p} {vend} {free} {s} h r b i =
      let page : IsPage kernel_end p = IsRange-IsPage r in
      let (t, e, j) = round-IsKmem page b i in
      let (u, e', j') =
        loop-IsKmem k n {p = p + pgsize} {vend = vend} {free = p ∷ free} {s = t} (omega arith)
          (omega arith) (omega arith, Below-more p free b) j in
      (u, loop-step k n s r e ∙ e', j')

  freerange-IsKmem :
      (n vstart : ℕ) {vend : ℕ} {free : List ℕ} {s : Kmem}
      → IsRange kernel_end (pground_up vstart) vend n
      → Below (pground_up vstart) free
      → IsKmem kernel_end free s
      → (t : Kmem) × (freerange kernel_end vstart vend s ≡ ok tt t)
        × IsKmem kernel_end (add_pages (pground_up vstart) n free) t
  unfolding freerange
  freerange-IsKmem n vstart r b i = loop-IsKmem (2 ^ 20 + 1) n (omega arith) r b i

  -- kinit1() at boot, with no page free: it returns, and the free list is exactly the `n` whole pages
  -- of the range, the last one first, each counted.
  pub kinit1-IsKmem :
      (n vstart : ℕ) {vend : ℕ} (s : Kmem)
      → IsRange kernel_end (pground_up vstart) vend n
      → s.freelist ≡ 0
      → (t : Kmem) × (kinit1 kernel_end vstart vend s ≡ ok tt t)
        × IsKmem kernel_end (add_pages (pground_up vstart) n []) t
  unfolding kinit1
  kinit1-IsKmem n vstart s r empty = freerange-IsKmem n vstart r tt (record {
    chain = empty;
    pages = tt;
    distinct = tt;
    unowned = tt;
    counted = refl;
    unlocked = refl;
  })

  -- kinit2() with the free pages all below its range: the pages of the range go in front of them,
  -- the last one first, and from then on the lock is used.
  pub kinit2-IsKmem :
      (n vstart : ℕ) {vend : ℕ} {free : List ℕ} {s : Kmem}
      → IsRange kernel_end (pground_up vstart) vend n
      → Below (pground_up vstart) free
      → IsKmem kernel_end free s
      → (t : Kmem) × (kinit2 kernel_end vstart vend s ≡ ok tt t)
        × IsKmem kernel_end (add_pages (pground_up vstart) n free) t
        × (t.use_lock ≡ true)
  unfolding kinit2
  kinit2-IsKmem n vstart r b i =
      let (t, e, j) = freerange-IsKmem n vstart r b i in
      (
        record t { use_lock = true },
        rw e,
        record {
          chain = j.chain;
          pages = j.pages;
          distinct = j.distinct;
          unowned = j.unowned;
          counted = j.counted;
          unlocked = j.unlocked;
        },
        refl,
      )
