-- ===== src/Kalloc/Tests.antt =====
-- kalloc.c on a memory of a few pages, and the theorems at it.
use os_11740_assignment.Base.{
  ℕ, ◌+◌, ◌-◌, ◌^◌, ◌≡◌, ◌≢◌, refl, true, false, [], ◌∷◌, arith, if◌then◌else◌, ◌==◌,
}
use os_11740_assignment.Base.Run.{ok, panic}
use os_11740_assignment.Kalloc.{Kmem, kalloc, kfree, countfp, kinit1}
use os_11740_assignment.Kalloc.Inv.{IsKmem}
use os_11740_assignment.Kalloc.Alloc.{kalloc_exhausted}
use os_11740_assignment.Kalloc.Free.{SameCounts, kfree_shared-IsKmem, kfree_last-IsKmem}
use os_11740_assignment.Kalloc.Range.{kinit1-IsKmem}

abbrev kernel_end : ℕ
kernel_end = 0x80100000

-- Frame 0x400 is free, frame 0x401 has two owners, and frame 0x402 one.
abbrev few_pages : Kmem
few_pages = record {
  mem = λ f i. 0;
  freelist = 0x80400000;
  freecnt = 1;
  refc_cnt = λ f. if f == 0x401 then 2 else (if f == 0x402 then 1 else 0);
  use_lock = true;
  locked = false;
}

abbrev no_pages : Kmem
no_pages = record few_pages { freelist = 0; freecnt = 0 }

few_pages-IsKmem : IsKmem kernel_end (0x80400000 ∷ []) few_pages
few_pages-IsKmem = ground arith

no_pages-IsKmem : IsKmem kernel_end [] no_pages
no_pages-IsKmem = ground arith

kalloc_exhausted_example :
    (t : Kmem) × (kalloc no_pages ≡ ok 0 t)
    × (countfp no_pages ≡ ok 0 no_pages)
    × (countfp t ≡ ok (2 ^ 32 - 1) t)
kalloc_exhausted_example = kalloc_exhausted no_pages-IsKmem

kfree_shared-IsKmem_example :
    (t : Kmem) × (kfree kernel_end 0x80401000 few_pages ≡ ok tt t)
    × IsKmem kernel_end (0x80400000 ∷ []) t
    × (t.refc_cnt 0x401 + 1 ≡ 2)
    × SameCounts 0x401 few_pages t
    × (t.mem ≡ few_pages.mem)
kfree_shared-IsKmem_example =
    kfree_shared-IsKmem (omega arith) few_pages-IsKmem (omega arith) (omega arith)

kfree_last-IsKmem_example :
    (t : Kmem) × (kfree kernel_end 0x80402000 few_pages ≡ ok tt t)
    × IsKmem kernel_end (0x80402000 ∷ 0x80400000 ∷ []) t
    × (t.refc_cnt 0x402 ≡ 0)
    × SameCounts 0x402 few_pages t
    × ((g : ℕ) → g ≢ 0x402 → t.mem g ≡ few_pages.mem g)
kfree_last-IsKmem_example =
    kfree_last-IsKmem (omega arith) few_pages-IsKmem (omega arith) (omega arith)

kinit1-IsKmem_example :
    (t : Kmem) × (kinit1 kernel_end 0x80500001 0x80503000 no_pages ≡ ok tt t)
    × IsKmem kernel_end (0x80502000 ∷ 0x80501000 ∷ []) t
kinit1-IsKmem_example = kinit1-IsKmem 2 0x80500001 no_pages (omega arith) refl

-- An address inside a page is refused, and so is one of the kernel's own.
kfree_refuses :
    (kfree kernel_end 0x80400004 few_pages ≡ panic)
    × (kfree kernel_end 0x80000000 few_pages ≡ panic)
unfolding kfree
kfree_refuses = (refl, refl)
