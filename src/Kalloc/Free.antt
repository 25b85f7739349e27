-- ===== src/Kalloc/Free.antt =====
-- kfree(): a reference is dropped, and the page is freed with its last one.
use os_11740_assignment.Base.{
  ℕ, ◌+◌, ◌-◌, ◌^◌, ◌≡◌, refl, ◌≢◌, false, List, [], ◌∷◌, arith, update, update_self, sym, ◌<◌,
  if◌then◌else◌, ◌≤◌, subst, All, Bool-cases, inl, inr,
}
use os_11740_assignment.Base.Run.{ok}
use os_11740_assignment.Mmu.{u32, nframes}
use os_11740_assignment.Kalloc.{Kmem, junk, frame, kfree, push_free, is_positive, is_bad}
use os_11740_assignment.Kalloc.Inv.{
  Chain, Chain-update, Chain-owned, unowned-owned, NotIn, IsPage, IsKmem, IsPage-frame,
  unowned-update, is_bad-IsPage,
}

-- One reference to `f` less, if there is one.
abbrev pub drop_count : ℕ → (ℕ → ℕ) → ℕ → ℕ
drop_count f refs = if is_positive (refs f) then update refs f (u32 (refs f + 2 ^ 32 - 1)) else refs

abbrev pub dropped : ℕ → Kmem → Kmem
dropped f s = record s { refc_cnt = drop_count f s.refc_cnt }

module _ (kernel_end v : ℕ) (s : Kmem) where
  pub kfree-shared :
      is_bad kernel_end v ≡ false
      → frame v < nframes
      → s.locked ≡ false
      → 1 < s.refc_cnt (frame v)
      → s.refc_cnt (frame v) < 2 ^ 31
      → kfree kernel_end v s ≡ ok tt (dropped (frame v) s)
  unfolding kfree
  kfree-shared good h free many small = ground arith

  pub kfree-last :
      is_bad kernel_end v ≡ false
      → frame v < nframes
      → s.locked ≡ false
      → s.refc_cnt (frame v) ≤ 1
      → kfree kernel_end v s ≡ ok tt (push_free v (dropped (frame v) s))
  unfolding kfree
  kfree-last good h free few = ground arith

-- A page with a reference is on no free list.
pub NotIn-counted :
    (refs : ℕ → ℕ) (v : ℕ) (vs : List ℕ)
    → refs (frame v) ≢ 0
    → All (λ w. refs (frame w) ≡ 0) vs
    → NotIn v vs
NotIn-counted refs v [] ne u = tt
NotIn-counted refs v (w ∷ vs) ne u =
    (λ e. ne (subst (λ x. refs (frame x) ≡ 0) e u.0), NotIn-counted refs v vs ne u.1)

module _ {kernel_end : ℕ} {free : List ℕ} {s : Kmem} (v : ℕ) (page : IsPage kernel_end v)
    (out : NotIn v free) (i : IsKmem kernel_end free s) where
  -- Any change of the count of a page that is not free keeps the free list in order.
  pub IsKmem-count :
      (n : ℕ) → IsKmem kernel_end free (record s { refc_cnt = update s.refc_cnt (frame v) n })
  IsKmem-count n = record {
    chain = i.chain;
    pages = i.pages;
    distinct = i.distinct;
    unowned = unowned-update s.refc_cnt n free page i.pages out i.unowned;
    counted = i.counted;
    unlocked = i.unlocked;
  }

  dropped-IsKmem : IsKmem kernel_end free (dropped (frame v) s)
  dropped-IsKmem = elim (Bool-cases (is_positive (s.refc_cnt (frame v)))) [
    | inl e ↦ rw e (IsKmem-count (u32 (s.refc_cnt (frame v) + 2 ^ 32 - 1)))
    | inr e ↦ rw e i
  ]

  push_free-IsKmem : s.refc_cnt (frame v) ≡ 0 → IsKmem kernel_end (v ∷ free) (push_free v s)
  push_free-IsKmem zeroed = record {
    chain = (
      refl,
      subst
          (λ (f : ℕ → ℕ).
            Chain (update s.mem (frame v) (update (λ _. junk) 0 s.freelist)) (f 0) free)
          (sym (update_self s.mem (frame v) (update (λ _. junk) 0 s.freelist)))
          (Chain-update s.mem (update (λ _. junk) 0 s.freelist) s.freelist free page i.pages out
            i.chain),
    );
    pages = (page, i.pages);
    distinct = (out, i.distinct);
    unowned = (zeroed, i.unowned);
    counted = omega (arith, i.counted);
    unlocked = i.unlocked;
  }

-- `t` has the counts of `s` but for frame `f`.
abbrev pub SameCounts : ℕ → Kmem → Kmem → Type 0
SameCounts f s t = (g : ℕ) → g ≢ f → t.refc_cnt g ≡ s.refc_cnt g

module _ {kernel_end v : ℕ} {free : List ℕ} {s : Kmem} (page : IsPage kernel_end v)
    (i : IsKmem kernel_end free s) where
  -- kfree() of a page that others share takes one reference away. It stays allocated, its contents
  -- and every other page are untouched, and the free list is as it was.
  pub kfree_shared-IsKmem :
      1 < s.refc_cnt (frame v)
      → s.refc_cnt (frame v) < 2 ^ 31
      → (t : Kmem) × (kfree kernel_end v s ≡ ok tt t)
        × IsKmem kernel_end free t
        × (t.refc_cnt (frame v) + 1 ≡ s.refc_cnt (frame v))
        × SameCounts (frame v) s t
        × (t.mem ≡ s.mem)
  kfree_shared-IsKmem many small = (
    dropped (frame v) s,
    kfree-shared kernel_end v s (is_bad-IsPage page) (IsPage-frame page).1 i.unlocked many small,
    dropped-IsKmem v page (NotIn-counted s.refc_cnt v free (omega arith) i.unowned) i,
    ground arith,
    λ g ne. ground arith,
    refl,
  )

  -- kfree() of the last reference to a page that is not free puts it at the head of the free list,
  -- counts it, clears its reference count, and leaves every other page's contents and count.
  pub kfree_last-IsKmem :
      s.refc_cnt (frame v) ≤ 1
      → NotIn v free
      → (t : Kmem) × (kfree kernel_end v s ≡ ok tt t)
        × IsKmem kernel_end (v ∷ free) t
        × (t.refc_cnt (frame v) ≡ 0)
        × SameCounts (frame v) s t
        × ((g : ℕ) → g ≢ frame v → t.mem g ≡ s.mem g)
  kfree_last-IsKmem few out =
      let zeroed : (dropped (frame v) s).refc_cnt (frame v) ≡ 0 = ground arith in
      (
        push_free v (dropped (frame v) s),
        kfree-last kernel_end v s (is_bad-IsPage page) (IsPage-frame page).1 i.unlocked few,
        push_free-IsKmem v page out (dropped-IsKmem v page out i) zeroed,
        zeroed,
        λ g ne. ground arith,
        λ g ne. ground arith,
      )

-- A list of pages without references is not touched by what happens to a frame with one.
module _ {kernel_end : ℕ} {free : List ℕ} {s : Kmem} (f : ℕ) (owned : s.refc_cnt f ≢ 0)
    (i : IsKmem kernel_end free s) where
  -- The contents of the frame may change.
  pub IsKmem-page : (page : ℕ → ℕ) → IsKmem kernel_end free (record s { mem = update s.mem f page })
  IsKmem-page page = record {
    chain = Chain-owned f page s.mem s.refc_cnt s.freelist free owned i.unowned i.chain;
    pages = i.pages;
    distinct = i.distinct;
    unowned = i.unowned;
    counted = i.counted;
    unlocked = i.unlocked;
  }

  -- And so may its count.
  pub IsKmem-refs : (n : ℕ) → IsKmem kernel_end free (record s { refc_cnt = update s.refc_cnt f n })
  IsKmem-refs n = record {
    chain = i.chain;
    pages = i.pages;
    distinct = i.distinct;
    unowned = unowned-owned f n s.refc_cnt free owned i.unowned;
    counted = i.counted;
    unlocked = i.unlocked;
  }
