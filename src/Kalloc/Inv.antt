-- ===== src/Kalloc/Inv.antt =====
-- What holds of kalloc.c's `kmem` between two calls: the free list is a chain through distinct free
-- pages, and the counter counts them.
use os_11740_assignment.Base.{
  ℕ, ◌%◌, ◌^◌, ◌≤◌, ◌<◌, ◌≡◌, subst, sym, ◌∙◌, ◌≢◌, false, List, [], ◌∷◌, arith, length, All,
  update, update_ne,
}
use os_11740_assignment.Mmu.{u32, pgsize, phystop, nframes, v2p}
use os_11740_assignment.Kalloc.{Kmem, frame, is_bad}

-- From `p` the first words of the pages lead through `vs` to the null pointer.
abbrev pub Chain : (ℕ → ℕ → ℕ) → ℕ → List ℕ → Type 0
Chain mem p [] = p ≡ 0
Chain mem p (v ∷ vs) = (p ≡ v) × Chain mem (mem (frame v) 0) vs

abbrev pub NotIn : ℕ → List ℕ → Type 0
NotIn v vs = All (λ w. w ≢ v) vs

abbrev pub Distinct : List ℕ → Type 0
Distinct [] = Unit
Distinct (v ∷ vs) = NotIn v vs × Distinct vs

-- What kfree() accepts: an aligned address of a page between the kernel's end and PHYSTOP.
pub record IsPage (kernel_end v : ℕ) : Type 0 where
  pub aligned : v % pgsize ≡ 0
  pub above : kernel_end ≤ v
  pub below : v2p v < phystop
  pub word : v < 2 ^ 32

pub record IsKmem (kernel_end : ℕ) (free : List ℕ) (s : Kmem) : Type 0 where
  pub chain : Chain s.mem s.freelist free
  pub pages : All (IsPage kernel_end) free
  pub distinct : Distinct free
  pub unowned : All (λ v. s.refc_cnt (frame v) ≡ 0) free
  pub counted : s.freecnt ≡ u32 (length free)
  pub unlocked : s.locked ≡ false

module _ {kernel_end : ℕ} where
  pub is_bad-IsPage : {v : ℕ} → IsPage kernel_end v → is_bad kernel_end v ≡ false
  is_bad-IsPage h = ground arith

  -- A page lies in the upper half, so it is not null, and its frame has a count.
  pub IsPage-frame : {v : ℕ} → IsPage kernel_end v → (v ≢ 0) × (frame v < nframes)
  IsPage-frame h = omega arith

  -- Different pages have different frames.
  pub frame-ne : {v w : ℕ} → IsPage kernel_end v → IsPage kernel_end w → w ≢ v → frame w ≢ frame v
  frame-ne h k ne = omega arith

  -- A chain does not see a write to a page that is not on it.
  pub Chain-update :
      {v : ℕ} (mem : ℕ → ℕ → ℕ) (page : ℕ → ℕ) (p : ℕ) (vs : List ℕ)
      → IsPage kernel_end v
      → All (IsPage kernel_end) vs
      → NotIn v vs
      → Chain mem p vs
      → Chain (update mem (frame v) page) p vs
  Chain-update mem page p [] h hs out c = c
  Chain-update {v} mem page p (w ∷ vs) h hs out c = (
    c.0,
    subst (λ (f : ℕ → ℕ). Chain (update mem (frame v) page) (f 0) vs)
        (sym (update_ne mem (frame v) page (frame w) (frame-ne h hs.0 out.0)))
        (Chain-update mem page (mem (frame w) 0) vs h hs.1 out.1 c.1),
  )

  -- Nor do the counts of the listed pages see a write to another count.
  pub unowned-update :
      {v : ℕ} (refs : ℕ → ℕ) (n : ℕ) (vs : List ℕ)
      → IsPage kernel_end v
      → All (IsPage kernel_end) vs
      → NotIn v vs
      → All (λ w. refs (frame w) ≡ 0) vs
      → All (λ w. update refs (frame v) n (frame w) ≡ 0) vs
  unowned-update refs n [] h hs out u = tt
  unowned-update {v} refs n (w ∷ vs) h hs out u = (
    update_ne refs (frame v) n (frame w) (frame-ne h hs.0 out.0) ∙ u.0,
    unowned-update refs n vs h hs.1 out.1 u.1,
  )

-- The same for a frame that has a reference, which no page of the list has.
pub Chain-owned :
    (f : ℕ) (page : ℕ → ℕ) (mem : ℕ → ℕ → ℕ) (refs : ℕ → ℕ) (p : ℕ) (vs : List ℕ)
    → refs f ≢ 0
    → All (λ w. refs (frame w) ≡ 0) vs
    → Chain mem p vs
    → Chain (update mem f page) p vs
Chain-owned f page mem refs p [] o u c = c
Chain-owned f page mem refs p (w ∷ vs) o u c = (
  c.0,
  subst (λ (g : ℕ → ℕ). Chain (update mem f page) (g 0) vs)
      (sym (update_ne mem f page (frame w) (λ e. o (subst (λ x. refs x ≡ 0) e u.0))))
      (Chain-owned f page mem refs (mem (frame w) 0) vs o u.1 c.1),
)

pub unowned-owned :
    (f n : ℕ) (refs : ℕ → ℕ) (vs : List ℕ)
    → refs f ≢ 0
    → All (λ w. refs (frame w) ≡ 0) vs
    → All (λ w. update refs f n (frame w) ≡ 0) vs
unowned-owned f n refs [] o u = tt
unowned-owned f n refs (w ∷ vs) o u = (
  update_ne refs f n (frame w) (λ e. o (subst (λ x. refs x ≡ 0) e u.0)) ∙ u.0,
  unowned-owned f n refs vs o u.1,
)
