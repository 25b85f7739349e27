-- ===== src/Vm/Cow/Faults.antt =====
-- What CoW_handler() does to the faulting process, to the page and to whoever shares it.
use os_11740_assignment.Base.{
  ℕ, ◌+◌, ◌-◌, ◌/◌, ◌^◌, ◌≤◌, ◌<◌, ◌≡◌, ◌≢◌, true, false, arith, update, subst, List, ◌∷◌, ◌⊎◌, inl,
  inr, lt→ltb, le→ltb_false, ne→==_false, ◌∙◌, ap,
}
use os_11740_assignment.Base.Run.{ok, pure, and_then-ok, ◌>>◌}
use os_11740_assignment.Mmu.{u32, pgsize, v2p, pte_w, pte_addr, is_present, nframes}
use os_11740_assignment.Kalloc.{Kmem, frame, kalloc, get_refc}
use os_11740_assignment.Kalloc.Inv.{IsKmem, IsPage-frame}
use os_11740_assignment.Kalloc.Alloc.{taken, kalloc-cons}
use os_11740_assignment.Kalloc.Share.{get_refc-eq, decr_refc-eq}
use os_11740_assignment.Kalloc.Free.{IsKmem-page, IsKmem-refs}
use os_11740_assignment.Vm.Walk.{Slot, user_entry, read_word, write_word}
use os_11740_assignment.Vm.Entry.{
  entry_frame, pde_of, pte_slot, walkpgdir-present, walkpgdir-absent, frame-p2v,
}
use os_11740_assignment.Vm.Cow.{cow_handler, make_writable, break_share, resumes, exits}
use Prim.Native.Nat.{bit_or}

-- The entry for the faulting address is there and present, and its frame has a counter.
pub record IsMapped (s : Kmem) (pgdir va pte : ℕ) : Type 0 where
  pub table : is_present (pde_of s pgdir va) ≡ true
  pub entry : read_word s (pte_slot s pgdir va) ≡ pte
  pub present : is_present pte ≡ true
  pub word : pte < 2 ^ 32
  pub counted : entry_frame pte < nframes

module _ {s : Kmem} {pgdir va pte : ℕ} (m : IsMapped s pgdir va pte) where
  handler-eq : cow_handler pgdir va s ≡ (make_writable (pte_slot s pgdir va) >> pure resumes) s
  unfolding cow_handler
  handler-eq = rw (
    le→ltb_false va 0 (omega arith),
    walkpgdir-present s pgdir va false m.table,
    m.entry,
    m.present,
  )

-- The page `v` taken for a copy, filled, and put into the entry at `p`; the old page still counts
-- this process.
abbrev pub filled : Slot → ℕ → ℕ → Kmem → Kmem
filled p pte v s =
    write_word p (user_entry (v2p v))
      (record (taken v s) { mem = update s.mem (frame v) (s.mem (entry_frame pte)) })

-- The count of the old page is one less.
abbrev pub copied : Slot → ℕ → ℕ → Kmem → Kmem
copied p pte v s = record (filled p pte v s) {
  refc_cnt =
      update (filled p pte v s).refc_cnt (entry_frame pte)
        (u32 ((filled p pte v s).refc_cnt (entry_frame pte) + 2 ^ 32 - 1));
}

break_share-eq :
    (p : Slot) (pte v : ℕ) (s : Kmem)
    → kalloc s ≡ ok v (taken v s)
    → v ≢ 0
    → s.locked ≡ false
    → pte < 2 ^ 32
    → entry_frame pte < nframes
    → break_share p (pte_addr pte) s ≡ ok tt (copied p pte v s)
unfolding break_share
break_share-eq p pte v s e ne free word counted =
    let f : pte_addr pte / pgsize ≡ entry_frame pte = omega arith in
    rw (
      e,
      ne→==_false v 0 ne,
      frame-p2v pte word,
      decr_refc-eq (pte_addr pte) (filled p pte v s) (rw f counted) free,
      f,
    )

module _ (p : Slot) (pte : ℕ) (s : Kmem) (at : read_word s p ≡ pte) (word : pte < 2 ^ 32)
    (free : s.locked ≡ false) where
  count-eq :
      entry_frame pte < nframes → get_refc (pte_addr pte) s ≡ ok (s.refc_cnt (entry_frame pte)) s
  count-eq counted =
      let f : pte_addr pte / pgsize ≡ entry_frame pte = omega arith in
      get_refc-eq (pte_addr pte) s (rw f counted) free ∙ ap (λ g. ok (s.refc_cnt g) s) f

  make_writable-shared :
      (v : ℕ)
      → kalloc s ≡ ok v (taken v s)
      → v ≢ 0
      → entry_frame pte < nframes
      → 1 < s.refc_cnt (entry_frame pte)
      → s.refc_cnt (entry_frame pte) < 2 ^ 31
      → make_writable p s ≡ ok tt (copied p pte v s)
  unfolding make_writable
  make_writable-shared v e ne counted many small =
      rw (at, count-eq counted, lt→ltb _ _ many, lt→ltb _ _ small)
        (break_share-eq p pte v s e ne free word counted)

  make_writable-sole :
      entry_frame pte < nframes
      → s.refc_cnt (entry_frame pte) ≤ 1
      → make_writable p s ≡ ok tt (write_word p (bit_or pte pte_w) s)
  unfolding make_writable
  make_writable-sole counted few = rw (at, count-eq counted, le→ltb_false _ _ few)

-- The free list after the copy: the table and the old page are in use.
copied-IsKmem :
    {kernel_end v : ℕ} {vs : List ℕ} {s : Kmem} (p : Slot) (pte : ℕ)
    → IsKmem kernel_end (v ∷ vs) s
    → s.refc_cnt p.table ≢ 0
    → s.refc_cnt (entry_frame pte) ≢ 0
    → IsKmem kernel_end vs (copied p pte v s)
copied-IsKmem {kernel_end} {v} {vs} {s} p pte i owned shared =
    IsKmem-refs (entry_frame pte) shared'
      (IsKmem-page p.table owned'
        (IsKmem-page (frame v) mine (kalloc-cons i).1 (s.mem (entry_frame pte)))
        (update (update s.mem (frame v) (s.mem (entry_frame pte)) p.table) p.index
          (user_entry (v2p v))))
      (u32 ((filled p pte v s).refc_cnt (entry_frame pte) + 2 ^ 32 - 1))
  where
    shared' : (filled p pte v s).refc_cnt (entry_frame pte) ≢ 0
    shared' = ground arith

    mine : (taken v s).refc_cnt (frame v) ≢ 0
    mine = ground arith

    owned' : (taken v s).refc_cnt p.table ≢ 0
    owned' = ground arith

-- The parts of the copied state, where the free page is neither the table nor the old page.
module _ (p : Slot) (pte v : ℕ) (s : Kmem) (fresh : frame v ≢ entry_frame pte)
    (fresh' : frame v ≢ p.table) where
  copied-entry : read_word (copied p pte v s) p ≡ user_entry (v2p v)
  copied-entry = ground arith

  copied-page : (copied p pte v s).mem (frame v) ≡ s.mem (entry_frame pte)
  copied-page = ground arith

  -- No word changes but those of the free page and the entry.
  copied-rest :
      (q : Slot)
      → q.table ≢ frame v
      → (q.table ≢ p.table) ⊎ (q.index ≢ p.index)
      → read_word (copied p pte v s) q ≡ read_word s q
  copied-rest q a b = ground arith

  copied-one : (copied p pte v s).refc_cnt (frame v) ≡ 1
  copied-one = ground arith

  copied-less :
      1 < s.refc_cnt (entry_frame pte)
      → s.refc_cnt (entry_frame pte) < 2 ^ 31
      → (copied p pte v s).refc_cnt (entry_frame pte) + 1 ≡ s.refc_cnt (entry_frame pte)
  copied-less many small = ground arith

  copied-counts :
      (f : ℕ) → f ≢ frame v → f ≢ entry_frame pte → (copied p pte v s).refc_cnt f ≡ s.refc_cnt f
  copied-counts f a b = ground arith

-- A frame with a reference is not that of a free page.
pub frame-fresh : (refs : ℕ → ℕ) (f g : ℕ) → refs f ≡ 0 → refs g ≢ 0 → f ≢ g
frame-fresh refs f g z o e = o (subst (λ x. refs x ≡ 0) e z)

-- From `s` to `t` the entry at `p` got a page of its own: the free page `v`, filled with what the
-- shared page holds. `vs` is the rest of the free list.
pub record Unshared (kernel_end : ℕ) (p : Slot) (pte v : ℕ) (vs : List ℕ) (s t : Kmem)
    : Type 0 where
  pub allocator : IsKmem kernel_end vs t
  pub entry : read_word t p ≡ user_entry (v2p v)
  pub copy : t.mem (frame v) ≡ s.mem (entry_frame pte)
  pub mine : t.refc_cnt (frame v) ≡ 1
  pub less : t.refc_cnt (entry_frame pte) + 1 ≡ s.refc_cnt (entry_frame pte)
  pub words :
      (q : Slot)
      → q.table ≢ frame v
      → (q.table ≢ p.table) ⊎ (q.index ≢ p.index)
      → read_word t q ≡ read_word s q
  pub counts : (f : ℕ) → f ≢ frame v → f ≢ entry_frame pte → t.refc_cnt f ≡ s.refc_cnt f

module _ {s : Kmem} {pgdir va pte : ℕ} (m : IsMapped s pgdir va pte) where
  -- A fault on a page with several owners, with a free page left and the page table itself in use:
  -- the process resumes; its entry now names the free page, with all permissions; that page is a
  -- copy and counts one owner; the old page has one owner less; the free list is the rest of the
  -- old one; and no other word of memory and no other count is touched.
  pub cow_handler-shared :
      {kernel_end v : ℕ} {vs : List ℕ}
      → IsKmem kernel_end (v ∷ vs) s
      → s.refc_cnt (pte_slot s pgdir va).table ≢ 0
      → 1 < s.refc_cnt (entry_frame pte)
      → s.refc_cnt (entry_frame pte) < 2 ^ 31
      → (t : Kmem) × (cow_handler pgdir va s ≡ ok resumes t)
        × Unshared kernel_end (pte_slot s pgdir va) pte v vs s t
  cow_handler-shared {v} i owned many small =
      let p = pte_slot s pgdir va in
      let fresh = frame-fresh s.refc_cnt (frame v) (entry_frame pte) i.unowned.0 (omega arith) in
      let fresh' = frame-fresh s.refc_cnt (frame v) p.table i.unowned.0 owned in
      (
        copied p pte v s,
        handler-eq m
            ∙ and_then-ok (pure resumes) (
                make_writable-shared p pte s m.entry m.word i.unlocked v (kalloc-cons i).0
                  (IsPage-frame i.pages.0).0 m.counted many small),
        record {
          allocator = copied-IsKmem p pte i owned (omega arith);
          entry = copied-entry p pte v s fresh fresh';
          copy = copied-page p pte v s fresh fresh';
          mine = copied-one p pte v s fresh fresh';
          less = copied-less p pte v s fresh fresh' many small;
          words = copied-rest p pte v s fresh fresh';
          counts = copied-counts p pte v s fresh fresh';
        },
      )

  -- A fault on a page with one owner or none: the process resumes and its entry becomes writable.
  pub cow_handler-sole :
      s.locked ≡ false
      → s.refc_cnt (entry_frame pte) ≤ 1
      → cow_handler pgdir va s ≡ ok resumes (write_word (pte_slot s pgdir va) (bit_or pte pte_w) s)
  cow_handler-sole free few =
      handler-eq m
      ∙ and_then-ok (pure resumes)
          (make_writable-sole (pte_slot s pgdir va) pte s m.entry m.word free m.counted few)

-- With nothing mapped at the address, in the directory or in the table, exit() is called and nothing
-- was changed.
pub cow_handler-absent :
    (s : Kmem) (pgdir va : ℕ)
    → (is_present (pde_of s pgdir va) ≡ false)
      ⊎ ((is_present (pde_of s pgdir va) ≡ true)
          × (is_present (read_word s (pte_slot s pgdir va)) ≡ false))
    → cow_handler pgdir va s ≡ ok exits s
unfolding cow_handler
cow_handler-absent s pgdir va (inl h) =
    rw (le→ltb_false va 0 (omega arith), walkpgdir-absent s pgdir va h)
cow_handler-absent s pgdir va (inr h) =
    rw (le→ltb_false va 0 (omega arith), walkpgdir-present s pgdir va false h.0, h.1)
