-- ===== src/Vm/Cow/Pair.antt =====
-- Two processes that share a page and fault on it one after the other, as a parent and its child do behind
-- copyuvm() of xv6-public/vm.c.
use os_11740_assignment.Base.{
  ℕ, ◌≡◌, ◌≢◌, sym, ap, ◌∙◌, true, arith, List, ◌∷◌, ◌⊎◌, inl, update, update_ne,
}
use os_11740_assignment.Base.Run.{ok}
use os_11740_assignment.Mmu.{v2p, p2v, pdx, ptx, pte_w, pte_addr, is_present, is_writable, is_user}
use os_11740_assignment.Kalloc.{Kmem, frame}
use os_11740_assignment.Kalloc.Inv.{IsKmem}
use os_11740_assignment.Kalloc.Free.{IsKmem-page}
use os_11740_assignment.Vm.Walk.{Slot, slot, user_entry, read_word, write_word}
use os_11740_assignment.Vm.Entry.{
  entry_frame, pde_of, pte_slot, set_writable_fields, read-write_table,
}
use os_11740_assignment.Vm.Cow.{cow_handler, resumes}
use os_11740_assignment.Vm.Cow.Faults.{
  IsMapped, Unshared, frame-fresh, cow_handler-shared, cow_handler-sole,
}
use Prim.Native.Nat.{bit_or}

-- The page of `pte` in `s` became two in `u`: the entry at `p` names the page `v`, and that at `q` the old
-- one, with the flags of `pte'` and the permission to write.
pub record Parted (kernel_end : ℕ) (p q : Slot) (pte pte' v : ℕ) (vs : List ℕ) (s u : Kmem)
    : Type 0 where
  pub allocator : IsKmem kernel_end vs u
  pub first : read_word u p ≡ user_entry (v2p v)
  pub second : entry_frame (read_word u q) ≡ entry_frame pte
  pub writable : is_writable (read_word u q) ≡ true
  pub user : is_user (read_word u q) ≡ is_user pte'
  pub different : frame v ≢ entry_frame pte
  pub copy : (i : ℕ) → u.mem (frame v) i ≡ s.mem (entry_frame pte) i
  pub old : (i : ℕ) → u.mem (entry_frame pte) i ≡ s.mem (entry_frame pte) i
  pub copy_count : u.refc_cnt (frame v) ≡ 1
  pub old_count : u.refc_cnt (entry_frame pte) ≡ 1
  pub words :
      (r : Slot)
      → r.table ≢ frame v
      → (r.table ≢ p.table) ⊎ (r.index ≢ p.index)
      → (r.table ≢ q.table) ⊎ (r.index ≢ q.index)
      → read_word u r ≡ read_word s r
  pub counts : (f : ℕ) → f ≢ frame v → f ≢ entry_frame pte → u.refc_cnt f ≡ s.refc_cnt f

-- The page tables of the two processes are different pages, neither is the shared page, and all of
-- them are in use, and so is the directory of the second process.
pub record AreApart (s : Kmem) (p q : Slot) (d f : ℕ) : Type 0 where
  pub tables : p.table ≢ q.table
  pub directory : d ≢ p.table
  pub page : f ≢ p.table
  pub page' : f ≢ q.table
  pub used : s.refc_cnt p.table ≢ 0
  pub used' : s.refc_cnt q.table ≢ 0
  pub used_directory : s.refc_cnt d ≢ 0

read-write_other :
    (q : Slot) (w : ℕ) (s : Kmem) (r : Slot)
    → (r.table ≢ q.table) ⊎ (r.index ≢ q.index)
    → read_word (write_word q w s) r ≡ read_word s r
read-write_other q w s r c = ground arith

module _ {s : Kmem} {pgdir pgdir' va va' pte pte' : ℕ} (m : IsMapped s pgdir va pte)
    (m' : IsMapped s pgdir' va' pte') (same : entry_frame pte' ≡ entry_frame pte)
    (a : AreApart s (pte_slot s pgdir va) (pte_slot s pgdir' va') (frame pgdir') (entry_frame pte))
    {kernel_end v : ℕ} {vs : List ℕ} (i : IsKmem kernel_end (v ∷ vs) s) where
  module _ {t : Kmem} (x : Unshared kernel_end (pte_slot s pgdir va) pte v vs s t) where
    directory-kept : pde_of t pgdir' va' ≡ pde_of s pgdir' va'
    directory-kept =
        x.words (slot (frame pgdir') (pdx va'))
          (λ e.
            frame-fresh s.refc_cnt (frame v) (frame pgdir') i.unowned.0 a.used_directory (sym e))
          (inl a.directory)

    place-kept : pte_slot t pgdir' va' ≡ pte_slot s pgdir' va'
    place-kept = ap (λ e. slot (frame (p2v (pte_addr e))) (ptx va')) directory-kept

    fresh-second : (pte_slot s pgdir' va').table ≢ frame v
    fresh-second e = frame-fresh s.refc_cnt (frame v) _ i.unowned.0 a.used' (sym e)

    entry-kept : read_word t (pte_slot s pgdir' va') ≡ pte'
    entry-kept =
        x.words (pte_slot s pgdir' va') fresh-second (inl (λ e. a.tables (sym e))) ∙ m'.entry

    -- The fault of the first process leaves the second one's entry mapped.
    second-IsMapped : IsMapped t pgdir' va' pte'
    second-IsMapped = record {
      table = ap is_present directory-kept ∙ m'.table;
      entry = ap (read_word t) place-kept ∙ entry-kept;
      present = m'.present;
      word = m'.word;
      counted = m'.counted;
    }

    second-runs :
        t.refc_cnt (entry_frame pte) ≡ 1
        → cow_handler pgdir' va' t
          ≡ ok resumes (write_word (pte_slot s pgdir' va') (bit_or pte' pte_w) t)
    second-runs one_left =
        cow_handler-sole second-IsMapped x.allocator.unlocked
          (omega (arith, one_left, ap t.refc_cnt same))
        ∙ ap (λ q. ok resumes (write_word q (bit_or pte' pte_w) t)) place-kept

    parted :
        s.refc_cnt (entry_frame pte) ≡ 2
        → t.refc_cnt (entry_frame pte) ≡ 1
        → Parted kernel_end
            (pte_slot s pgdir va)
            (pte_slot s pgdir' va')
            pte
            pte'
            v
            vs
            s
            (write_word (pte_slot s pgdir' va') (bit_or pte' pte_w) t)
    parted two one_left =
        let p = pte_slot s pgdir va in
        let q = pte_slot s pgdir' va' in
        let w = bit_or pte' pte_w in
        let u = write_word q w t in
        let fields = set_writable_fields pte' in
        let at : read_word u q ≡ w = ground arith in
        let different =
          frame-fresh s.refc_cnt (frame v) (entry_frame pte) i.unowned.0 (omega (arith, two)) in
        record {
          allocator =
              IsKmem-page q.table
                (λ e. a.used' (sym (x.counts q.table fresh-second (λ f. a.page' (sym f))) ∙ e))
                x.allocator (update (t.mem q.table) q.index w);
          first = read-write_table q w t p a.tables ∙ x.entry;
          second = ap entry_frame at ∙ fields.0 ∙ same;
          writable = ap is_writable at ∙ fields.2;
          user = ap is_user at ∙ fields.3;
          different = different;
          copy = λ j.
              ap (λ (page : ℕ → ℕ). page j)
                (update_ne t.mem q.table (update (t.mem q.table) q.index w) (frame v)
                    (λ e. fresh-second (sym e))
                  ∙ x.copy);
          old = λ j.
              read-write_table q w t (slot (entry_frame pte) j) a.page'
              ∙ x.words (slot (entry_frame pte) j) (λ e. different (sym e)) (inl a.page);
          copy_count = x.mine;
          old_count = one_left;
          words = λ r n b c. read-write_other q w t r c ∙ x.words r n b;
          counts = x.counts;
        }

  -- Where two processes share a page, both faults on it let the process resume, one after the other: the
  -- first one gives its process the free page, filled with what the shared page holds, and the second
  -- one makes the other process write to the old page again, which holds what it held. The two pages are
  -- different and count one owner each, the free list is the rest of the old one, and no other word of
  -- memory and no other count changes. The conditions are
  -- that the page counts two owners, that one page is free, and that the page tables and the shared page
  -- are pages of their own that are in use, with the directory of the second process.
  pub cow_handler-Parted :
      s.refc_cnt (entry_frame pte) ≡ 2
      → (t u : Kmem) × (cow_handler pgdir va s ≡ ok resumes t)
        × (cow_handler pgdir' va' t ≡ ok resumes u)
        × Parted kernel_end (pte_slot s pgdir va) (pte_slot s pgdir' va') pte pte' v vs s u
  cow_handler-Parted two =
      let (t, first, x) = cow_handler-shared m i a.used (omega (arith, two)) (omega (arith, two)) in
      let one_left : t.refc_cnt (entry_frame pte) ≡ 1 = omega (arith, x.less, two) in
      (
        t,
        write_word (pte_slot s pgdir' va') (bit_or pte' pte_w) t,
        first,
        second-runs x one_left,
        parted x two one_left,
      )
