-- ===== src/Vm/Fork/Sharing.antt =====
-- One page of copyuvm(): what the parent and the child have afterwards.
use os_11740_assignment.Base.{
  ℕ, suc, ◌+◌, ◌-◌, ◌/◌, ◌%◌, ◌^◌, ◌<◌, ◌≡◌, refl, ◌≢◌, ◌⊎◌, true, false, arith, update, ◌∙◌, ap,
  subst, eq→==, sym,
}
use os_11740_assignment.Base.Bits.{and_not, or_page, or_one}
use os_11740_assignment.Base.Run.{ok}
use os_11740_assignment.Mmu.{
  u32, pgsize, p2v, pte_p, pte_w, pte_addr, pte_flags, ptx, is_present, is_writable, is_user,
  nframes, pground_down,
}
use os_11740_assignment.Kalloc.{Kmem, frame}
use os_11740_assignment.Kalloc.Share.{incr_refc-eq}
use os_11740_assignment.Vm.Walk.{Slot, slot, mappages, mappages_loop, read_word, write_word}
use os_11740_assignment.Vm.Entry.{
  entry_frame, read-write_self, pde_of, pte_slot, walkpgdir-present, clear_writable_fields,
}
use os_11740_assignment.Vm.Fork.{share}
use Prim.Native.Nat.{bit_or}

mappages_loop-last :
    (k d va pa perm : ℕ) (s : Kmem)
    → is_present (pde_of s d va) ≡ true
    → is_present (read_word s (pte_slot s d va)) ≡ false
    → mappages_loop (suc k) d va va pa perm s
      ≡ ok true (write_word (pte_slot s d va) (bit_or (bit_or pa perm) pte_p) s)
unfolding mappages_loop
mappages_loop-last k d va pa perm s table empty =
    rw (walkpgdir-present s d va true table, empty, eq→== va va refl)

-- mappages() of one page, where the directory has a table with a free entry for it.
mappages-one :
    (d va pa perm : ℕ) (s : Kmem)
    → va % pgsize ≡ 0
    → va < 2 ^ 32
    → is_present (pde_of s d va) ≡ true
    → is_present (read_word s (pte_slot s d va)) ≡ false
    → mappages d va pgsize pa perm s
      ≡ ok true (write_word (pte_slot s d va) (bit_or (bit_or pa perm) pte_p) s)
unfolding mappages
mappages-one d va pa perm s aligned word table empty =
    let first : pground_down va ≡ va = omega arith in
    let last : pground_down (u32 (va + pgsize + 2 ^ 32 - 1)) ≡ va = omega arith in
    rw (first, last) (mappages_loop-last (2 ^ 20 - 1) d va pa perm s table empty)

-- Put together from its address and its flags, a present entry is itself.
entry-parts :
    (pte : ℕ) → is_present pte ≡ true → bit_or (bit_or (pte_addr pte) (pte_flags pte)) pte_p ≡ pte
entry-parts pte present =
    let whole : bit_or (pte_addr pte) (pte_flags pte) ≡ pte =
      or_page (pte_addr pte) (pte_flags pte) (omega arith) (omega arith) ∙ omega arith in
    rw (whole, or_one pte) (ground arith)

-- The parent's entry is read-only and in the child's table too, and its page counts one owner more.
abbrev pub shared : Slot → Slot → ℕ → Kmem → Kmem
shared p q pte s =
    let t = write_word q (and_not pte pte_w) (write_word p (and_not pte pte_w) s) in
    record t {
      refc_cnt = update t.refc_cnt (entry_frame pte) (u32 (s.refc_cnt (entry_frame pte) + 1));
    }

-- From `s` to `t` the entries at `p` and `q` became one read-only entry for the page of `pte`.
pub record IsShared (p q : Slot) (pte : ℕ) (s t : Kmem) : Type 0 where
  pub equal : read_word t q ≡ read_word t p
  pub page : entry_frame (read_word t p) ≡ entry_frame pte
  pub present : is_present (read_word t p) ≡ true
  pub read_only : is_writable (read_word t p) ≡ false
  pub user : is_user (read_word t p) ≡ is_user pte
  pub more : t.refc_cnt (entry_frame pte) ≡ s.refc_cnt (entry_frame pte) + 1
  pub counts : (f : ℕ) → f ≢ entry_frame pte → t.refc_cnt f ≡ s.refc_cnt f
  pub words :
      (r : Slot)
      → (r.table ≢ p.table) ⊎ (r.index ≢ p.index)
      → (r.table ≢ q.table) ⊎ (r.index ≢ q.index)
      → read_word t r ≡ read_word s r
  pub freelist : t.freelist ≡ s.freelist
  pub freecnt : t.freecnt ≡ s.freecnt
  pub use_lock : t.use_lock ≡ s.use_lock
  pub locked : t.locked ≡ s.locked

-- The child's table is not the one that holds the parent's entry, and has no entry for `va`.
pub record IsRoom (s : Kmem) (p : Slot) (d va : ℕ) : Type 0 where
  pub aligned : va % pgsize ≡ 0
  pub word : va < 2 ^ 32
  pub table : is_present (pde_of s d va) ≡ true
  pub empty : is_present (read_word s (pte_slot s d va)) ≡ false
  pub apart : frame d ≢ p.table
  pub apart' : (pte_slot s d va).table ≢ p.table

module _ {s : Kmem} {p : Slot} {d va pte : ℕ} (room : IsRoom s p d va) (at : read_word s p ≡ pte)
    (present : is_present pte ≡ true) (word : pte < 2 ^ 32) (counted : entry_frame pte < nframes)
    (free : s.locked ≡ false) where
  -- A write to the parent's table is not seen in the child's.
  child-unchanged :
      (w : ℕ)
      → (pde_of (write_word p w s) d va ≡ pde_of s d va)
        × (read_word (write_word p w s) (pte_slot s d va) ≡ read_word s (pte_slot s d va))
  child-unchanged w = (ground (arith, room.apart), ground (arith, room.apart'))

  child-mapped :
      (w : ℕ)
      → is_present w ≡ true
      → mappages d va pgsize (pte_addr w) (pte_flags w) (write_word p w s)
        ≡ ok true (write_word (pte_slot s d va) w (write_word p w s))
  child-mapped w there =
      let same = child-unchanged w in
      let place : pte_slot (write_word p w s) d va ≡ pte_slot s d va =
        ap (λ x. slot (frame (p2v (pte_addr x))) (ptx va)) same.0 in
      subst
        (λ q.
          is_present (read_word (write_word p w s) q) ≡ false
          → mappages d va pgsize (pte_addr w) (pte_flags w) (write_word p w s)
            ≡ ok true (
                write_word q (bit_or (bit_or (pte_addr w) (pte_flags w)) pte_p) (write_word p w s)))
        place
        (mappages-one d va (pte_addr w) (pte_flags w) (write_word p w s) room.aligned room.word
          (ap is_present same.0 ∙ room.table))
        (ap is_present same.1 ∙ room.empty)
      ∙ ap (λ x. ok true (write_word (pte_slot s d va) x (write_word p w s))) (entry-parts w there)

  share-eq : share p va d s ≡ ok true (shared p (pte_slot s d va) pte s)
  unfolding share
  share-eq =
      let w = and_not pte pte_w in
      let fields = clear_writable_fields pte in
      let there : is_present w ≡ true = fields.1 ∙ present in
      let f : pte_addr w / pgsize ≡ entry_frame pte = omega (arith, fields.0) in
      rw (
        at,
        present,
        read-write_self p w s,
        child-mapped w there,
        incr_refc-eq (pte_addr w) (write_word (pte_slot s d va) w (write_word p w s)) (rw f counted)
            free,
        f,
      )

  -- One page of copyuvm(), where the child's directory has a table with no entry there: afterwards
  -- parent and child have the same entry, which names the old page, is present and is not writable;
  -- the page has one owner more; no other word of memory changes, in the two page tables or
  -- elsewhere, and no other count, and the free list, its counter and the lock are as they were.
  -- The conditions are that the child's table is another page than the parent's, that the parent's
  -- entry is a word that is present and names a frame that has a counter, that the count fits an int,
  -- and that the lock is free.
  pub share_lem :
      s.refc_cnt (entry_frame pte) + 1 < 2 ^ 31
      → (t : Kmem) × (share p va d s ≡ ok true t) × IsShared p (pte_slot s d va) pte s t
  share_lem small =
      let q = pte_slot s d va in
      let w = and_not pte pte_w in
      let fields = clear_writable_fields pte in
      let mine : read_word (shared p q pte s) p ≡ w = ground (arith, room.apart') in
      let theirs : read_word (shared p q pte s) q ≡ w = ground arith in
      (
        shared p q pte s,
        share-eq,
        record {
          equal = theirs ∙ sym mine;
          page = ap entry_frame mine ∙ fields.0;
          present = ap is_present mine ∙ fields.1 ∙ present;
          read_only = ap is_writable mine ∙ fields.2;
          user = ap is_user mine ∙ fields.3;
          more = ground arith;
          counts = λ f a. ground arith;
          words = λ r a b. ground arith;
          freelist = refl;
          freecnt = refl;
          use_lock = refl;
          locked = refl;
        },
      )
