-- ===== src/Vm/Entry.antt =====
-- Facts about page-table entries and about walkpgdir() where the table is there.
use os_11740_assignment.Base.{
  ℕ, ◌+◌, ◌-◌, ◌/◌, ◌%◌, ◌*◌, ◌^◌, ◌<◌, ◌≡◌, ◌≢◌, Bool, true, false, arith, some, none,
}
use os_11740_assignment.Base.Bits.{and_not, or_one, or_two, or_four, and_two}
use os_11740_assignment.Base.Run.{ok}
use os_11740_assignment.Mmu.{
  pgsize, v2p, p2v, pdx, ptx, pte_w, pte_addr, is_present, is_writable, is_user,
}
use os_11740_assignment.Kalloc.{Kmem, frame}
use os_11740_assignment.Kalloc.Inv.{IsPage}
use os_11740_assignment.Vm.Walk.{Slot, slot, walkpgdir, user_entry, read_word, write_word}
use Prim.Native.Nat.{bit_or}

-- The frame that an entry names.
abbrev pub entry_frame : ℕ → ℕ
entry_frame pte = pte / pgsize

-- P2V and then V2P are the identity, so an entry's kernel address has the entry's frame.
pub frame-p2v : (pte : ℕ) → pte < 2 ^ 32 → frame (p2v (pte_addr pte)) ≡ entry_frame pte
frame-p2v pte h = omega arith

pub user_entry_eq : (pa : ℕ) → pa % pgsize ≡ 0 → user_entry pa ≡ pa + 7
user_entry_eq pa h = rw (or_one pa, or_two (pa + (1 - pa % 2)), or_four) (omega arith)

-- The entry for the page `v`: it names that page, and is present, writable and the user's.
pub user_entry_fields :
    {kernel_end v : ℕ}
    → IsPage kernel_end v
    → (entry_frame (user_entry (v2p v)) ≡ frame v)
      × (is_present (user_entry (v2p v)) ≡ true)
      × (is_writable (user_entry (v2p v)) ≡ true)
      × (is_user (user_entry (v2p v)) ≡ true)
user_entry_fields {kernel_end} {v} h = ground (arith, user_entry_eq (v2p v))

-- Setting and clearing PTE_W changes nothing else of an entry.
pub set_writable_fields :
    (pte : ℕ)
    → (entry_frame (bit_or pte pte_w) ≡ entry_frame pte)
      × (is_present (bit_or pte pte_w) ≡ is_present pte)
      × (is_writable (bit_or pte pte_w) ≡ true)
      × (is_user (bit_or pte pte_w) ≡ is_user pte)
set_writable_fields pte = rw (or_two pte) (ground arith)

pub clear_writable_eq : (pte : ℕ) → and_not pte pte_w ≡ pte - 2 * (pte / 2 % 2)
clear_writable_eq pte = rw (and_two pte)

pub clear_writable_fields :
    (pte : ℕ)
    → (entry_frame (and_not pte pte_w) ≡ entry_frame pte)
      × (is_present (and_not pte pte_w) ≡ is_present pte)
      × (is_writable (and_not pte pte_w) ≡ false)
      × (is_user (and_not pte pte_w) ≡ is_user pte)
clear_writable_fields pte = rw (clear_writable_eq pte) (ground arith)

-- The directory entry for `va`.
abbrev pub pde_of : Kmem → ℕ → ℕ → ℕ
pde_of s pgdir va = s.mem (frame pgdir) (pdx va)

-- The place of the page-table entry for `va`, where the directory has a table.
abbrev pub pte_slot : Kmem → ℕ → ℕ → Slot
pte_slot s pgdir va = slot (frame (p2v (pte_addr (pde_of s pgdir va)))) (ptx va)

module _ (s : Kmem) (pgdir va : ℕ) where
  pub walkpgdir-present :
      (alloc : Bool)
      → is_present (pde_of s pgdir va) ≡ true
      → walkpgdir pgdir va alloc s ≡ ok (some (pte_slot s pgdir va)) s
  unfolding walkpgdir
  walkpgdir-present alloc h = rw h

  pub walkpgdir-absent :
      is_present (pde_of s pgdir va) ≡ false → walkpgdir pgdir va false s ≡ ok none s
  unfolding walkpgdir
  walkpgdir-absent h = rw h

-- Reads after a write.
module _ (p : Slot) (w : ℕ) (s : Kmem) where
  pub read-write_self : read_word (write_word p w s) p ≡ w
  read-write_self = ground arith

  pub read-write_table :
      (q : Slot) → q.table ≢ p.table → read_word (write_word p w s) q ≡ read_word s q
  read-write_table q h = ground arith
