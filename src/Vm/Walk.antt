-- ===== src/Vm/Walk.antt =====
-- walkpgdir() and mappages() of xv6-public/vm.c. Page directories and page tables are pages of the
-- memory that kalloc.c hands out; a pointer to an entry is the frame of its page and its index.
use os_11740_assignment.Base.{
  ℕ, zero, suc, ◌+◌, ◌-◌, ◌^◌, Bool, true, false, Option, none, some, ◌==◌, if◌then◌else◌, update,
}
use os_11740_assignment.Base.Run.{Cmd, ok, pure, panics, spins, modify, ◌>>=◌, ◌>>◌}
use os_11740_assignment.Mmu.{
  u32, pgsize, v2p, p2v, pdx, ptx, pground_down, pte_p, pte_w, pte_u, pte_addr, is_present,
}
use os_11740_assignment.Kalloc.{Kmem, frame, kalloc}
use Prim.Native.Nat.{bit_or}

pub record Slot : Type 0 where
  pub table : ℕ
  pub index : ℕ

abbrev pub slot : ℕ → ℕ → Slot
slot f i = record { table = f; index = i }

abbrev pub read_word : Kmem → Slot → ℕ
read_word s p = s.mem p.table p.index

abbrev pub write_word : Slot → ℕ → Kmem → Kmem
write_word p w s = record s { mem = update s.mem p.table (update (s.mem p.table) p.index w) }

-- `*p` and `*p = w`
abbrev pub load : Slot → Cmd Kmem ℕ
load p s = ok (read_word s p) s

abbrev pub store : Slot → ℕ → Cmd Kmem (Unit {0})
store p w = modify (write_word p w)

-- memset(v, 0, PGSIZE)
abbrev pub zero_page : ℕ → Cmd Kmem (Unit {0})
zero_page v = modify (λ s. record s { mem = update s.mem (frame v) (λ _. 0) })

-- pa | PTE_P | PTE_W | PTE_U
abbrev pub user_entry : ℕ → ℕ
user_entry pa = bit_or (bit_or (bit_or pa pte_p) pte_w) pte_u

-- A page table for the directory entry `pde`, cleared; `none` when memory is out.
new_table : Slot → ℕ → Cmd Kmem (Option Slot)
new_table pde va = do
  pgtab ← kalloc
  if pgtab == 0 then pure none else (do
    zero_page pgtab
    store pde (user_entry (v2p pgtab))
    pure (some (slot (frame pgtab) (ptx va))))

unfoldable pub walkpgdir : ℕ → ℕ → Bool → Cmd Kmem (Option Slot)
unfolding new_table
walkpgdir pgdir va alloc = do
  pde ← load (slot (frame pgdir) (pdx va))
  if is_present pde
      then pure (some (slot (frame (p2v (pte_addr pde))) (ptx va)))
      else (if alloc then new_table (slot (frame pgdir) (pdx va)) va else pure none)

-- The loop of mappages(), with a bound on its rounds. `true` stands for 0 and `false` for -1.
unfoldable pub mappages_loop : ℕ → ℕ → ℕ → ℕ → ℕ → ℕ → Cmd Kmem Bool
mappages_loop zero pgdir a last pa perm = spins
mappages_loop (suc k) pgdir a last pa perm =
    let rest = mappages_loop k pgdir (u32 (a + pgsize)) last (u32 (pa + pgsize)) perm in
    do
      p ← walkpgdir pgdir a true
      elim p [
        | none ↦ pure false
        | some p ↦ do
          pte ← load p
          if is_present pte then panics else (do
            store p (bit_or (bit_or pa perm) pte_p)
            if a == last then pure true else rest)
      ]

-- 2^20 rounds go through every page of the address space.
unfoldable pub mappages : ℕ → ℕ → ℕ → ℕ → ℕ → Cmd Kmem Bool
mappages pgdir va size pa perm =
    mappages_loop (2 ^ 20) pgdir (pground_down va) (pground_down (u32 (va + size + 2 ^ 32 - 1))) pa
      perm
