-- ===== src/Vm/Cow.antt =====
-- CoW_handler() of xv6-public/vm.c, called from trap() on a page fault.
pub mod Faults
pub mod Pair
use os_11740_assignment.Base.{
  ℕ, ◌^◌, Bool, false, ◌&&◌, ◌==◌, ltb, Option, none, some, if◌then◌else◌, update,
}
use os_11740_assignment.Base.Run.{Cmd, pure, panics, modify, get, ◌>>=◌, ◌>>◌}
use os_11740_assignment.Mmu.{v2p, p2v, pte_w, pte_addr, is_present}
use os_11740_assignment.Kalloc.{Kmem, frame, kalloc, get_refc, decr_refc}
use os_11740_assignment.Vm.Walk.{Slot, load, store, walkpgdir, user_entry}
use Prim.Native.Nat.{bit_or}

-- Whether the process goes on or exit() ends it.
pub data Outcome : Type 0 where
  resumes exits : Outcome

-- memmove(mem, P2V(pa), PGSIZE)
abbrev pub copy_page : ℕ → ℕ → Cmd Kmem (Unit {0})
copy_page dst src = modify (λ s. record s { mem = update s.mem (frame dst) (s.mem (frame src)) })

-- The branch for a shared page: a copy of its own for this process.
unfoldable pub break_share : Slot → ℕ → Cmd Kmem (Unit {0})
break_share p pa = do
  mem ← kalloc
  if mem == 0
      then panics
      else (do copy_page mem (p2v pa); store p (user_entry (v2p mem)); decr_refc pa)

-- The entry was found and is present. `n` is the bit pattern of an int, which is compared with 1.
unfoldable pub make_writable : Slot → Cmd Kmem (Unit {0})
unfolding break_share
make_writable p = do
  pte ← load p
  n ← get_refc (pte_addr pte)
  if ltb 1 n && ltb n (2 ^ 31) then break_share p (pte_addr pte) else store p (bit_or pte pte_w)

-- `cr2` is the faulting address, `pgdir` the directory of the process. The test of the address is
-- one of an unsigned number against 0.
unfoldable pub cow_handler : ℕ → ℕ → Cmd Kmem Outcome
cow_handler pgdir cr2 = if ltb cr2 0 then panics else (do
  p ← walkpgdir pgdir cr2 false
  elim p [
    | none ↦ pure exits
    | some p ↦ do
      pte ← load p
      if is_present pte then (do make_writable p; pure resumes) else pure exits
  ])
