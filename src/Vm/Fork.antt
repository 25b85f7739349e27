-- ===== src/Vm/Fork.antt =====
-- copyuvm() and uva2ka() of xv6-public/vm.c: a child shares its parent's pages, which both may then
-- only read.
pub mod Sharing
use os_11740_assignment.Base.{
  ℕ, zero, suc, ◌+◌, ◌^◌, Bool, false, ◌==◌, ltb, Option, none, some, if◌then◌else◌,
}
use os_11740_assignment.Base.Bits.{and_not}
use os_11740_assignment.Base.Run.{Cmd, pure, panics, faults, spins, ◌>>=◌, ◌>>◌}
use os_11740_assignment.Mmu.{u32, pgsize, p2v, pte_w, pte_addr, pte_flags, is_present, is_user}
use os_11740_assignment.Kalloc.{Kmem, incr_refc}
use os_11740_assignment.Vm.Walk.{Slot, load, store, walkpgdir, mappages}
use os_11740_assignment.Vm.Uvm.{freevm}
use os_11740_assignment.Vm.Kvm.{setupkvm}

-- The page at `p`, mapped at `va`, is made read-only and shared with the directory `d`.
unfoldable pub share : Slot → ℕ → ℕ → Cmd Kmem Bool
share p va d = do
  pte ← load p
  if is_present pte
      then (do
        store p (and_not pte pte_w)
        pte ← load p
        done ← mappages d va pgsize (pte_addr pte) (pte_flags pte)
        if done then (do incr_refc (pte_addr pte); pure done) else pure done)
      else panics

module _ (kernel_end data_start : ℕ) where
  -- The loop of copyuvm() from address `i`, with a bound on its rounds.
  unfoldable pub copyuvm_loop : ℕ → ℕ → ℕ → ℕ → ℕ → Cmd Kmem ℕ
  copyuvm_loop zero pgdir d i sz = spins
  copyuvm_loop (suc k) pgdir d i sz =
      let next = copyuvm_loop k pgdir d (u32 (i + pgsize)) sz in
      if ltb i sz
      then (do
        p ← walkpgdir pgdir i false
        elim p [
          | none ↦ panics
          | some p ↦ do done ← share p i d; if done then next else (do freevm kernel_end d; pure 0)
        ])
      else pure d

  unfoldable pub copyuvm : ℕ → ℕ → Cmd Kmem ℕ
  copyuvm pgdir sz = do
    d ← setupkvm kernel_end data_start
    if d == 0 then pure 0 else copyuvm_loop (2 ^ 20 + 1) pgdir d 0 sz

-- `*pte` is read although walkpgdir() may have returned the null pointer.
unfoldable pub uva2ka : ℕ → ℕ → Cmd Kmem ℕ
uva2ka pgdir uva = do
  p ← walkpgdir pgdir uva false
  elim p [
    | none ↦ faults
    | some p ↦ do
      pte ← load p
      if is_present pte then (if is_user pte then pure (p2v (pte_addr pte)) else pure 0) else pure 0
  ]
