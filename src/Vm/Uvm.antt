-- ===== src/Vm/Uvm.antt =====
-- deallocuvm(), allocuvm(), freevm() and clearpteu() of xv6-public/vm.c. `kernel_end` is the linker's `end`.
use os_11740_assignment.Base.{
  ℕ, zero, suc, ◌+◌, ◌-◌, ◌^◌, false, ◌==◌, ltb, leb, none, some, if◌then◌else◌,
}
use os_11740_assignment.Base.Bits.{and_not}
use os_11740_assignment.Base.Run.{Cmd, pure, panics, spins, when, ◌>>=◌, ◌>>◌}
use os_11740_assignment.Mmu.{
  u32, pgsize, kernbase, npdentries, v2p, p2v, pdx, pgaddr, pground_up, pte_w, pte_u, pte_addr,
  is_present,
}
use os_11740_assignment.Kalloc.{Kmem, frame, kalloc, kfree}
use os_11740_assignment.Vm.Walk.{Slot, slot, load, store, zero_page, walkpgdir, mappages}
use Prim.Native.Nat.{bit_or}

module _ (kernel_end : ℕ) where
  -- One present entry of deallocuvm(): its page loses a reference, and the entry is cleared.
  unfoldable pub unmap : Slot → Cmd Kmem (Unit {0})
  unmap p = do
    pte ← load p
    when (is_present pte) (
        if pte_addr pte == 0 then panics else (do kfree kernel_end (p2v (pte_addr pte)); store p 0))

  -- The loop of deallocuvm(), with a bound on its rounds.
  unfoldable pub deallocuvm_loop : ℕ → ℕ → ℕ → ℕ → Cmd Kmem (Unit {0})
  deallocuvm_loop zero pgdir a oldsz = spins
  deallocuvm_loop (suc k) pgdir a oldsz =
      let skip =
        deallocuvm_loop k pgdir (u32 (u32 (pgaddr (pdx a + 1) + 2 ^ 32 - pgsize) + pgsize)) oldsz in
      let next = deallocuvm_loop k pgdir (u32 (a + pgsize)) oldsz in
      if ltb a oldsz
      then (do p ← walkpgdir pgdir a false; elim p [ none ↦ skip | some p ↦ do unmap p; next ])
      else pure tt

  unfoldable pub deallocuvm : ℕ → ℕ → ℕ → Cmd Kmem ℕ
  deallocuvm pgdir oldsz newsz =
      if leb oldsz newsz
      then pure oldsz
      else (do deallocuvm_loop (2 ^ 20 + 1) pgdir (pground_up newsz) oldsz; pure newsz)

  -- The loop of allocuvm(). A page that was allocated and could not be mapped is freed last.
  unfoldable pub allocuvm_loop : ℕ → ℕ → ℕ → ℕ → ℕ → Cmd Kmem ℕ
  allocuvm_loop zero pgdir a oldsz newsz = spins
  allocuvm_loop (suc k) pgdir a oldsz newsz =
      let next = allocuvm_loop k pgdir (u32 (a + pgsize)) oldsz newsz in
      if ltb a newsz
      then (do
        mem ← kalloc
        if mem == 0 then (do deallocuvm pgdir newsz oldsz; pure 0) else (do
          zero_page mem
          done ← mappages pgdir a pgsize (v2p mem) (bit_or pte_w pte_u)
          if done then next else (do deallocuvm pgdir newsz oldsz; kfree kernel_end mem; pure 0)))
      else pure newsz

  unfoldable pub allocuvm : ℕ → ℕ → ℕ → Cmd Kmem ℕ
  allocuvm pgdir oldsz newsz =
      if leb kernbase newsz
      then pure 0
      else (if ltb newsz oldsz
          then pure oldsz
          else allocuvm_loop (2 ^ 20 + 1) pgdir (pground_up oldsz) oldsz newsz)

  -- The page tables named by the `n` directory entries from `i` on.
  unfoldable pub free_tables : ℕ → ℕ → ℕ → Cmd Kmem (Unit {0})
  free_tables zero i pgdir = pure tt
  free_tables (suc n) i pgdir = do
    pde ← load (slot (frame pgdir) i)
    when (is_present pde) (kfree kernel_end (p2v (pte_addr pde)))
    free_tables n (i + 1) pgdir

  unfoldable pub freevm : ℕ → Cmd Kmem (Unit {0})
  freevm pgdir =
      if pgdir == 0
      then panics
      else (do deallocuvm pgdir kernbase 0; free_tables npdentries 0 pgdir; kfree kernel_end pgdir)

unfoldable pub clearpteu : ℕ → ℕ → Cmd Kmem (Unit {0})
clearpteu pgdir uva = do
  p ← walkpgdir pgdir uva false
  elim p [ none ↦ panics | some p ↦ do pte ← load p; store p (and_not pte pte_u) ]
