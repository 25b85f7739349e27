-- ===== src/Vm/Kvm.antt =====
-- setupkvm() of xv6-public/vm.c and its table `kmap`. `data_start` is the linker's `data`.
use os_11740_assignment.Base.{ℕ, ◌+◌, ◌-◌, ◌^◌, ◌==◌, ltb, List, [], ◌∷◌, if◌then◌else◌}
use os_11740_assignment.Base.Run.{Cmd, pure, panics, ◌>>=◌, ◌>>◌}
use os_11740_assignment.Mmu.{u32, kernbase, phystop, v2p, p2v, pte_w}
use os_11740_assignment.Kalloc.{Kmem, kalloc}
use os_11740_assignment.Vm.Walk.{zero_page, mappages}
use os_11740_assignment.Vm.Uvm.{freevm}

-- struct kmap
pub record Kmap : Type 0 where
  pub virt : ℕ
  pub phys_start : ℕ
  pub phys_end : ℕ
  pub perm : ℕ

abbrev kmap_entry : ℕ → ℕ → ℕ → ℕ → Kmap
kmap_entry v a b p = record { virt = v; phys_start = a; phys_end = b; perm = p }

abbrev pub extmem : ℕ
extmem = 0x100000

abbrev pub devspace : ℕ
devspace = 0xFE000000

abbrev pub kernlink : ℕ
kernlink = kernbase + extmem

module _ (kernel_end data_start : ℕ) where
  abbrev pub kmap : List Kmap
  kmap =
      kmap_entry kernbase 0 extmem pte_w
      ∷ kmap_entry kernlink (v2p kernlink) (v2p data_start) 0
      ∷ kmap_entry data_start (v2p data_start) phystop pte_w
      ∷ kmap_entry devspace devspace 0 pte_w
      ∷ []

  -- The loop over the entries; on failure the table built so far is freed.
  unfoldable pub map_all : ℕ → List Kmap → Cmd Kmem ℕ
  map_all pgdir [] = pure pgdir
  map_all pgdir (k ∷ ks) =
      let rest = map_all pgdir ks in
      do
        done ← mappages pgdir k.virt (u32 (k.phys_end + 2 ^ 32 - k.phys_start)) k.phys_start k.perm
        if done then rest else (do freevm kernel_end pgdir; pure 0)

  unfoldable pub setupkvm : Cmd Kmem ℕ
  setupkvm = do
    pgdir ← kalloc
    if pgdir == 0
        then pure 0
        else (do zero_page pgdir; if ltb devspace (p2v phystop) then panics else map_all pgdir kmap)
