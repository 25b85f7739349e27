-- ===== src/Kalloc/Share.antt =====
-- The reference counts alone: get_refc(), incr_refc() and decr_refc().
use os_11740_assignment.Base.{
  ℕ, ◌+◌, ◌-◌, ◌/◌, ◌^◌, ◌≡◌, false, List, arith, update, ◌<◌, ◌≤◌, fun_ext, ap,
}
use os_11740_assignment.Base.Run.{ok, fault, ◌>>◌}
use os_11740_assignment.Mmu.{u32, pgsize, nframes, v2p}
use os_11740_assignment.Kalloc.{Kmem, frame, kfree, incr_refc, decr_refc, get_refc}
use os_11740_assignment.Kalloc.Inv.{IsPage, IsKmem, IsPage-frame, is_bad-IsPage}
use os_11740_assignment.Kalloc.Free.{kfree-shared}

module _ (pa : ℕ) (s : Kmem) where
  pub get_refc-eq :
      pa / pgsize < nframes → s.locked ≡ false → get_refc pa s ≡ ok (s.refc_cnt (pa / pgsize)) s
  unfolding get_refc
  get_refc-eq h free = ground arith

  pub incr_refc-eq :
      pa / pgsize < nframes
      → s.locked ≡ false
      → incr_refc pa s
        ≡ ok tt (record s {
          refc_cnt = update s.refc_cnt (pa / pgsize) (u32 (s.refc_cnt (pa / pgsize) + 1));
        })
  unfolding incr_refc
  incr_refc-eq h free = ground arith

  pub decr_refc-eq :
      pa / pgsize < nframes
      → s.locked ≡ false
      → decr_refc pa s
        ≡ ok tt (record s {
          refc_cnt = update s.refc_cnt (pa / pgsize) (u32 (s.refc_cnt (pa / pgsize) + 2 ^ 32 - 1));
        })
  unfolding decr_refc
  decr_refc-eq h free = ground arith

  -- Above PHYSTOP there is no counter: the array is read out of its bounds.
  pub get_refc-fault : nframes ≤ pa / pgsize → s.locked ≡ false → get_refc pa s ≡ fault
  unfolding get_refc
  get_refc-fault h free = ground arith

-- Sharing a page and dropping the new reference again leaves every part of the allocator as it was.
pub kfree-incr_refc :
    {kernel_end v : ℕ} {free : List ℕ} {s : Kmem}
    → IsPage kernel_end v
    → IsKmem kernel_end free s
    → 1 ≤ s.refc_cnt (frame v)
    → s.refc_cnt (frame v) + 1 < 2 ^ 31
    → (incr_refc (v2p v) >> kfree kernel_end v) s ≡ ok tt s
kfree-incr_refc {kernel_end} {v} {s} page i one small =
    let f = frame v in
    let up = u32 (s.refc_cnt f + 1) in
    let shared = record s { refc_cnt = update s.refc_cnt f up } in
    rw
      (
        incr_refc-eq (v2p v) s (IsPage-frame page).1 i.unlocked,
        kfree-shared kernel_end v shared (is_bad-IsPage page) (IsPage-frame page).1 i.unlocked
            (ground arith) (ground arith),
      )
      (ap (λ refs. ok tt (record s { refc_cnt = refs })) (fun_ext λ g. ground arith))
