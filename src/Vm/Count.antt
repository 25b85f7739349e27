-- ===== src/Vm/Count.antt =====
-- countvp(), countpp() and countptp() of xv6-public/proc.c, which report on the memory of the current
-- process, and what the counts are.
pub mod Tally
use os_11740_assignment.Base.{
  ℕ, zero, suc, ◌+◌, ◌*◌, ◌/◌, ◌≤◌, ◌<◌, ◌≡◌, refl, ◌∙◌, arith, Bool, true, false, ◌&&◌, ◌==◌, leb,
  ltb, if◌then◌else◌, Bool-cases, inl, inr, ap,
}
use os_11740_assignment.Mmu.{u32, pgsize, npdentries, nptentries, p2v, pte_addr, is_present}
use os_11740_assignment.Kalloc.{Kmem, frame}

-- struct proc, the two fields that are read
pub record Space : Type 0 where
  pub sz : ℕ
  pub pgdir : ℕ

pub countvp : Space → ℕ
countvp p = p.sz / pgsize

-- The address of entry `j` of the table at entry `i`.
abbrev pub address : ℕ → ℕ → ℕ
address i j = u32 ((i * npdentries + j) * pgsize)

-- The inner loop of countpp() for the `k` entries from `j` on, and whether it returned.
unfoldable pub count_entries : Kmem → ℕ → ℕ → ℕ → ℕ → ℕ → ℕ → ℕ × Bool
count_entries s sz table i zero j ret = (ret, false)
count_entries s sz table i (suc k) j ret =
    let next =
      count_entries s sz table i k (j + 1) (if is_present (s.mem table j) then ret + 1 else ret) in
    if leb sz (address i j) then (ret, true) else next

-- The outer loop for the `k` directory entries from `i` on.
count_tables : Kmem → Space → ℕ → ℕ → ℕ → ℕ
unfolding count_entries
count_tables s p zero i ret = ret
count_tables s p (suc k) i ret =
    let (found, stop) =
      count_entries s p.sz (frame (p2v (pte_addr (s.mem (frame p.pgdir) i)))) i nptentries 0 ret in
    let more = count_tables s p k (i + 1) found in
    let skip = count_tables s p k (i + 1) ret in
    if is_present (s.mem (frame p.pgdir) i) then (if stop then found else more) else skip

pub countpp : Kmem → Space → ℕ
countpp s p = if p.pgdir == 0 then 0 else count_tables s p npdentries 0 0

-- The directory itself, and a page for each present entry.
count_present : Kmem → Space → ℕ → ℕ → ℕ → ℕ
count_present s p zero i ret = ret
count_present s p (suc k) i ret =
    count_present s p k (i + 1) (if is_present (s.mem (frame p.pgdir) i) then ret + 1 else ret)

pub countptp : Kmem → Space → ℕ
countptp s p = if p.pgdir == 0 then 0 else count_present s p npdentries 0 1
