-- ===== src/Vm/Count/Tally.antt =====
-- What countpp() counts: the present entries below the size, although it stops at the first address
-- that is not below.
use os_11740_assignment.Base.{
  ℕ, zero, suc, ◌+◌, ◌*◌, ◌≤◌, ◌<◌, ◌≡◌, refl, ◌≢◌, ◌∙◌, arith, Bool, true, false, ltb,
  if◌then◌else◌, ap, ◌&&◌, ne→==_false,
}
use os_11740_assignment.Mmu.{pgsize, npdentries, nptentries, p2v, pte_addr, is_present}
use os_11740_assignment.Kalloc.{Kmem, frame}
use os_11740_assignment.Vm.Count.{Space, address, count_entries, count_tables, countpp}

module _ (s : Kmem) (sz : ℕ) where
  -- How many of the `k` entries from `j` on are present and map an address below the size.
  pub tally_entries : ℕ → ℕ → ℕ → ℕ → ℕ
  tally_entries table i zero j = 0
  tally_entries table i (suc k) j =
      (if is_present (s.mem table j) && ltb (address i j) sz then 1 else 0)
      + tally_entries table i k (j + 1)

  -- The same for the tables of the `k` directory entries from `i` on.
  pub tally_tables : ℕ → ℕ → ℕ → ℕ
  tally_tables dir zero i = 0
  tally_tables dir (suc k) i =
      (if is_present (s.mem dir i)
        then tally_entries (frame (p2v (pte_addr (s.mem dir i)))) i nptentries 0
        else 0)
      + tally_tables dir k (i + 1)

  -- From an address that is not below the size on, there is nothing to count.
  tally_entries-past :
      (table i k j : ℕ)
      → i < npdentries
      → j + k ≤ nptentries
      → sz ≤ (i * npdentries + j) * pgsize
      → tally_entries table i k j ≡ 0
  unfolding tally_entries
  tally_entries-past table i zero j hi hj past = refl
  tally_entries-past table i (suc k) j hi hj past =
      ground (arith, tally_entries-past table i k (j + 1))

  tally_tables-past :
      (dir k i : ℕ) → i + k ≤ npdentries → sz ≤ i * npdentries * pgsize → tally_tables dir k i ≡ 0
  unfolding tally_tables
  tally_tables-past dir zero i h past = refl
  tally_tables-past dir (suc k) i h past = ground (
    arith,
    tally_entries-past (frame (p2v (pte_addr (s.mem dir i)))) i nptentries 0,
    tally_tables-past dir k (i + 1),
  )

  -- The inner loop counts what the tally does, and stops only where all later addresses are too high.
  count_entries-tally :
      (table i k j ret : ℕ)
      → i < npdentries
      → j + k ≤ nptentries
      → ((count_entries s sz table i k j ret).0 ≡ ret + tally_entries table i k j)
        × ((count_entries s sz table i k j ret).1 ≡ true → sz ≤ (i + 1) * npdentries * pgsize)
  unfolding count_entries tally_entries
  count_entries-tally table i zero j ret hi hj = (omega arith, λ e. cc)
  count_entries-tally table i (suc k) j ret hi hj = ground (
    arith,
    tally_entries-past table i k (j + 1),
    count_entries-tally table i k (j + 1) (if is_present (s.mem table j) then ret + 1 else ret),
  )

-- A round of the outer loop, when the calls in it count what they should.
round :
    (present stop : Bool) (found more skip ret tally rest : ℕ)
    → found ≡ ret + tally
    → (stop ≡ true → rest ≡ 0)
    → more ≡ found + rest
    → skip ≡ ret + rest
    → (if present then (if stop then found else more) else skip)
      ≡ ret + ((if present then tally else 0) + rest)
round false stop found more skip ret tally rest e h em es = omega arith
round true true found more skip ret tally rest e h em es = omega (h refl, arith)
round true false found more skip ret tally rest e h em es = omega arith

module _ (s : Kmem) (p : Space) where
  count_tables-tally :
      (k i ret : ℕ)
      → i + k ≤ npdentries
      → count_tables s p k i ret ≡ ret + tally_tables s p.sz (frame p.pgdir) k i
  unfolding count_tables tally_tables
  count_tables-tally zero i ret h = omega arith
  count_tables-tally (suc k) i ret h =
      let counted =
        count_entries-tally s p.sz (frame (p2v (pte_addr (s.mem (frame p.pgdir) i)))) i nptentries 0
          ret (omega arith) (omega arith) in
      round (is_present (s.mem (frame p.pgdir) i)) _ _ _ _ ret _ _ counted.0
        (λ e. tally_tables-past s p.sz (frame p.pgdir) k (i + 1) (omega arith) (counted.1 e))
        (count_tables-tally k (i + 1) _ (omega arith))
        (count_tables-tally k (i + 1) ret (omega arith))

  -- For a process with a page directory, countpp() returns the number of pairs of a present directory
  -- entry and a present entry of its table that map an address below the process's size, although
  -- its loops return at the first address that is not below.
  pub countpp-tally : p.pgdir ≢ 0 → countpp s p ≡ tally_tables s p.sz (frame p.pgdir) npdentries 0
  unfolding countpp
  countpp-tally h =
      ap (λ b. if b then 0 else count_tables s p npdentries 0 0) (ne→==_false p.pgdir 0 h)
      ∙ count_tables-tally npdentries 0 0 (omega arith)
      ∙ omega arith
