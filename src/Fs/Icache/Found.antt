-- ===== src/Fs/Icache/Found.antt =====
-- Every outcome of iget() of xv6-public/fs.c.
use os_11740_assignment.Base.{
  ℕ, zero, suc, ◌+◌, ◌<◌, ◌≡◌, ◌≢◌, ◌⊎◌, inl, inr, refl, ap, ◌∙◌, arith, Bool, true, false, ◌==◌,
  if◌then◌else◌, Option, none, some, update, Bool-cases, ==_iff,
}
use os_11740_assignment.Base.Run.{Run, ok, panic, fault, waits, out_of_fuel}
use os_11740_assignment.Mmu.{u32}
use os_11740_assignment.Fs.{Inode, Fs, ninode}
use os_11740_assignment.Fs.Icache.{is_for, recycle, remember, iget_empty, iget_loop, iget}

-- One more reference.
abbrev pub referenced : Inode → Inode
referenced n = record n { ref = u32 (n.ref + 1) }

abbrev pub with_inode : ℕ → (Inode → Inode) → Fs → Fs
with_inode i f s = record s { inode = update s.inode i (f (s.inode i)) }

module _ (dev inum : ℕ) (s : Fs) where
  -- No entry below `i` is for the inode.
  abbrev pub Absent : ℕ → Type 0
  Absent i = (j : ℕ) → j < i → is_for dev inum (s.inode j) ≡ false

  -- Every outcome of iget(): the cached entry with one more reference; or, if there is none, a
  -- recycled one; or a panic, if besides no entry is free.
  abbrev pub Igets : Run Fs ℕ → Type 0
  Igets (ok i t) =
      (i < ninode)
      × (((is_for dev inum (s.inode i) ≡ true) × (t ≡ with_inode i referenced s))
          ⊎ (Absent ninode × ((s.inode i).ref ≡ 0) × (t ≡ with_inode i (recycle dev inum) s)))
  Igets panic = Absent ninode × ((j : ℕ) → j < ninode → (s.inode j).ref ≢ 0)
  Igets fault = ⊥
  Igets waits = ⊥
  Igets out_of_fuel = ⊥

  -- What the loop knows of the entries below `i`.
  abbrev Seen : ℕ → Option ℕ → Type 0
  Seen i none = (j : ℕ) → j < i → (s.inode j).ref ≢ 0
  Seen i (some e) = (e < i) × ((s.inode e).ref ≡ 0)

  Seen-if :
      (i : ℕ) (b : Bool)
      → ((s.inode i).ref == 0) ≡ b
      → Seen i none
      → Seen (i + 1) (if b then some i else none)
  Seen-if i true e h = (omega arith, (==_iff (s.inode i).ref 0).0 e)
  Seen-if i false e h = λ j lt. elim (Bool-cases (j == i)) [
    | inl same ↦ λ z. ground (arith, e, ap (λ k. (s.inode k).ref) ((==_iff j i).0 same), z)
    | inr other ↦ h j (ground arith)
  ]

  Seen-suc :
      (i : ℕ) (empty : Option ℕ) → Seen i empty → Seen (i + 1) (remember empty (s.inode i).ref i)
  Seen-suc i (some e) h = (omega (arith, h.0), h.1)
  Seen-suc i none h = Seen-if i _ refl h

  Absent-suc : (i : ℕ) → Absent i → is_for dev inum (s.inode i) ≡ false → Absent (i + 1)
  Absent-suc i h e j lt = elim (Bool-cases (j == i)) [
    | inl same ↦ ap (λ k. is_for dev inum (s.inode k)) ((==_iff j i).0 same) ∙ e
    | inr other ↦ h j (ground arith)
  ]

  iget_loop-Igets :
      (k i : ℕ) (empty : Option ℕ)
      → i + k ≡ ninode
      → Absent i
      → Seen i empty
      → Igets (iget_loop dev inum k i empty s)
  unfolding iget_loop iget_empty
  iget_loop-Igets zero i none e absent seen =
      (λ j lt. absent j (omega arith), λ j lt. seen j (omega arith))
  iget_loop-Igets zero i (some m) e absent seen =
      (omega (arith, seen.0), inr (λ j lt. absent j (omega arith), seen.1, refl))
  iget_loop-Igets (suc k) i empty e absent seen = elim (Bool-cases (is_for dev inum (s.inode i))) [
    | inl here ↦ rw here (omega arith, inl (here, refl))
    | inr other ↦ rw other (
        iget_loop-Igets k (i + 1) (remember empty (s.inode i).ref i) (omega arith)
          (Absent-suc i absent other) (Seen-suc i empty seen))
  ]

  -- iget() returns the entry of the inode, or one that was free when there is none, and panics only
  -- when there is neither.
  pub iget-Igets : Igets (iget dev inum s)
  unfolding iget
  iget-Igets =
      iget_loop-Igets ninode 0 none refl (λ j lt. absurd (omega arith))
        (λ j lt. absurd (omega arith))
