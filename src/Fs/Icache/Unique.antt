-- ===== src/Fs/Icache/Unique.antt =====
-- iget() of xv6-public/fs.c keeps one entry for each inode.
use os_11740_assignment.Base.{
  ℕ, ◌+◌, ◌^◌, ◌<◌, ◌≡◌, inl, inr, sym, subst, ap, ◌∙◌, arith, true, ◌&&◌, ◌==◌, if◌then◌else◌,
  Bool-cases, ==_iff, update_self, update_ne,
}
use os_11740_assignment.Base.Run.{Run, ok}
use os_11740_assignment.Kalloc.{is_positive}
use os_11740_assignment.Fs.{Inode, Fs, ninode}
use os_11740_assignment.Fs.Icache.{is_for, recycle, iget}
use os_11740_assignment.Fs.Icache.Found.{referenced, with_inode, Igets, iget-Igets}

-- No two entries in use are for the same inode.
abbrev pub IsUnique : Fs → Type 0
IsUnique s =
    (dev inum i j : ℕ)
    → i < ninode
    → j < ninode
    → is_for dev inum (s.inode i) ≡ true
    → is_for dev inum (s.inode j) ≡ true
    → i ≡ j

-- A reference more does not change what an entry in use is for.
is_for-referenced :
    (d n : ℕ) (m : Inode)
    → is_positive m.ref ≡ true
    → m.ref + 1 < 2 ^ 31
    → is_for d n (referenced m) ≡ is_for d n m
is_for-referenced d n m used small = ground arith

is_for-cached :
    (s : Fs) (i d n x : ℕ)
    → is_positive (s.inode i).ref ≡ true
    → (s.inode i).ref + 1 < 2 ^ 31
    → is_for d n ((with_inode i referenced s).inode x) ≡ is_for d n (s.inode x)
is_for-cached s i d n x used small = elim (Bool-cases (x == i)) [
  | inl same ↦
      let e = (==_iff x i).0 same in
      ap (λ k. is_for d n ((with_inode i referenced s).inode k)) e
      ∙ ap (is_for d n) (update_self s.inode i (referenced (s.inode i)))
      ∙ is_for-referenced d n (s.inode i) used small
      ∙ ap (λ k. is_for d n (s.inode k)) (sym e)
  | inr other ↦
      ap (is_for d n)
        (update_ne s.inode i (referenced (s.inode i)) x (λ e. ground (arith, e, other)))
]

is_for-recycled :
    (s : Fs) (i dev inum d n x : ℕ)
    → is_for d n ((with_inode i (recycle dev inum) s).inode x)
      ≡ (if x == i then (dev == d) && (inum == n) else is_for d n (s.inode x))
is_for-recycled s i dev inum d n x = ground arith

-- What an outcome of iget() means for the cache.
Igets-IsUnique :
    (dev inum : ℕ) (s : Fs) (r : Run Fs ℕ) {i : ℕ} {t : Fs}
    → IsUnique s
    → ((j : ℕ) → (s.inode j).ref + 1 < 2 ^ 31)
    → Igets dev inum s (ok i t)
    → IsUnique t × (is_for dev inum (t.inode i) ≡ true)
Igets-IsUnique dev inum s r {i} u small (lt, inl (here, e)) =
    let used : is_positive (s.inode i).ref ≡ true = ground (arith, here) in
    let same = λ (d n x : ℕ). is_for-cached s i d n x used (small i) in
    subst (λ t. IsUnique t × (is_for dev inum (t.inode i) ≡ true)) (sym e)
      (
        λ d n x y lx ly hx hy. u d n x y lx ly (sym (same d n x) ∙ hx) (sym (same d n y) ∙ hy),
        same dev inum i ∙ here,
      )
Igets-IsUnique dev inum s r {i} u small (lt, inr (absent, free, e)) =
    let now = is_for-recycled s i dev inum in
    subst (λ t. IsUnique t × (is_for dev inum (t.inode i) ≡ true)) (sym e)
      (
        λ d n x y lx ly hx hy.
            recycled-unique d n x y lx ly (sym (now d n x) ∙ hx) (sym (now d n y) ∙ hy),
        now dev inum i ∙ ground arith,
      )
  where
    recycled-unique :
        (d n x y : ℕ)
        → x < ninode
        → y < ninode
        → (if x == i then (dev == d) && (inum == n) else is_for d n (s.inode x)) ≡ true
        → (if y == i then (dev == d) && (inum == n) else is_for d n (s.inode y)) ≡ true
        → x ≡ y
    recycled-unique d n x y lx ly hx hy = ground (arith, u d n x y lx ly, absent x lx, absent y ly)

-- iget() keeps one entry in use for each inode, and the entry that it returns is for the inode asked
-- for.
pub iget-IsUnique :
    (dev inum : ℕ) (s : Fs) {i : ℕ} {t : Fs}
    → IsUnique s
    → ((j : ℕ) → (s.inode j).ref + 1 < 2 ^ 31)
    → iget dev inum s ≡ ok i t
    → IsUnique t × (is_for dev inum (t.inode i) ≡ true)
iget-IsUnique dev inum s {i} {t} u small e =
    Igets-IsUnique dev inum s (ok i t) u small (subst (Igets dev inum s) e (iget-Igets dev inum s))
