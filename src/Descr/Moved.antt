-- ===== src/Descr/Moved.antt =====
-- What fdalloc() of xv6-public/sysfile.c does with a handle that a call has in its hands.
use os_11740_assignment.Base.{
  ℕ, ◌+◌, ◌<◌, ◌≡◌, refl, ap, subst, arith, inl, inr, Option, Option-cases, none, some, List, [],
  ◌∷◌, ◌++◌, length, update,
}
use os_11740_assignment.File.{Ftable}
use os_11740_assignment.File.Handles.{uses}
use os_11740_assignment.Proc.{nproc}
use os_11740_assignment.Descr.{Descriptors, nofile, fd_slots, fd_slot, find_fd, fdalloc}
use os_11740_assignment.Descr.Slots.{
  one, holders_set, opened, uses-opened, Counts-change, Taken, Finds, fdalloc-Finds,
}
use os_11740_assignment.Descr.Handed.{Done, done, Owns, few_owned}

uses-append : (g : ℕ) (xs ys : List ℕ) → uses g (xs ++ ys) ≡ uses g xs + uses g ys
unfolding uses
uses-append g [] ys = omega arith
uses-append g (x ∷ xs) ys = omega (arith, uses-append g xs ys)

moved_in :
    (o : ℕ → Option ℕ) (i f : ℕ) (es : List ℕ) (t : Ftable)
    → i < fd_slots
    → o i ≡ none
    → length es < 8
    → Owns o (f ∷ es) t
    → Owns (update o i (some f)) es t
unfolding uses
moved_in o i f es t lt e few c =
    let p = update o i (some f) in
    Counts-change (f ∷ (es ++ opened o fd_slots)) (es ++ opened p fd_slots) t c
      (λ g.
        let set = holders_set g o i (some f) fd_slots lt in
        let free : one g (o i) ≡ 0 = ap (one g) e in
        omega (
          arith,
          set,
          free,
          uses-append g es (opened o fd_slots),
          uses-append g es (opened p fd_slots),
          uses-opened g o fd_slots,
          uses-opened g p fd_slots,
        ))
      (omega (arith, few_owned p es few))

pub moved_out :
    (o : ℕ → Option ℕ) (i f : ℕ) (es : List ℕ) (t : Ftable)
    → i < fd_slots
    → o i ≡ some f
    → length es < 7
    → Owns o es t
    → Owns (update o i none) (f ∷ es) t
unfolding uses
moved_out o i f es t lt e few c =
    let p = update o i none in
    Counts-change (es ++ opened o fd_slots) (f ∷ (es ++ opened p fd_slots)) t c
      (λ g.
        let set = holders_set g o i none fd_slots lt in
        let held : one g (o i) ≡ one g (some f) = ap (one g) e in
        omega (
          arith,
          set,
          held,
          uses-append g es (opened o fd_slots),
          uses-append g es (opened p fd_slots),
          uses-opened g o fd_slots,
          uses-opened g p fd_slots,
        ))
      (omega (arith, few_owned p (f ∷ es) (omega arith)))

-- The descriptor that fdalloc() takes for `f`: it was free, and the file is no more in the call's hands. Or
-- none was free.
abbrev pub Placed : ℕ → ℕ → List ℕ → Descriptors → Option ℕ → Descriptors → Type 0
Placed p f es s none u = (u ≡ s) × Taken s.ofile p 0 nofile
Placed p f es s (some fd) u =
    (fd < nofile)
    × (s.ofile (fd_slot p fd) ≡ none)
    × (u.ofile ≡ update s.ofile (fd_slot p fd) (some f))
    × (u.table ≡ s.table)
    × Owns u.ofile es u.table

pub fdalloc-Placed :
    (p f : ℕ) (es : List ℕ) (s : Descriptors)
    → p < nproc
    → Owns s.ofile (f ∷ es) s.table
    → length es < 8
    → Done (Placed p f es s) (fdalloc p f s)
unfolding fdalloc find_fd
fdalloc-Placed p f es s proc c lt = elim (Option-cases (find_fd s.ofile p nofile 0)) [
  | inl full ↦ rw full (done (refl, subst (Finds s.ofile p 0) full (fdalloc-Finds s.ofile p)))
  | inr (fd, found) ↦
      let (small, free, _) = subst (Finds s.ofile p 0) found (fdalloc-Finds s.ofile p) in
      let room : fd_slot p fd < fd_slots = omega (arith, small, proc) in
      rw found (
        done (small, free, refl, refl, moved_in s.ofile (fd_slot p fd) f es s.table room free lt c))
]
