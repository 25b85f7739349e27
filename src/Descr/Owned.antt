-- ===== src/Descr/Owned.antt =====
-- The calls dup and close of xv6-public/sysfile.c keep the reference counts of the open files.
use os_11740_assignment.Base.{
  ℕ, ◌≤◌, ◌<◌, ◌≡◌, refl, ap, subst, ◌∙◌, arith, Bool, true, false, Bool-cases, inl, inr, ◌⊎◌, leb,
  Option, Option-cases, none, some, ◌∷◌, update,
}
use os_11740_assignment.Base.Run.{ok, and_then, pure}
use os_11740_assignment.File.{Ftable}
use os_11740_assignment.File.Handles.{uses, without, Counts, uses-without, uses-without_ne}
use os_11740_assignment.File.Refs.{filedup-Counts}
use os_11740_assignment.Proc.{nproc}
use os_11740_assignment.Descr.{
  Descriptors, nofile, fd_slots, fd_slot, with_ofile, argfd, find_fd, fdalloc, sys_dup, sys_close,
}
use os_11740_assignment.Descr.Slots.{
  one, opened, uses-opened, length-opened, holders_set, Counts-change, fileclose-Counts, Taken,
  Finds, fdalloc-Finds,
}

-- Every open file counts the descriptors that stand for it, and its lock is free.
abbrev pub IsOwned : Descriptors → Type 0
IsOwned s = Counts (opened s.ofile fd_slots) s.table

module _ (o : ℕ → Option ℕ) (i f : ℕ) (lt : i < fd_slots) where
  -- A file that a descriptor stands for has a handle.
  pub uses_held : o i ≡ some f → 0 < uses f (opened o fd_slots)
  uses_held e =
      let set = holders_set f o i none fd_slots lt in
      let held : one f (o i) ≡ 1 = ap (one f) e ∙ ground arith in
      omega (arith, set, held, uses-opened f o fd_slots)

  pub opened_more :
      (t : Ftable)
      → o i ≡ none
      → Counts (f ∷ opened o fd_slots) t
      → Counts (opened (update o i (some f)) fd_slots) t
  unfolding uses
  opened_more t e c =
      Counts-change (f ∷ opened o fd_slots) (opened (update o i (some f)) fd_slots) t c
        (λ g.
          let set = holders_set g o i (some f) fd_slots lt in
          let free : one g (o i) ≡ 0 = ap (one g) e in
          omega (
            arith,
            set,
            free,
            uses-opened g o fd_slots,
            uses-opened g (update o i (some f)) fd_slots,
          ))
        (omega (arith, length-opened (update o i (some f)) fd_slots))

  pub opened_less :
      (t : Ftable)
      → o i ≡ some f
      → Counts (without f (opened o fd_slots)) t
      → Counts (opened (update o i none) fd_slots) t
  opened_less t e c =
      Counts-change (without f (opened o fd_slots)) (opened (update o i none) fd_slots) t c
        (λ g.
          let set = holders_set g o i none fd_slots lt in
          let held : one g (o i) ≡ one g (some f) = ap (one g) e in
          ground (
            arith,
            set,
            held,
            uses-opened g o fd_slots,
            uses-opened g (update o i none) fd_slots,
            uses-without f (opened o fd_slots),
            uses-without_ne f g (opened o fd_slots),
          ))
        (omega (arith, length-opened (update o i none) fd_slots))

-- What dup does: `n` was the lowest free descriptor of the process, and now stands for the file of `fd`;
-- or, when it fails, `fd` stood for no file or no descriptor was free, and nothing has changed.
abbrev pub Dups : ℕ → ℕ → Descriptors → Option ℕ → Descriptors → Type 0
Dups p fd s none t =
    ((nofile ≤ fd) ⊎ ((s.ofile (fd_slot p fd) ≡ none) ⊎ Taken s.ofile p 0 nofile)) × (t ≡ s)
Dups p fd s (some n) t =
    (f : ℕ) × (fd < nofile)
    × (s.ofile (fd_slot p fd) ≡ some f)
    × (n < nofile)
    × (s.ofile (fd_slot p n) ≡ none)
    × Taken s.ofile p 0 n
    × (t.ofile ≡ update s.ofile (fd_slot p n) (some f))

-- What close does: the descriptor stood for a file, and stands for none now; or, when it fails, it stood
-- for none, and nothing has changed.
abbrev pub Closes : ℕ → ℕ → Descriptors → Bool → Descriptors → Type 0
Closes p fd s true t =
    (f : ℕ) × (fd < nofile)
    × (s.ofile (fd_slot p fd) ≡ some f)
    × (t.ofile ≡ update s.ofile (fd_slot p fd) none)
Closes p fd s false t = ((nofile ≤ fd) ⊎ (s.ofile (fd_slot p fd) ≡ none)) × (t ≡ s)

-- close never panics: whatever descriptor it is given, it closes it or fails, and every open file counts
-- the descriptors that stand for it, as before. The conditions are that it was so before the call, and
-- that the process is one of the table.
pub sys_close-Closes :
    (p fd : ℕ) (s : Descriptors)
    → p < nproc
    → IsOwned s
    → (r : Bool) × (t : Descriptors) × (sys_close p fd s ≡ ok r t) × Closes p fd s r t × IsOwned t
unfolding sys_close argfd
sys_close-Closes p fd s proc c = elim (Bool-cases (leb nofile fd)) [
  | inl e ↦ (false, s, rw e refl, (inl (ground (arith, e)), refl), c)
  | inr e ↦ elim (Option-cases (s.ofile (fd_slot p fd))) [
    | inl closed ↦ (false, s, rw (e, closed) refl, (inr closed, refl), c)
    | inr (f, held) ↦
        let lt : fd_slot p fd < fd_slots = ground (arith, e, proc) in
        let (u, run, counts) =
          fileclose-Counts f (opened s.ofile fd_slots) s.table c
            (uses_held s.ofile (fd_slot p fd) f lt held) in
        (
          true,
          record { ofile = update s.ofile (fd_slot p fd) none; table = u },
          rw (e, held)
              (ap
                (λ r. and_then (with_ofile (update s.ofile (fd_slot p fd) none) r) (λ _. pure true))
                run),
          (f, ground (arith, e), held, refl),
          opened_less s.ofile (fd_slot p fd) f lt u held counts,
        )
  ]
]

-- dup never panics: it makes the lowest free descriptor stand for the file as well, or fails, and every
-- open file counts the descriptors that stand for it, as before. The conditions are that it was so before
-- the call, and that the process is one of the table.
pub sys_dup-Dups :
    (p fd : ℕ) (s : Descriptors)
    → p < nproc
    → IsOwned s
    → (r : Option ℕ) × (t : Descriptors) × (sys_dup p fd s ≡ ok r t) × Dups p fd s r t × IsOwned t
unfolding sys_dup argfd fdalloc find_fd
sys_dup-Dups p fd s proc c = elim (Bool-cases (leb nofile fd)) [
  | inl e ↦ (none, s, rw e refl, (inl (ground (arith, e)), refl), c)
  | inr e ↦ elim (Option-cases (s.ofile (fd_slot p fd))) [
    | inl closed ↦ (none, s, rw (e, closed) refl, (inr (inl closed), refl), c)
    | inr (f, held) ↦ elim (Option-cases (find_fd s.ofile p nofile 0)) [
      | inl full ↦
          let taken = subst (Finds s.ofile p 0) full (fdalloc-Finds s.ofile p) in
          (none, s, rw (e, held, full) refl, (inr (inr taken), refl), c)
      | inr (n, found) ↦
          let (small, free, taken) = subst (Finds s.ofile p 0) found (fdalloc-Finds s.ofile p) in
          let lt : fd_slot p fd < fd_slots = ground (arith, e, proc) in
          let (u, run, counts, _) =
            filedup-Counts c f (uses_held s.ofile (fd_slot p fd) f lt held)
              (omega (arith, length-opened s.ofile fd_slots)) in
          (
            some n,
            record { ofile = update s.ofile (fd_slot p n) (some f); table = u },
            rw (e, held, found)
                (ap
                  (λ r.
                    and_then (with_ofile (update s.ofile (fd_slot p n) (some f)) r)
                      (λ _. pure (some n)))
                  run),
            (f, ground (arith, e), held, small, free, taken, refl),
            opened_more s.ofile (fd_slot p n) f (omega (arith, small, proc)) u free counts,
          )
    ]
  ]
]
