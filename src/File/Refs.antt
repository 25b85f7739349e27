-- ===== src/File/Refs.antt =====
-- filealloc(), filedup() and fileclose() of xv6-public/file.c, on the handles of the open files.
use os_11740_assignment.Base.{
  ℕ, ◌+◌, ◌-◌, ◌^◌, ◌<◌, ◌≡◌, ◌⊎◌, inl, inr, refl, ◌∙◌, arith, false, List, [], ◌∷◌, ◌++◌, none,
  some, Option-cases, update, length, subst,
}
use os_11740_assignment.Base.Run.{ok, panic}
use os_11740_assignment.Mmu.{u32}
use os_11740_assignment.File.{
  nfile, File, FileType, Ftable, Call, fd_none, fd_pipe, fd_inode, to_pipeclose, to_begin_op,
  to_end_op, to_iput, set_ref, find_free, filealloc, filedup, close_last, fileclose,
}
use os_11740_assignment.File.Handles.{
  uses, without, Counts, uses-length, uses-without, uses-without_ne, length-without, Found,
  find_free-Found,
}

-- The calls that closing a file for good makes, the last one first.
abbrev pub closing : FileType → File → List Call
closing fd_none ff = []
closing fd_pipe ff = to_pipeclose ff.pipe ff.writable ∷ []
closing fd_inode ff = to_end_op ∷ to_iput ff.ip ∷ to_begin_op ∷ []

-- The reference count of the copy does not matter.
close_last-eq :
    (type : FileType) (ff : File) (n : ℕ) (s : Ftable)
    → close_last type (record ff { ref = n }) s
      ≡ ok tt (record s { calls = closing type ff ++ s.calls })
unfolding close_last
close_last-eq fd_none ff n s = refl
close_last-eq fd_pipe ff n s = refl
close_last-eq fd_inode ff n s = refl

-- The table when the last handle on `f` is gone.
abbrev dropped : ℕ → Ftable → Ftable
dropped f t = set_ref f (u32 ((t.file f).ref + 2 ^ 32 - 1)) t

abbrev freed : ℕ → Ftable → Ftable
freed f t = record (dropped f t) {
  file = update (dropped f t).file f (record ((dropped f t).file f) { ref = 0; type = fd_none });
  locked = false;
}

fileclose-last :
    (f : ℕ) (t : Ftable)
    → t.locked ≡ false
    → (t.file f).ref ≡ 1
    → fileclose f t
      ≡ close_last
          (t.file f).type
          (record (t.file f) { ref = u32 ((t.file f).ref + 2 ^ 32 - 1) })
          (freed f t)
unfolding fileclose
fileclose-last f t free one = ground (arith, free, one)

module _ {hs : List ℕ} {t : Ftable} (c : Counts hs t) where
  -- filedup() of a file that is open gives one more handle on it.
  pub filedup-Counts :
      (f : ℕ)
      → 0 < uses f hs
      → length hs + 1 < 2 ^ 31
      → (u : Ftable) × (filedup f t ≡ ok f u) × Counts (f ∷ hs) u × (u.calls ≡ t.calls)
  unfolding filedup uses
  filedup-Counts f used small = (
    record (set_ref f (u32 ((t.file f).ref + 1)) t) { locked = false },
    ground (arith, c.count f, c.unlocked, uses-length f hs, c.few),
    record {
      count = λ g. ground (arith, c.count f, c.count g, uses-length f hs, c.few);
      few = omega arith;
      unlocked = refl;
    },
    refl,
  )

  -- filedup() and fileclose() of a file that is not open are panics.
  pub filedup_closed : (f : ℕ) → uses f hs ≡ 0 → (filedup f t ≡ panic) × (fileclose f t ≡ panic)
  unfolding filedup fileclose
  filedup_closed f unused =
      (ground (arith, c.count f, c.unlocked), ground (arith, c.count f, c.unlocked))

  -- fileclose() of a file with other handles on it takes one handle away and makes no call.
  pub fileclose_shared-Counts :
      (f : ℕ)
      → 1 < uses f hs
      → (u : Ftable) × (fileclose f t ≡ ok tt u)
        × Counts (without f hs) u
        × (u.calls ≡ t.calls)
        × ((u.file f).type ≡ (t.file f).type)
  unfolding fileclose
  fileclose_shared-Counts f many = (
    record (set_ref f (u32 ((t.file f).ref + 2 ^ 32 - 1)) t) { locked = false },
    ground (arith, c.count f, c.unlocked, uses-length f hs, c.few),
    record {
      count = λ g. ground (
        arith,
        c.count f,
        c.count g,
        uses-length f hs,
        c.few,
        uses-without f hs,
        uses-without_ne f g hs,
      );
      few = omega (arith, c.few, length-without f hs);
      unlocked = refl;
    },
    refl,
    ground arith,
  )

  -- fileclose() of the last handle frees the entry, and hands what the file stood on to pipeclose(),
  -- or to iput() between begin_op() and end_op(), once.
  pub fileclose_last-Counts :
      (f : ℕ)
      → uses f hs ≡ 1
      → (u : Ftable) × (fileclose f t ≡ ok tt u)
        × Counts (without f hs) u
        × (u.calls ≡ closing (t.file f).type (t.file f) ++ t.calls)
        × ((u.file f).type ≡ fd_none)
  fileclose_last-Counts f one = (
    record (freed f t) { calls = closing (t.file f).type (t.file f) ++ t.calls },
    fileclose-last f t c.unlocked (c.count f ∙ one)
        ∙ close_last-eq (t.file f).type (t.file f) _ (freed f t),
    record {
      count = λ g. ground (
        arith,
        c.count f,
        c.count g,
        uses-length f hs,
        c.few,
        uses-without f hs,
        uses-without_ne f g hs,
      );
      few = omega (arith, c.few, length-without f hs);
      unlocked = refl;
    },
    refl,
    ground arith,
  )

  -- filealloc() either makes the first handle on an entry of the table that no handle was on, or
  -- finds a handle on each of the NFILE entries and changes nothing.
  pub filealloc-Counts :
      length hs + 1 < 2 ^ 31
      → ((f : ℕ) × (u : Ftable) × (filealloc t ≡ ok (some f) u)
          × (f < nfile)
          × (uses f hs ≡ 0)
          × Counts (f ∷ hs) u)
        ⊎ ((filealloc t ≡ ok none (record t { locked = false }))
            × ((f : ℕ) → f < nfile → 0 < uses f hs))
  unfolding filealloc uses Found
  filealloc-Counts small = elim (Option-cases (find_free t.file nfile 0)) [
    | inl none_free ↦
        let found = subst (Found t.file nfile 0) none_free (find_free-Found t.file nfile 0) in
        inr (
          ground (arith, c.unlocked, none_free),
          λ f lt. omega (arith, found f (omega arith) (omega arith), c.count f),
        )
    | inr (f, e) ↦
        let found = subst (Found t.file nfile 0) e (find_free-Found t.file nfile 0) in
        inl (
          f,
          record (set_ref f 1 t) { locked = false },
          ground (arith, c.unlocked, e),
          omega (arith, found.1),
          omega (arith, found.2, c.count f),
          record {
            count = λ g. ground (arith, c.count f, c.count g, found.2);
            few = omega arith;
            unlocked = refl;
          },
        )
  ]
