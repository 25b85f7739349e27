-- ===== src/Descr/Piped.antt =====
-- The call pipe of xv6-public/sysfile.c leaves no file without a descriptor.
use os_11740_assignment.Base.{
  ℕ, ◌<◌, ◌≡◌, ◌≢◌, refl, sym, ap, subst, ◌∙◌, arith, Bool-cases, ==_iff, update_self, update_ne,
  inl, inr, ◌⊎◌, ◌==◌, Option, none, some, [], ◌∷◌, update,
}
use os_11740_assignment.Base.Run.{◌>>◌}
use os_11740_assignment.File.Handles.{Counts}
use os_11740_assignment.File.{nfile}
use os_11740_assignment.Proc.{nproc}
use os_11740_assignment.Descr.{Descriptors, nofile, fd_slots, fd_slot, set_ofile}
use os_11740_assignment.Descr.Slots.{opened}
use os_11740_assignment.Descr.Owned.{IsOwned}
use os_11740_assignment.Descr.Pipes.{drop_pipe, second_fd, first_fd, pipe_fds, sys_pipe}
use os_11740_assignment.Descr.Handed.{
  AreEnds, FewFiles, Done, done, Done-bind, Done-weaken, Done-with_ofile, Owns, Owns-swap,
  fileclose-Owns, Piped, pipealloc-Piped,
}
use os_11740_assignment.Descr.Moved.{moved_out, Placed, fdalloc-Placed}

-- All descriptors of the process but one at most stand for a file.
abbrev pub FewDescriptors : ℕ → Descriptors → Type 0
FewDescriptors p s = (d : ℕ) × ((n : ℕ) → n < nofile → n ≢ d → s.ofile (fd_slot p n) ≢ none)

-- All files but one at most are in use.
abbrev pub FewLeft : Descriptors → Type 0
FewLeft s = (g : ℕ) × ((f : ℕ) → f < nfile → f ≢ g → 0 < (s.table.file f).ref)

-- Why pipe may fail: there is no page for it, or not the two files or descriptors that it needs.
abbrev pub IsShort : ℕ → Option ℕ → Descriptors → Type 0
IsShort p page s = (page ≡ none) ⊎ (FewLeft s ⊎ FewDescriptors p s)

-- What pipe does: both descriptors were free, are different, and stand now for the end of a new pipe to
-- read from and for the one to write to; or, when something that it needs is
-- short, it fails, and every descriptor stands for what it stood for.
abbrev pub Pipes : ℕ → Option ℕ → Descriptors → Option (ℕ × ℕ) → Descriptors → Type 0
Pipes p page s none u = IsOwned u × IsShort p page s × ((j : ℕ) → u.ofile j ≡ s.ofile j)
Pipes p page s (some (a, b)) u =
    IsOwned u
    × (a < nofile)
    × (b < nofile)
    × (rf wf : ℕ) × AreEnds page rf wf u.table
    × (s.ofile (fd_slot p a) ≡ none)
    × (update s.ofile (fd_slot p a) (some rf) (fd_slot p b) ≡ none)
    × (u.ofile ≡ update (update s.ofile (fd_slot p a) (some rf)) (fd_slot p b) (some wf))

drop_pipe-Owns :
    (rf wf : ℕ) (s : Descriptors)
    → Owns s.ofile (wf ∷ rf ∷ []) s.table
    → Done (λ r u. (r ≡ none) × IsOwned u × (u.ofile ≡ s.ofile)) (drop_pipe rf wf s)
unfolding drop_pipe
drop_pipe-Owns rf wf s c =
    Done-bind
      (Done-with_ofile s.ofile
        (fileclose-Owns s.ofile rf (wf ∷ []) s.table (Owns-swap s.ofile wf rf [] s.table c)))
      (λ _ u (e, d).
        Done-bind
          (Done-with_ofile u.ofile (
            fileclose-Owns u.ofile wf [] u.table (subst (λ o. Owns o (wf ∷ []) u.table) (sym e) d)))
          (λ _ v (f, g).
            done (refl, subst (λ o. Counts (opened o fd_slots) v.table) (sym f) g, f ∙ e)))

update_back :
    (o : ℕ → Option ℕ) (i f : ℕ)
    → o i ≡ none
    → (j : ℕ) → update (update o i (some f)) i none j ≡ o j
update_back o i f e j = elim (Bool-cases (j == i)) [
  | inl same ↦
      let here : j ≡ i = (==_iff j i).0 same in
      ap (update (update o i (some f)) i none) here
      ∙ (update_self (update o i (some f)) i none ∙ (sym e ∙ ap o (sym here)))
  | inr other ↦
      let ne : j ≢ i = λ q. ground (arith, other, q) in
      update_ne (update o i (some f)) i none j ne ∙ update_ne o i (some f) j ne
]

module _ (p : ℕ) (proc : p < nproc) (page : Option ℕ) (s : Descriptors) where
  -- The pipe is given up again.
  dropped-Pipes :
      (rf wf : ℕ) (u : Descriptors)
      → Owns u.ofile (wf ∷ rf ∷ []) u.table
      → IsShort p page s
      → ((j : ℕ) → u.ofile j ≡ s.ofile j)
      → Done (Pipes p page s) (drop_pipe rf wf u)
  dropped-Pipes rf wf u c short same =
      Done-weaken (drop_pipe-Owns rf wf u c) (λ r v (none_left, owned, kept).
        subst (λ r. Pipes p page s r v) (sym none_left)
          (owned, short, λ j. ap (λ o. o j) kept ∙ same j))

  second_fd-Pipes :
      (rf wf a : ℕ) (b : Option ℕ) (t u : Descriptors)
      → a < nofile
      → s.ofile (fd_slot p a) ≡ none
      → t.ofile ≡ update s.ofile (fd_slot p a) (some rf)
      → AreEnds page rf wf t.table
      → Owns t.ofile (wf ∷ []) t.table
      → Placed p wf [] t b u
      → Done (Pipes p page s) (second_fd p rf wf a b u)
  unfolding second_fd
  second_fd-Pipes rf wf a none t u small free e ends c (same, taken) =
      let i = fd_slot p a in
      let held : t.ofile i ≡ some rf = ap (λ o. o i) e ∙ update_self s.ofile i (some rf) in
      let back =
        moved_out t.ofile i rf (wf ∷ []) t.table (omega (arith, small, proc)) held (omega arith)
          c in
      subst (λ v. Done (Pipes p page s) ((do set_ofile i none; drop_pipe rf wf) v)) (sym same)
        (dropped-Pipes rf wf (record t { ofile = update t.ofile i none })
          (Owns-swap (update t.ofile i none) rf wf [] t.table back)
          (inr (
            inr (
              a,
              λ n lt ne z. taken n (omega arith) lt (
                  ap (λ o. o (fd_slot p n)) e
                  ∙ (update_ne s.ofile i (some rf) (fd_slot p n) (omega (arith, ne)) ∙ z)),
            )))
          (λ j. ap (λ o. update o i none j) e ∙ update_back s.ofile i rf free j))
  second_fd-Pipes rf wf a (some b) t u small free e ends c (small2, free2, f, g, owned) = done (
    owned,
    small,
    small2,
    rf,
    wf,
    subst (AreEnds page rf wf) (sym g) ends,
    free,
    ap (λ o. o (fd_slot p b)) (sym e) ∙ free2,
    f ∙ ap (λ o. update o (fd_slot p b) (some wf)) e,
  )

  first_fd-Pipes :
      (rf wf : ℕ) (a : Option ℕ) (t u : Descriptors)
      → t.ofile ≡ s.ofile
      → AreEnds page rf wf t.table
      → Owns t.ofile (wf ∷ rf ∷ []) t.table
      → Placed p rf (wf ∷ []) t a u
      → Done (Pipes p page s) (first_fd p rf wf a u)
  unfolding first_fd
  first_fd-Pipes rf wf none t u e ends c (same, taken) =
      subst (λ v. Done (Pipes p page s) (drop_pipe rf wf v)) (sym same)
        (dropped-Pipes rf wf t c
          (inr
            (inr (0, λ n lt ne. subst (λ o. o (fd_slot p n) ≢ none) e (taken n (omega arith) lt))))
          (λ j. ap (λ o. o j) e))
  first_fd-Pipes rf wf (some a) t u e ends c (small, free, f, g, owned) =
      Done-bind (fdalloc-Placed p wf [] u proc owned (omega arith)) (λ b v placed.
        second_fd-Pipes rf wf a b u v small (ap (λ o. o (fd_slot p a)) (sym e) ∙ free)
          (f ∙ ap (λ o. update o (fd_slot p a) (some rf)) e)
          (subst (AreEnds page rf wf) (sym g) ends) owned placed)

  few_left : IsOwned s → FewFiles (opened s.ofile fd_slots) → FewLeft s
  few_left c (g, all) = (g, λ f lt ne. omega (arith, all f lt ne, c.count f))

  pipe_fds-Pipes :
      (made : Option (ℕ × ℕ)) (t : Descriptors)
      → IsOwned s
      → t.ofile ≡ s.ofile
      → Piped s.ofile page [] made t.table
      → Done (Pipes p page s) (pipe_fds p made t)
  unfolding pipe_fds
  pipe_fds-Pipes none t before e (c, short) = done (
    subst (λ o. Counts (opened o fd_slots) t.table) (sym e) c,
    elim short [ inl z ↦ inl z | inr few ↦ inr (inl (few_left before few)) ],
    λ j. ap (λ o. o j) e,
  )
  pipe_fds-Pipes (some (rf, wf)) t before e (c, ends) =
      let owned = subst (λ o. Owns o (wf ∷ rf ∷ []) t.table) (sym e) c in
      Done-bind
        (fdalloc-Placed p rf (wf ∷ []) t proc (Owns-swap t.ofile wf rf [] t.table owned)
          (omega arith))
        (λ a u placed. first_fd-Pipes rf wf a t u e ends owned placed)

  -- pipe always returns: it makes two free descriptors of the process stand for the two ends of the pipe
  -- at the page it got, the first for the end that is only read from and the second for the one that is
  -- only written to; or it fails, which it does only where it got no page, or all files but one at most are
  -- in use, or all descriptors of the process but one at most stand for a file, and then every descriptor
  -- stands for what it stood for. Every open file
  -- counts the descriptors that stand for it, as before, whichever step fails: no file is left without a
  -- descriptor. The conditions are that it was so before the call, and that the process is one of the table.
  pub sys_pipe-Pipes : IsOwned s → Done (Pipes p page s) (sys_pipe p page s)
  unfolding sys_pipe
  sys_pipe-Pipes c =
      Done-bind (Done-with_ofile s.ofile (pipealloc-Piped s.ofile page [] s.table (omega arith) c))
        (λ made t (e, piped). pipe_fds-Pipes made t c e piped)
