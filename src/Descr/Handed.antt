-- ===== src/Descr/Handed.antt =====
-- The handles that pipe of xv6-public/sysfile.c has in its hands, from pipealloc() on until descriptors
-- stand for them.
use os_11740_assignment.Base.{
  ℕ, ◌+◌, ◌^◌, ◌<◌, ◌≡◌, refl, sym, subst, arith, Bool, true, false, inl, inr, ◌⊎◌, Option, none,
  some, List, ◌∷◌, ◌++◌, length, length-append, update_self, update_ne, ◌≢◌,
}
use os_11740_assignment.Base.Run.{Run, Cmd, ok, and_then}
use os_11740_assignment.File.{nfile, File, fd_pipe, Ftable, filealloc, fileclose}
use os_11740_assignment.File.Handles.{uses, without, Counts}
use os_11740_assignment.File.Refs.{filealloc-Counts}
use os_11740_assignment.Descr.{fd_slots, with_ofile}
use os_11740_assignment.Descr.Slots.{opened, length-opened, Counts-change, fileclose-Counts}
use os_11740_assignment.Descr.Pipes.{as_end, set_ends, second_end, first_end, pipealloc}

-- The run returns, and `Q` holds of the result and the state.
pub data Done {S A : Type 0} (Q : A → S → Type 0) : Run S A → Type 0 where
  done : {a : A} {s : S} → Q a s → Done Q (ok a s)

pub Done-bind :
    {S A B : Type 0} {P : A → S → Type 0} {Q : B → S → Type 0} {r : Run S A} {k : A → Cmd S B}
    → Done P r
    → ((a : A) (s : S) → P a s → Done Q (k a s))
    → Done Q (and_then r k)
Done-bind (done h) f = f _ _ h

pub Done-weaken :
    {S A : Type 0} {P Q : A → S → Type 0} {r : Run S A}
    → Done P r
    → ((a : A) (s : S) → P a s → Q a s)
    → Done Q r
Done-weaken (done h) f = done (f _ _ h)

pub Done-with_ofile :
    {A : Type 0} {P : A → Ftable → Type 0} {r : Run Ftable A} (o : ℕ → Option ℕ)
    → Done P r
    → Done (λ a u. (u.ofile ≡ o) × P a u.table) (with_ofile o r)
Done-with_ofile o (done h) = done (refl, h)

-- A file is an end of the pipe at page `m`.
abbrev pub IsEnd : Bool → Bool → ℕ → File → Type 0
IsEnd readable writable m f =
    (f.type ≡ fd_pipe) × (f.readable ≡ readable) × (f.writable ≡ writable) × (f.pipe ≡ m)

-- `rf` is the end of the pipe to read from, and `wf` the one to write to.
abbrev pub AreEnds : Option ℕ → ℕ → ℕ → Ftable → Type 0
AreEnds page rf wf t =
    (m : ℕ) × (page ≡ some m) × IsEnd true false m (t.file rf) × IsEnd false true m (t.file wf)

as_end-IsEnd :
    (f : ℕ) (readable writable : Bool) (m : ℕ) (t : Ftable)
    → IsEnd readable writable m ((as_end f readable writable m t).file f)
as_end-IsEnd f readable writable m t =
    subst (IsEnd readable writable m)
      (sym (
        update_self t.file f (record (t.file f) {
          type = fd_pipe;
          readable = readable;
          writable = writable;
          pipe = m;
        })))
      (refl, refl, refl, refl)

-- What is done to one file is not seen at another one.
as_end-IsEnd_other :
    (f g : ℕ) (readable writable readable' writable' : Bool) (m : ℕ) (t : Ftable)
    → f ≢ g
    → IsEnd readable writable m (t.file f)
    → IsEnd readable writable m ((as_end g readable' writable' m t).file f)
as_end-IsEnd_other f g readable writable readable' writable' m t ne h =
    subst (IsEnd readable writable m)
      (sym (
        update_ne t.file g
          (record (t.file g) {
            type = fd_pipe;
            readable = readable';
            writable = writable';
            pipe = m;
          })
          f ne))
      h

-- All files but one at most have a handle.
abbrev pub FewFiles : List ℕ → Type 0
FewFiles hs = (g : ℕ) × ((f : ℕ) → f < nfile → f ≢ g → 0 < uses f hs)

module _ (o : ℕ → Option ℕ) where
  -- The entries count the descriptors and the handles `es` that the call has in its hands.
  abbrev pub Owns : List ℕ → Ftable → Type 0
  Owns es t = Counts (es ++ opened o fd_slots) t

  pub few_owned : (es : List ℕ) → length es < 8 → length (es ++ opened o fd_slots) + 1 < 2 ^ 31
  few_owned es lt = omega (arith, length-append es (opened o fd_slots), length-opened o fd_slots)

  -- filealloc() gives a handle on a file that no other handle is on, or none if each file has one.
  abbrev Gained : List ℕ → Option ℕ → Ftable → Type 0
  Gained es none t = Owns es t × ((f : ℕ) → f < nfile → 0 < uses f (es ++ opened o fd_slots))
  Gained es (some f) t = Owns (f ∷ es) t × (uses f (es ++ opened o fd_slots) ≡ 0)

  filealloc-Gained :
      (es : List ℕ) (t : Ftable) → length es < 8 → Owns es t → Done (Gained es) (filealloc t)
  filealloc-Gained es t lt c = elim (filealloc-Counts c (few_owned es lt)) [
    | inl (f, u, run, _, new, counts) ↦ subst (Done (Gained es)) (sym run) (done (counts, new))
    | inr (run, all) ↦
        subst (Done (Gained es)) (sym run)
          (done (record { count = c.count; few = c.few; unlocked = refl }, all))
  ]

  pub fileclose-Owns :
      (f : ℕ) (es : List ℕ) (t : Ftable) → Owns (f ∷ es) t → Done (λ _ u. Owns es u) (fileclose f t)
  unfolding uses without
  fileclose-Owns f es t c =
      let (u, run, counts) =
        fileclose-Counts f (f ∷ (es ++ opened o fd_slots)) t c (ground arith) in
      subst (Done (λ _ u. Owns es u)) (sym run) (
        done (
          Counts-change _ (es ++ opened o fd_slots) u counts (λ g. ground arith)
            (omega (arith, c.few))))

  pub Owns-swap : (f g : ℕ) (es : List ℕ) (t : Ftable) → Owns (f ∷ g ∷ es) t → Owns (g ∷ f ∷ es) t
  unfolding uses
  Owns-swap f g es t c =
      Counts-change (f ∷ g ∷ (es ++ opened o fd_slots)) (g ∷ f ∷ (es ++ opened o fd_slots)) t c
        (λ h. omega arith) c.few

  as_end-Owns :
      (f : ℕ) (readable writable : Bool) (m : ℕ) (es : List ℕ) (t : Ftable)
      → Owns es t
      → Owns es (as_end f readable writable m t)
  as_end-Owns f readable writable m es t c = record {
    count = λ g. ground (arith, c.count f, c.count g);
    few = c.few;
    unlocked = c.unlocked;
  }

  -- pipealloc() gives a handle on each end, or none if it got no page or at most one file is free.
  abbrev pub Piped : Option ℕ → List ℕ → Option (ℕ × ℕ) → Ftable → Type 0
  Piped page es none t = Owns es t × ((page ≡ none) ⊎ FewFiles (es ++ opened o fd_slots))
  Piped page es (some (f0, f1)) t = Owns (f1 ∷ f0 ∷ es) t × AreEnds page f0 f1 t

  set_ends-Piped :
      (f0 f1 : ℕ) (page : Option ℕ) (es : List ℕ) (t : Ftable)
      → f0 ≢ f1
      → Owns (f1 ∷ f0 ∷ es) t
      → Done (Piped page es) (set_ends f0 f1 page t)
  unfolding set_ends
  set_ends-Piped f0 f1 none es t ne c =
      Done-bind (fileclose-Owns f0 (f1 ∷ es) t (Owns-swap f1 f0 es t c))
        (λ _ u d. Done-bind (fileclose-Owns f1 es u d) (λ _ v e. done (e, inl refl)))
  set_ends-Piped f0 f1 (some m) es t ne c = done (
    as_end-Owns f1 false true m (f1 ∷ f0 ∷ es) (as_end f0 true false m t)
        (as_end-Owns f0 true false m (f1 ∷ f0 ∷ es) t c),
    (
      m,
      refl,
      as_end-IsEnd_other f0 f1 true false false true m (as_end f0 true false m t) ne
          (as_end-IsEnd f0 true false m t),
      as_end-IsEnd f1 false true m (as_end f0 true false m t),
    ),
  )

  second_end-Piped :
      (page : Option ℕ) (f0 : ℕ) (b : Option ℕ) (es : List ℕ) (t : Ftable)
      → Gained (f0 ∷ es) b t
      → Done (Piped page es) (second_end page f0 b t)
  unfolding second_end uses
  second_end-Piped page f0 none es t (c, all) =
      Done-bind (fileclose-Owns f0 es t c)
        (λ _ u d. done (d, inr (f0, λ f lt ne. ground (arith, all f lt))))
  second_end-Piped page f0 (some f1) es t (c, new) =
      set_ends-Piped f0 f1 page es t (λ e. ground (arith, new, e)) c

  first_end-Piped :
      (page a : Option ℕ) (es : List ℕ) (t : Ftable)
      → length es < 7
      → Gained es a t
      → Done (Piped page es) (first_end page a t)
  unfolding first_end
  first_end-Piped page none es t lt (c, all) = done (c, inr (0, λ f small ne. all f small))
  first_end-Piped page (some f0) es t lt (c, _) =
      Done-bind (filealloc-Gained (f0 ∷ es) t (omega arith) c)
        (λ b u d. second_end-Piped page f0 b es u d)

  pub pipealloc-Piped :
      (page : Option ℕ) (es : List ℕ) (t : Ftable)
      → length es < 7
      → Owns es t
      → Done (Piped page es) (pipealloc page t)
  unfolding pipealloc
  pipealloc-Piped page es t lt c =
      Done-bind (filealloc-Gained es t (omega arith) c) (λ a u d. first_end-Piped page a es u lt d)
