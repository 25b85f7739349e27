-- ===== src/Descr/Loops.antt =====
-- The loops of fork() and exit() in xv6-public/proc.c over the descriptors.
use os_11740_assignment.Base.{
  ℕ, zero, suc, ◌+◌, ◌≤◌, ◌<◌, ◌≡◌, ◌≢◌, refl, sym, ap, ◌∙◌, arith, Bool-cases, inl, inr, ◌⊎◌, ◌==◌,
  ==_iff, Option, none, some, update, update_self, update_ne,
}
use os_11740_assignment.Base.Run.{ok, and_then}
use os_11740_assignment.File.Refs.{filedup-Counts}
use os_11740_assignment.Proc.{nproc}
use os_11740_assignment.Descr.{
  Descriptors, nofile, fd_slots, fd_slot, with_ofile, set_ofile, copy_file, copy_files, close_file,
  close_files,
}
use os_11740_assignment.Descr.Slots.{opened, length-opened, fileclose-Counts}
use os_11740_assignment.Descr.Owned.{IsOwned, uses_held, opened_more, opened_less}

-- Slot `i` is set to `r`, and the counts are right.
abbrev Sets : ℕ → Option ℕ → Descriptors → Descriptors → Type 0
Sets i r s t = IsOwned t × ((j : ℕ) → t.ofile j ≡ update s.ofile i r j)

update_same : (o : ℕ → Option ℕ) (i : ℕ) (r : Option ℕ) → o i ≡ r → (j : ℕ) → o j ≡ update o i r j
update_same o i r e j = elim (Bool-cases (j == i)) [
  | inl same ↦
      ap o ((==_iff j i).0 same)
      ∙ (e ∙ (sym (update_self o i r) ∙ ap (update o i r) (sym ((==_iff j i).0 same))))
  | inr other ↦ sym (update_ne o i r j (λ q. ground (arith, other, q)))
]

close_file-Sets :
    (i : ℕ) (s : Descriptors) (r : Option ℕ)
    → i < fd_slots
    → s.ofile i ≡ r
    → IsOwned s
    → (t : Descriptors) × (close_file i r s ≡ ok tt t) × Sets i none s t
unfolding close_file
close_file-Sets i s none lt e c = (s, refl, (c, update_same s.ofile i none e))
close_file-Sets i s (some f) lt e c =
    let (u, run, counts) =
      fileclose-Counts f (opened s.ofile fd_slots) s.table c (uses_held s.ofile i f lt e) in
    (
      record { ofile = update s.ofile i none; table = u },
      ap (λ r. and_then (with_ofile s.ofile r) (λ _. set_ofile i none)) run,
      (opened_less s.ofile i f lt u e counts, λ j. refl),
    )

copy_file-Sets :
    (i from : ℕ) (s : Descriptors) (r : Option ℕ)
    → i < fd_slots
    → from < fd_slots
    → s.ofile from ≡ r
    → s.ofile i ≡ none
    → IsOwned s
    → (t : Descriptors) × (copy_file i r s ≡ ok tt t) × Sets i r s t
unfolding copy_file
copy_file-Sets i from s none lt there e free c = (s, refl, (c, update_same s.ofile i none free))
copy_file-Sets i from s (some f) lt there e free c =
    let (u, run, counts, _) =
      filedup-Counts c f (uses_held s.ofile from f there e)
        (omega (arith, length-opened s.ofile fd_slots)) in
    (
      record { ofile = update s.ofile i (some f); table = u },
      ap (λ r. and_then (with_ofile s.ofile r) (λ _. set_ofile i (some f))) run,
      (opened_more s.ofile i f lt u free counts, λ j. refl),
    )

-- Every slot but those of process `p` from descriptor `fd` on is as before.
abbrev pub SameBut : ℕ → ℕ → Descriptors → Descriptors → Type 0
SameBut p fd s t = (j : ℕ) → (j < fd_slot p fd) ⊎ (fd_slot p nofile ≤ j) → t.ofile j ≡ s.ofile j

outside :
    (p fd j : ℕ)
    → (j < fd_slot p fd) ⊎ (fd_slot p nofile ≤ j)
    → (j < fd_slot p (fd + 1)) ⊎ (fd_slot p nofile ≤ j)
outside p fd j (inl lt) = inl (omega arith)
outside p fd j (inr le) = inr le

not_here :
    (p fd j : ℕ) → fd < nofile → (j < fd_slot p fd) ⊎ (fd_slot p nofile ≤ j) → j ≢ fd_slot p fd
not_here p fd j small (inl lt) e = absurd (omega arith)
not_here p fd j small (inr le) e = absurd (omega arith)

-- Descriptors of two processes are in different slots.
apart : (p q n m : ℕ) → p ≢ q → n < nofile → m < nofile → fd_slot p n ≢ fd_slot q m
apart p q n m other lt small e = absurd (other (omega arith))

-- The loop of exit() closes the descriptors of the process from `fd` on, leaves every other one alone, and
-- every open file counts the descriptors that stand for it, as before; it never panics. The conditions are
-- that it was so before the loop, and that the process is one of the table.
pub close_files_end :
    (p k fd : ℕ) (s : Descriptors)
    → p < nproc
    → fd + k ≡ nofile
    → IsOwned s
    → (t : Descriptors) × (close_files p k fd s ≡ ok tt t)
      × IsOwned t
      × ((n : ℕ) → fd ≤ n → n < nofile → t.ofile (fd_slot p n) ≡ none)
      × SameBut p fd s t
unfolding close_files
close_files_end p zero fd s proc end c = (s, refl, c, λ n le lt. absurd (omega arith), λ j o. refl)
close_files_end p (suc k) fd s proc end c =
    let (t, run, (owned, sets)) =
      close_file-Sets (fd_slot p fd) s (s.ofile (fd_slot p fd)) (omega arith) refl c in
    let (u, rest, all, closed, same) = close_files_end p k (fd + 1) t proc (omega arith) owned in
    (
      u,
      ap (λ r. and_then r (λ _. close_files p k (fd + 1))) run ∙ rest,
      all,
      λ n le lt. elim (Bool-cases (n == fd)) [
        | inl e ↦
            let here : n ≡ fd = (==_iff n fd).0 e in
            ap (λ m. u.ofile (fd_slot p m)) here
            ∙ (same (fd_slot p fd) (inl (omega arith))
                ∙ (sets (fd_slot p fd) ∙ update_self s.ofile (fd_slot p fd) none))
        | inr e ↦ closed n (ground (arith, e)) lt
      ],
      λ j o.
          same j (outside p fd j o)
          ∙ (sets j ∙ update_ne s.ofile (fd_slot p fd) none j (not_here p fd j (omega arith) o)),
    )

-- The loop of fork() makes the descriptors of the new process from `fd` on stand for the files of the old
-- one's, leaves every other one alone, and every open file counts the descriptors that stand for it, as
-- before; it never panics. The conditions are that it was so before the loop, that the two processes are
-- different ones of the table, and that the descriptors of the new one were free.
pub copy_files_end :
    (p q k fd : ℕ) (s : Descriptors)
    → p < nproc
    → q < nproc
    → p ≢ q
    → fd + k ≡ nofile
    → ((n : ℕ) → fd ≤ n → n < nofile → s.ofile (fd_slot q n) ≡ none)
    → IsOwned s
    → (t : Descriptors) × (copy_files p q k fd s ≡ ok tt t)
      × IsOwned t
      × ((n : ℕ) → fd ≤ n → n < nofile → t.ofile (fd_slot q n) ≡ s.ofile (fd_slot p n))
      × SameBut q fd s t
unfolding copy_files
copy_files_end p q zero fd s old new other end free c =
    (s, refl, c, λ n le lt. absurd (omega arith), λ j o. refl)
copy_files_end p q (suc k) fd s old new other end free c =
    let here : ℕ = fd_slot q fd in
    let (t, run, (owned, sets)) =
      copy_file-Sets here (fd_slot p fd) s (s.ofile (fd_slot p fd)) (omega arith) (omega arith) refl
        (free fd (omega arith) (omega arith)) c in
    let kept : (j : ℕ) → j ≢ here → t.ofile j ≡ s.ofile j =
      λ j ne. sets j ∙ update_ne s.ofile here (s.ofile (fd_slot p fd)) j ne in
    let (u, rest, all, copied, same) =
      copy_files_end p q k (fd + 1) t old new other (omega arith)
        (λ n le lt. kept (fd_slot q n) (λ e. absurd (omega (arith, e))) ∙ free n (omega arith) lt)
        owned in
    (
      u,
      ap (λ r. and_then r (λ _. copy_files p q k (fd + 1))) run ∙ rest,
      all,
      λ n le lt. elim (Bool-cases (n == fd)) [
        | inl e ↦
            let now : n ≡ fd = (==_iff n fd).0 e in
            ap (λ m. u.ofile (fd_slot q m)) now
            ∙ (same here (inl (omega arith))
                ∙ (sets here
                    ∙ (update_self s.ofile here (s.ofile (fd_slot p fd))
                        ∙ ap (λ m. s.ofile (fd_slot p m)) (sym now))))
        | inr e ↦
            copied n (ground (arith, e)) lt
            ∙ kept (fd_slot p n) (apart p q n fd other lt (omega arith))
      ],
      λ j o. same j (outside q fd j o) ∙ kept j (not_here q fd j (omega arith) o),
    )
