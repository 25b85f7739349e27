-- ===== src/Log/Recovery.antt =====
-- recover_from_log(): what it makes of any disk that a crash may leave, also if it is cut off itself.
use os_11740_assignment.Base.{
  ℕ, zero, suc, ◌+◌, ◌^◌, ◌≤◌, ◌<◌, ◌≡◌, refl, ◌≢◌, ◌∙◌, ap, sym, subst, arith, none, update,
  update_ne, update_self, List, [], ◌∷◌, All, length, lt→leb_false, le→ltb_false,
}
use os_11740_assignment.Log.{
  Block, Disk, Log, logsize, words, header, Result, done, ◌>>◌, install_loop, install_trans,
  read_head, write_head, clear_lh, recover_from_log,
}
use os_11740_assignment.Log.Ends
use os_11740_assignment.Log.Ends.{Ends, through, failed, written, bwrite_then, bwrite_last}
use os_11740_assignment.Log.Replay.{IsHome, replay, find, replay-update, entries, logical, IsLogged}

-- The log has the `size` blocks from `start` on.
module _ (start size : ℕ) where
  find-cons :
      (b : ℕ) (bs : List ℕ) (tail x : ℕ)
      → find start bs (tail + 1) x ≢ none
      → find start (b ∷ bs) tail x ≢ none
  find-cons b bs tail x h = ground arith

  find-All :
      (b : ℕ) (bs cs : List ℕ) (tail : ℕ)
      → All (λ c. find start bs (tail + 1) c ≢ none) cs
      → All (λ c. find start (b ∷ bs) tail c ≢ none) cs
  find-All b bs [] tail h = tt
  find-All b bs (c ∷ cs) tail h = (find-cons b bs tail c h.0, find-All b bs cs tail h.1)

  -- Every block of a list has an entry in it.
  pub find_self : (bs : List ℕ) (tail : ℕ) → All (λ b. find start bs tail b ≢ none) bs
  find_self [] tail = tt
  find_self (b ∷ bs) tail = (ground arith, find-All b bs bs tail (find_self bs (tail + 1)))

  -- `d` has the header of `e` and stands for the same blocks.
  pub record Kept (lh : List ℕ) (e d : Disk) : Type 0 where
    pub head : d start ≡ e start
    pub same : (x : ℕ) → replay start lh 0 d x ≡ replay start lh 0 e x

  -- The log's blocks read as they are on the disk.
  abbrev pub Synced : Log → Type 0
  Synced s = (j : ℕ) → j + 1 < size → s.cache (start + j + 1) ≡ s.disk (start + j + 1)

  module _ (lh : List ℕ) (e : Disk) (fits : length lh < size)
      (homes : All (IsHome start size) lh) where
    Kept-update :
        {d : Disk} (b : ℕ) (block : Block)
        → IsHome start size b
        → find start lh 0 b ≢ none
        → Kept lh e d
        → Kept lh e (update d b block)
    Kept-update {d} b block h logged k = record {
      head = update_ne d b block start (omega arith) ∙ k.head;
      same = λ x. replay-update start size lh d b block x homes fits h logged ∙ k.same x;
    }

    pub record Installing (bs : List ℕ) (tail : ℕ) (s u : Log) : Type 0 where
      pub kept : Kept lh e u.disk
      pub synced : Synced u
      pub all : u.disk ≡ replay start bs tail s.disk
      pub lives : u.life + length bs ≡ s.life
      pub lh_kept : u.lh ≡ s.lh

    pub install_loop-Ends :
        (bs : List ℕ) (tail : ℕ) (s : Log)
        → tail + length bs < size
        → All (λ b. find start lh 0 b ≢ none) bs
        → All (IsHome start size) bs
        → Kept lh e s.disk
        → Synced s
        → Ends
            (λ _ u. Installing bs tail s u)
            (λ d. Kept lh e d × (s.life < length bs))
            (install_loop start bs tail s)
    unfolding install_loop
    install_loop-Ends [] tail s f l h k y =
        through (record { kept = k; synced = y; all = refl; lives = omega arith; lh_kept = refl })
    install_loop-Ends (b ∷ bs) tail s f l h k y =
        let block = s.cache (start + tail + 1) in
        let u = written b block s in
        bwrite_then b block s (install_loop start bs (tail + 1)) (λ z. (k, omega arith))
          λ z.
            Ends.mono
              (install_loop-Ends bs (tail + 1) u (omega arith) l.1 h.1
                (Kept-update b block h.0 l.0 k) (λ j hj. ground (arith, y j hj)))
              (λ _ v i. record {
                kept = i.kept;
                synced = i.synced;
                all =
                    i.all
                    ∙ ap (λ x. replay start bs (tail + 1) (update s.disk b x))
                        (y tail (omega arith));
                lives = omega (arith, i.lives);
                lh_kept = i.lh_kept;
              })
              (λ d c. (c.0, omega (arith, c.1)))

  -- A disk with the same header and the same replay has the same home blocks after recovery.
  pub Kept-logical :
      {lh : List ℕ} {e d : Disk}
      → entries (e start) ≡ lh
      → Kept lh e d
      → (x : ℕ) → logical start d x ≡ logical start e x
  Kept-logical {e} {d} h k x =
      ap (λ l. replay start l 0 d x) (ap entries k.head ∙ h)
      ∙ k.same x
      ∙ sym (ap (λ l. replay start l 0 e x) h)

  -- The entries of a header in order are what recovery reads.
  pub entries-IsLogged :
      {d : Disk}
      → size ≤ logsize + 1
      → IsLogged start size d
      → entries (d start) ≡ words (d start) 1 (d start 0)
  entries-IsLogged {d} small l = rw (lt→leb_false (2 ^ 31) (d start 0) (omega (arith, l.few)))

  -- The installed blocks, and an empty log.
  abbrev pub Finished : Log → Log → Type 0
  Finished s u =
      ((x : ℕ) → IsHome start size x → u.disk x ≡ logical start s.disk x)
      × (u.disk start 0 ≡ 0)
      × (u.lh ≡ [])

  -- A disk that still stands for what it stood for, under the same header.
  abbrev pub Unfinished : Log → Disk → Type 0
  Unfinished s d =
      ((x : ℕ) → logical start d x ≡ logical start s.disk x)
      × (d start ≡ s.disk start)
      × (s.life ≤ length s.lh)

  abbrev pub finish : Log → Result (Unit {0})
  finish = install_trans start >> (clear_lh start >> write_head start)

  -- Installing the entries that the header on the disk has, and clearing it.
  pub finish-Ends :
      (s : Log)
      → entries (s.disk start) ≡ s.lh
      → length s.lh < size
      → All (IsHome start size) s.lh
      → Synced s
      → Ends (λ _ u. Finished s u) (Unfinished s) (finish s)
  unfolding install_trans write_head
  finish-Ends s h fits homes y =
      Ends.bind
        (Ends.mono
          (install_loop-Ends s.lh s.disk fits homes s.lh 0 s (omega arith) (find_self s.lh 0) homes
            (record { head = refl; same = λ x. refl }) y)
          (λ _ t i. i) (λ d c. (Kept-logical h c.0, c.0.head, omega (arith, c.1))))
        λ _ t i.
          bwrite_last start (header [] (t.cache start)) (record t { lh = [] })
            (λ z. (Kept-logical h i.kept, i.kept.head, omega (arith, i.lives)))
            (λ z. (
              λ x hx.
                  update_ne t.disk start (header [] (t.cache start)) x (omega arith)
                  ∙ ap (λ d. d x) i.all
                  ∙ sym (ap (λ l. replay start l 0 s.disk x) h),
              ap (λ b. b 0) (update_self t.disk start (header [] (t.cache start))),
              refl,
            ))

  length-words : (block : Block) (i n : ℕ) → length (words block i n) ≡ n
  length-words block i zero = refl
  length-words block i (suc n) = ap suc (length-words block (i + 1) n)

  read_head-eq :
      (s : Log)
      → size ≤ logsize + 1
      → IsLogged start size s.disk
      → s.cache ≡ s.disk
      → read_head start s ≡ done tt (record s { lh = words (s.disk start) 1 (s.disk start 0) })
  unfolding read_head
  read_head-eq s small l boot =
      let few = l.few in
      let n : s.cache start 0 ≡ s.disk start 0 = ap (λ (d : Disk). d start 0) boot in
      rw
        (
          lt→leb_false (2 ^ 31) (s.cache start 0) (omega arith),
          le→ltb_false logsize (s.cache start 0) (omega arith),
        )
        (ap (λ (d : Disk). done tt (record s { lh = words (d start) 1 (d start 0) })) boot)

  -- At boot the cache holds nothing but what the disk has. Recovery of a disk that a crash may have
  -- left either gets through: then the home blocks are those that the disk stood for, and the log is
  -- empty; or the power fails again, which a life of a write for each entry and one more excludes:
  -- then the disk stands for the same home blocks as before, and recovery can be run on it. The
  -- condition on the size is that the log has at most LOGSIZE blocks behind its header.
  pub recover_from_log-Ends :
      (s : Log)
      → size ≤ logsize + 1
      → IsLogged start size s.disk
      → s.cache ≡ s.disk
      → Ends
          (λ _ u.
            ((x : ℕ) → IsHome start size x → u.disk x ≡ logical start s.disk x)
            × (u.disk start 0 ≡ 0)
            × (u.lh ≡ []))
          (λ d.
            ((x : ℕ) → logical start d x ≡ logical start s.disk x)
            × IsLogged start size d
            × (s.life ≤ s.disk start 0))
          (recover_from_log start s)
  unfolding recover_from_log
  recover_from_log-Ends s small l boot =
      let lh = words (s.disk start) 1 (s.disk start 0) in
      let t = record s { lh = lh } in
      rw (read_head-eq s small l boot) (
        Ends.mono
          (finish-Ends t (entries-IsLogged small l)
            (omega (arith, l.few, length-words (s.disk start) 1 (s.disk start 0))) l.home
            (λ j hj. ap (λ (d : Disk). d (start + j + 1)) boot))
          (λ _ u f. f)
          (λ d c. (
            c.0,
            record {
              few = subst (λ (b : Block). b 0 < size) (sym c.1) l.few;
              home =
                  subst (λ (b : Block). All (IsHome start size) (words b 1 (b 0))) (sym c.1) l.home;
            },
            omega (arith, c.2, length-words (s.disk start) 1 (s.disk start 0)),
          )))
