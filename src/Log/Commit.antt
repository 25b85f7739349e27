-- ===== src/Log/Commit.antt =====
-- commit(): a transaction reaches the disk whole or not at all.
use os_11740_assignment.Base.{
  ℕ, ◌+◌, ◌*◌, ◌^◌, ◌≤◌, ◌<◌, ◌≡◌, refl, ◌∙◌, ap, sym, subst, arith, false, Option, none, some, ltb,
  update_ne, update_self, List, [], ◌∷◌, All, length, lt→leb_false, ◌⊎◌, inl, inr, Bool-cases,
  Option-cases,
}
use os_11740_assignment.Log.{
  Block, Disk, Log, logsize, words, header, write_log_loop, write_log, write_head, commit_blocks,
  commit, recover_from_log,
}
use os_11740_assignment.Log.Ends
use os_11740_assignment.Log.Ends.{Ends, through, failed, written, bwrite_then, bwrite_last}
use os_11740_assignment.Log.Replay.{
  IsHome, replay, find, pick, replay-pick, entries, logical, IsLogged, words-header,
}
use os_11740_assignment.Log.Recovery.{Synced, finish, finish-Ends, recover_from_log-Ends}

eq-nil : (l : List ℕ) → length l ≡ 0 → l ≡ []
eq-nil [] e = refl
eq-nil (b ∷ bs) e = absurd (omega arith)

-- The log has the `size` blocks from `start` on.
module _ (start size : ℕ) where
  -- Not one of the log's blocks for the entries from `tail` to `tail + n`.
  abbrev Outside : ℕ → ℕ → ℕ → Type 0
  Outside tail n x = (x ≤ start + tail) ⊎ (start + tail + n < x)

  record Logging (bs : List ℕ) (tail : ℕ) (s u : Log) : Type 0 where
    slots :
        (j x : ℕ)
        → IsHome start size x
        → find start bs tail x ≡ some j
        → u.disk (start + j + 1) ≡ s.cache x
    rest : (x : ℕ) → Outside tail (length bs) x → u.disk x ≡ s.disk x
    synced : Synced start size u
    lives : u.life + length bs ≡ s.life
    lh_kept : u.lh ≡ s.lh

  abbrev Unlogged : List ℕ → ℕ → Log → Disk → Type 0
  Unlogged bs tail s d =
      ((x : ℕ) → Outside tail (length bs) x → d x ≡ s.disk x) × (s.life < length bs)

  -- The first entry's block holds its data, and the others are written behind it.
  Logging-cons :
      (b : ℕ) (bs : List ℕ) (tail : ℕ) (s u : Log)
      → tail + length (b ∷ bs) < size
      → Logging bs (tail + 1) (written (start + tail + 1) (s.cache b) s) u
      → 0 < s.life
      → Logging (b ∷ bs) tail s u
  Logging-cons b bs tail s u fits g alive = record {
    slots = λ j x h e. elim (Option-cases (find start bs (tail + 1) x)) [
      | inl out ↦ ground (arith, g.rest (start + tail + 1))
      | inr (k, at) ↦ ground (arith, g.slots j x)
    ];
    rest = λ x o.
        g.rest x (omega arith) ∙ update_ne s.disk (start + tail + 1) (s.cache b) x (omega arith);
    synced = g.synced;
    lives = omega (arith, g.lives);
    lh_kept = g.lh_kept;
  }

  write_log_loop-Ends :
      (bs : List ℕ) (tail : ℕ) (s : Log)
      → tail + length bs < size
      → Synced start size s
      → Ends (λ _ u. Logging bs tail s u) (Unlogged bs tail s) (write_log_loop start bs tail s)
  unfolding write_log_loop
  write_log_loop-Ends [] tail s f y = through (record {
    slots = λ j x h e. cc;
    rest = λ x o. refl;
    synced = y;
    lives = omega arith;
    lh_kept = refl;
  })
  write_log_loop-Ends (b ∷ bs) tail s f y =
      let block = s.cache b in
      bwrite_then (start + tail + 1) block s (write_log_loop start bs (tail + 1))
        (λ z. (λ x o. refl, omega arith))
        λ z.
          Ends.mono
            (write_log_loop-Ends bs (tail + 1) (written (start + tail + 1) block s) (omega arith)
              (λ j hj. ground (arith, y j hj)))
            (λ _ u g. Logging-cons b bs tail s u f g z)
            (λ d c. (
              λ x o.
                  c.0 x (omega arith) ∙ update_ne s.disk (start + tail + 1) block x (omega arith),
              omega (arith, c.1),
            ))

  -- What the home blocks are to become: those with an entry as the cache has them.
  abbrev pub chosen : Log → ℕ → Option ℕ → Block
  chosen s x none = s.disk x
  chosen s x (some j) = s.cache x

  abbrev pub committed : Log → Disk
  committed s x = chosen s x (find start s.lh 0 x)

  -- A disk that stands for the state before the commit, or for the one after it.
  pub record Atomic (s : Log) (d : Disk) : Type 0 where
    pub logged : IsLogged start size d
    pub whole :
        ((x : ℕ) → IsHome start size x → logical start d x ≡ s.disk x)
        ⊎ ((x : ℕ) → IsHome start size x → logical start d x ≡ committed s x)
    pub cut : s.life ≤ 2 * length s.lh + 1

  abbrev pub Committed : Log → Log → Type 0
  Committed s u =
      ((x : ℕ) → IsHome start size x → u.disk x ≡ committed s x)
      × (u.disk start 0 ≡ 0)
      × (u.lh ≡ [])

  -- With the header on the disk empty, the disk stands for itself.
  logical-empty : (d : Disk) (x : ℕ) → d start 0 ≡ 0 → logical start d x ≡ d x
  logical-empty d x e = ap (λ l. replay start l 0 d x) nothing
    where
      nothing : entries (d start) ≡ []
      nothing = rw e

  IsLogged-empty : (d : Disk) → 0 < size → d start 0 ≡ 0 → IsLogged start size d
  IsLogged-empty d positive e = record { few = omega arith; home = rw e tt }

  module _ (s : Log) (clean : s.disk start 0 ≡ 0) (fits : length s.lh < size)
      (small : size ≤ logsize + 1) (homes : All (IsHome start size) s.lh) where
    -- Before the header is written the old state stands.
    before :
        (d : Disk)
        → ((x : ℕ) → Outside 0 (length s.lh) x → d x ≡ s.disk x)
        → s.life ≤ 2 * length s.lh + 1
        → Atomic s d
    before d same cut =
        let head : d start 0 ≡ 0 = ap (λ b. b 0) (same start (omega arith)) ∙ clean in
        record {
          logged = IsLogged-empty d (omega arith) head;
          whole = inl (λ x h. logical-empty d x head ∙ same x (omega arith));
          cut = cut;
        }

    -- With the header written the new state stands.
    module _ (t : Log) (g : Logging s.lh 0 s t) where
      abbrev headed : Log
      headed = written start (header t.lh (t.cache start)) t

      head-eq : headed.disk start ≡ header t.lh (t.cache start)
      head-eq = update_self t.disk start (header t.lh (t.cache start))

      length-eq : length t.lh ≡ length s.lh
      length-eq = ap length g.lh_kept

      entries-eq : entries (headed.disk start) ≡ t.lh
      entries-eq =
          ap entries head-eq
          ∙ rw (lt→leb_false (2 ^ 31) (length t.lh) (omega (arith, length-eq)))
              (words-header t.lh (t.cache start))

      home-eq :
          (x : ℕ)
          → IsHome start size x
          → pick start headed.disk x (find start s.lh 0 x) ≡ committed s x
      home-eq x h = elim (Option-cases (find start s.lh 0 x)) [
        | inl out ↦ rw out (
            update_ne t.disk start (header t.lh (t.cache start)) x (omega arith)
            ∙ g.rest x (omega arith))
        | inr (j, at) ↦ rw at (
            update_ne t.disk start (header t.lh (t.cache start)) (start + j + 1) (omega arith)
            ∙ g.slots j x h at)
      ]

      logical-eq : (x : ℕ) → IsHome start size x → logical start headed.disk x ≡ committed s x
      logical-eq x h =
          ap (λ l. replay start l 0 headed.disk x) (entries-eq ∙ g.lh_kept)
          ∙ replay-pick start size s.lh 0 headed.disk x homes (omega arith)
          ∙ home-eq x h

      IsLogged-headed : (d : Disk) → d start ≡ headed.disk start → IsLogged start size d
      IsLogged-headed d e =
          let b : d start ≡ header t.lh (t.cache start) = e ∙ head-eq in
          record {
            few = subst (λ (w : Block). w 0 < size) (sym b) (omega (arith, length-eq));
            home =
                subst (λ (w : Block). All (IsHome start size) (words w 1 (w 0))) (sym b)
                  (subst (λ l. All (IsHome start size) l)
                    (sym (words-header t.lh (t.cache start) ∙ g.lh_kept)) homes);
          }

      after : 0 < t.life → Ends (λ _ u. Committed s u) (Atomic s) (finish start size headed)
      after alive =
          Ends.mono
            (finish-Ends start size headed entries-eq (omega (arith, length-eq))
              (subst (λ l. All (IsHome start size) l) (sym g.lh_kept) homes)
              (λ j hj. ground (arith, g.synced j hj)))
            (λ _ u f. (λ x h. f.0 x h ∙ logical-eq x h, f.1, f.2))
            (λ d c. record {
              logged = IsLogged-headed d c.1;
              whole = inr (λ x h. c.0 x ∙ logical-eq x h);
              cut = omega (arith, c.2, g.lives, length-eq);
            })

    commit_blocks-Ends :
        Synced start size s → Ends (λ _ u. Committed s u) (Atomic s) (commit_blocks start s)
    unfolding commit_blocks write_log write_head
    commit_blocks-Ends y =
        Ends.bind
          (Ends.mono (write_log_loop-Ends s.lh 0 s (omega arith) y) (λ _ t g. g)
            (λ d c. before d c.0 (omega (arith, c.1))))
          λ _ t g.
            bwrite_then start (header t.lh (t.cache start)) t (finish start size)
              (λ z. before t.disk g.rest (omega (arith, g.lives))) (after t g)

  -- commit() of fewer home blocks than the log has blocks, of at most LOGSIZE, over a disk whose log is empty: if it gets through, each
  -- block of the transaction is on the disk as the cache had it, every other home block is as it was,
  -- and the log is empty again. If the power fails at any of its writes, which a life of two
  -- writes for each block and two more excludes, the disk that is left is one that recovery accepts,
  -- and stands either for the old contents of all home blocks or for the new contents of all. The cache
  -- has the log's blocks as the disk has them, and the log has at most LOGSIZE blocks behind its header.
  pub commit-Ends :
      (s : Log)
      → s.disk start 0 ≡ 0
      → length s.lh < size
      → size ≤ logsize + 1
      → All (IsHome start size) s.lh
      → Synced start size s
      → Ends (λ _ u. Committed s u) (Atomic s) (commit start s)
  unfolding commit
  commit-Ends s clean fits small homes y = elim (Bool-cases (ltb 0 (length s.lh))) [
    | inl e ↦ rw e (commit_blocks-Ends s clean fits small homes y)
    | inr e ↦
        let nothing : s.lh ≡ [] = eq-nil s.lh (ground arith) in
        rw e
          (through (λ x h. ap (λ l. chosen s x (find start l 0 x)) (sym nothing), clean, nothing))
  ]

  -- The machine after a restart: what was in memory is lost.
  abbrev pub boot : Disk → ℕ → Log
  boot d life = record {
    disk = d;
    cache = d;
    lh = [];
    outstanding = 0;
    committing = false;
    life = life;
  }

  -- The home blocks are all as before the commit, or all as it was to leave them.
  abbrev pub AllOrNothing : Log → Disk → Type 0
  AllOrNothing s d =
      ((x : ℕ) → IsHome start size x → d x ≡ s.disk x)
      ⊎ ((x : ℕ) → IsHome start size x → d x ≡ committed s x)

  -- Where the power fails during commit(), a restart with recovery gives the home blocks all as they
  -- were or all as the transaction has them, and an empty log; unless the power fails once more,
  -- within as many writes as the log has blocks, and then recovery can be started again. The
  -- conditions are those of commit-Ends.
  pub commit-recover :
      (s : Log) (life : ℕ)
      → s.disk start 0 ≡ 0
      → length s.lh < size
      → size ≤ logsize + 1
      → All (IsHome start size) s.lh
      → Synced start size s
      → Ends
          (λ _ u. Committed s u)
          (λ d.
            Ends
              (λ _ u. AllOrNothing s u.disk × (u.disk start 0 ≡ 0))
              (λ d'. IsLogged start size d' × (life < size))
              (recover_from_log start (boot d life)))
          (commit start s)
  commit-recover s life clean fits small homes y =
      Ends.mono (commit-Ends s clean fits small homes y) (λ _ u c. c)
        λ d a.
          Ends.mono (recover_from_log-Ends start size (boot d life) small a.logged refl)
            (λ _ u r. (settle u d r.0 a.whole, r.1))
            (λ d' r. (r.1, omega (arith, r.2, a.logged.few)))
    where
      settle :
          (u : Log) (d : Disk)
          → ((x : ℕ) → IsHome start size x → u.disk x ≡ logical start d x)
          → ((x : ℕ) → IsHome start size x → logical start d x ≡ s.disk x)
            ⊎ ((x : ℕ) → IsHome start size x → logical start d x ≡ committed s x)
          → AllOrNothing s u.disk
      settle u d r (inl old) = inl (λ x h. r x h ∙ old x h)
      settle u d r (inr new) = inr (λ x h. r x h ∙ new x h)
