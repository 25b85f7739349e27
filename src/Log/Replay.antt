-- ===== src/Log/Replay.antt =====
-- The disk that a log stands for: what recovery will make of the home blocks.
use os_11740_assignment.Base.{
  ℕ, zero, suc, ◌+◌, ◌^◌, ◌≤◌, ◌<◌, ◌≡◌, refl, ◌≢◌, ◌∙◌, ap, ap₂, sym, ◌⊎◌, inl, inr, arith, Option,
  none, some, ◌==◌, leb, if◌then◌else◌, update, update_ne, List, [], ◌∷◌, All, length, get_or,
  ne→==_false, le→leb, Option-cases,
}
use os_11740_assignment.Log.{Block, Disk, words, header}

-- The block numbers in a header, as recovery reads them.
abbrev pub entries : Block → List ℕ
entries h = if leb (2 ^ 31) (h 0) then [] else words h 1 (h 0)

module _ (start : ℕ) where
  -- The blocks `bs`, installed in order from the log's entries from `tail` on.
  abbrev pub replay : List ℕ → ℕ → Disk → Disk
  replay [] tail d = d
  replay (b ∷ bs) tail d = replay bs (tail + 1) (update d b (d (start + tail + 1)))

  -- The last entry for block `x`.
  abbrev pub find : List ℕ → ℕ → ℕ → Option ℕ
  find [] tail x = none
  find (b ∷ bs) tail x = elim (find bs (tail + 1) x) [
    | some j ↦ some j
    | none ↦ if b == x then some tail else none
  ]

  abbrev pub pick : Disk → ℕ → Option ℕ → Block
  pick d x none = d x
  pick d x (some j) = d (start + j + 1)

  pub find-lt : (bs : List ℕ) (tail x j : ℕ) → find bs tail x ≡ some j → j < tail + length bs
  find-lt [] tail x j e = cc
  find-lt (b ∷ bs) tail x j e = ground (arith, find-lt bs (tail + 1) x j)

  -- What the home blocks are once recovery is through.
  abbrev pub logical : Disk → Disk
  logical d = replay (entries (d start)) 0 d

-- The log has the `size` blocks from `start` on, the first of which is its header.
module _ (start size : ℕ) where
  -- A block outside the log.
  abbrev pub IsHome : ℕ → Type 0
  IsHome b = (b < start) ⊎ (start + size ≤ b)

  -- Where no entry of the suffix is for `x`, only the first one counts.
  replay_step :
      (b tail : ℕ) (bs : List ℕ) (d : Disk) (x : ℕ)
      → IsHome b
      → tail + length (b ∷ bs) < size
      → pick start (update d b (d (start + tail + 1))) x (find start bs (tail + 1) x)
        ≡ pick start d x (find start (b ∷ bs) tail x)
  replay_step b tail bs d x h fits = elim (Option-cases (find start bs (tail + 1) x)) [
    | inl out ↦ rw out (ground arith)
    | inr (j, at) ↦ rw at (ground (arith, find-lt start bs (tail + 1) x j at))
  ]

  -- A replay gives each block the data of its last entry, and leaves a block without one.
  pub replay-pick :
      (bs : List ℕ) (tail : ℕ) (d : Disk) (x : ℕ)
      → All IsHome bs
      → tail + length bs < size
      → replay start bs tail d x ≡ pick start d x (find start bs tail x)
  replay-pick [] tail d x h fits = refl
  replay-pick (b ∷ bs) tail d x h fits =
      replay-pick bs (tail + 1) (update d b (d (start + tail + 1))) x h.1 (omega arith)
      ∙ replay_step b tail bs d x h.0 fits

  -- Writing anything to a block that has an entry does not change what a replay gives.
  pub replay-update :
      (bs : List ℕ) (d : Disk) (b : ℕ) (block : Block) (x : ℕ)
      → All IsHome bs
      → length bs < size
      → IsHome b
      → find start bs 0 b ≢ none
      → replay start bs 0 (update d b block) x ≡ replay start bs 0 d x
  replay-update bs d b block x h fits hb logged =
      replay-pick bs 0 (update d b block) x h (omega arith)
      ∙ elim (Option-cases (find start bs 0 x)) [
        | inl out ↦
            rw out (update_ne d b block x (λ e. logged (ap (find start bs 0) (sym e) ∙ out)))
        | inr (j, at) ↦
            rw at (update_ne d b block (start + j + 1) (omega (arith, find-lt start bs 0 x j at)))
      ]
      ∙ sym (replay-pick bs 0 d x h (omega arith))

  -- The header on the disk was written by commit(), or is empty.
  pub record IsLogged (d : Disk) : Type 0 where
    pub few : d start 0 < size
    pub home : All IsHome (words (d start) 1 (d start 0))

-- Reading a header back gives the entries that were written.
words-shift :
    (lh : List ℕ) (old : Block) (i n : ℕ) (rest : List ℕ)
    → ((k : ℕ) → k < n → get_or lh (i + k) 0 ≡ get_or rest k 0)
    → n ≡ length rest
    → i + n ≡ length lh
    → words (header lh old) (i + 1) n ≡ rest
words-shift lh old i zero [] same e f = refl
words-shift lh old i zero (b ∷ bs) same e f = absurd (omega arith)
words-shift lh old i (suc n) [] same e f = absurd (omega arith)
words-shift lh old i (suc n) (b ∷ bs) same e f =
    ap₂ ◌∷◌ first (words-shift lh old (i + 1) n bs next (omega arith) (omega arith))
  where
    first : header lh old (i + 1) ≡ b
    first =
        rw (ne→==_false (i + 1) 0 (omega arith), le→leb (i + 1) (length lh) (omega arith))
          (ap (λ j. get_or lh j 0) (omega arith) ∙ same 0 (omega arith))

    next : (k : ℕ) → k < n → get_or lh (i + 1 + k) 0 ≡ get_or bs k 0
    next k h = ap (λ j. get_or lh j 0) (omega arith) ∙ same (suc k) (omega arith)

pub words-header : (lh : List ℕ) (old : Block) → words (header lh old) 1 (length lh) ≡ lh
words-header lh old =
    words-shift lh old 0 (length lh) lh (λ k h. ap (λ j. get_or lh j 0) (omega arith)) refl
      (omega arith)
