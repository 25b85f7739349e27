-- ===== src/Bcache/Transparent.antt =====
-- bread() of xv6-public/bio.c changes what no block reads as, whichever buffer it recycles.
pub mod Reads
use os_11740_assignment.Base.{
  ℕ, ◌+◌, ◌<◌, ◌≡◌, ◌≢◌, ◌⊎◌, inl, inr, refl, sym, subst, ap, ap₂, ◌∙◌, arith, Bool, true, false,
  not, ◌&&◌, ◌==◌, ==_iff, Bool-cases, Option, none, some, List, [], ◌∷◌, if◌then◌else◌, update,
}
use os_11740_assignment.Bcache.{Buf, Bcache, is_block, is_free, find_cached}
use os_11740_assignment.Bcache.Scan.{Listed, Finds, find_cached-Finds}

-- The bytes of block `b`: those of the buffer that holds it, if that is valid, and else those of the disk.
abbrev pub shown : Bcache → ℕ → Option ℕ → ℕ → ℕ
shown s b none = s.disk b
shown s b (some i) = if (s.buf i).valid then (s.buf i).bytes else s.disk b

pub content : Bcache → ℕ → ℕ → ℕ
content s b = shown s b (find_cached 1 b s.buf s.order)

-- At most one buffer of the list holds a block; a free buffer that is valid is as the disk; and a dirty
-- buffer is valid.
pub record IsCache (s : Bcache) : Type 0 where
  pub unique :
      (b i j : ℕ)
      → Listed i s.order
      → Listed j s.order
      → is_block 1 b (s.buf i) ≡ true
      → is_block 1 b (s.buf j) ≡ true
      → i ≡ j
  pub synced :
      (i : ℕ)
      → Listed i s.order
      → is_free (s.buf i) ≡ true
      → (s.buf i).valid ≡ true
      → (s.buf i).bytes ≡ s.disk (s.buf i).blockno
  pub backed : (i : ℕ) → Listed i s.order → (s.buf i).dirty ≡ true → (s.buf i).valid ≡ true

module _ (s : Bcache) (b : ℕ) where
  shown-at :
      (i : ℕ) (r : Option ℕ)
      → IsCache s
      → Listed i s.order
      → is_block 1 b (s.buf i) ≡ true
      → Finds 1 b s.buf s.order r
      → shown s b r ≡ shown s b (some i)
  shown-at i none c listed h found = absurd (ground (arith, found i listed, h))
  shown-at i (some j) c listed h found =
      ap (λ k. shown s b (some k)) (c.unique b j i found.0 listed found.1 h)

  pub content-at :
      (i : ℕ)
      → IsCache s
      → Listed i s.order
      → is_block 1 b (s.buf i) ≡ true
      → content s b ≡ shown s b (some i)
  unfolding content
  content-at i c listed h = shown-at i _ c listed h (find_cached-Finds 1 b s.buf s.order)

  shown-absent :
      (r : Option ℕ)
      → ((i : ℕ) → Listed i s.order → is_block 1 b (s.buf i) ≡ false)
      → Finds 1 b s.buf s.order r
      → shown s b r ≡ s.disk b
  shown-absent none h found = refl
  shown-absent (some i) h found = absurd (ground (arith, h i found.0, found.1))

  pub content-absent :
      ((i : ℕ) → Listed i s.order → is_block 1 b (s.buf i) ≡ false) → content s b ≡ s.disk b
  unfolding content
  content-absent h = shown-absent _ h (find_cached-Finds 1 b s.buf s.order)

-- `t` is `s` with another buffer `i`.
pub record Changes (i : ℕ) (s t : Bcache) : Type 0 where
  pub order : t.order ≡ s.order
  pub disk : t.disk ≡ s.disk
  pub buf : (j : ℕ) → j ≢ i → t.buf j ≡ s.buf j

-- Buffer `i` holds the block; or none does, and `i` is free.
abbrev pub IsFor : ℕ → ℕ → Bcache → Type 0
IsFor b i s =
    (is_block 1 b (s.buf i) ≡ true)
    ⊎ (((j : ℕ) → Listed j s.order → is_block 1 b (s.buf j) ≡ false) × (is_free (s.buf i) ≡ true))

-- Buffer `i` is in use and holds the content of the block.
pub record Holds (b i : ℕ) (s t : Bcache) : Type 0 where
  pub block : is_block 1 b (t.buf i) ≡ true
  pub valid : (t.buf i).valid ≡ true
  pub bytes : (t.buf i).bytes ≡ content s b
  pub used : is_free (t.buf i) ≡ false

false_ne_true : false ≡ true → ⊥
false_ne_true e = ground (arith, e)

is_block_one : (b c : ℕ) (u : Buf) → is_block 1 b u ≡ true → is_block 1 c u ≡ true → b ≡ c
is_block_one b c u h g = ground (arith, h, g)

pub block_number : (d : ℕ) (u : Buf) → is_block 1 d u ≡ true → u.blockno ≡ d
block_number d u h = ground (arith, h)

module _ (b i : ℕ) (s t : Bcache) (c : IsCache s) (listed : Listed i s.order) (old : IsFor b i s)
    (ch : Changes i s t) (h : Holds b i s t) where
  -- No other buffer holds the block.
  other_blocks : (j : ℕ) → Listed j s.order → j ≢ i → is_block 1 b (s.buf j) ≡ false
  other_blocks j lj ne = elim (Bool-cases (is_block 1 b (s.buf j))) [
    | inr differs ↦ differs
    | inl holds ↦ elim old [
      | inl mine ↦ absurd (ne (c.unique b j i lj listed holds mine))
      | inr (absent, _) ↦ absent j lj
    ]
  ]

  here : (j : ℕ) → (j ≡ i) ⊎ (j ≢ i)
  here j = elim (Bool-cases (j == i)) [
    | inl same ↦ inl ((==_iff j i).0 same)
    | inr other ↦ inr (λ e. ground (arith, other, e))
  ]

  before : (j : ℕ) → Listed j t.order → Listed j s.order
  before j = subst (Listed j) ch.order

  sole :
      (d j : ℕ)
      → Listed j s.order
      → j ≢ i
      → is_block 1 d (t.buf i) ≡ true
      → is_block 1 d (t.buf j) ≡ true
      → ⊥
  sole d j lj ne hi hj =
      let same = is_block_one b d (t.buf i) h.block hi in
      false_ne_true (
        sym (other_blocks j lj ne)
        ∙ ap (is_block 1 b) (sym (ch.buf j ne))
        ∙ ap (λ x. is_block 1 x (t.buf j)) same
        ∙ hj)

  pub Changes-IsCache : IsCache t
  Changes-IsCache = record {
    unique = λ d j k lj lk hj hk. elim (here j) [
      | inl ej ↦ elim (here k) [
        | inl ek ↦ ej ∙ sym ek
        | inr nk ↦
            absurd (sole d k (before k lk) nk (subst (λ x. is_block 1 d (t.buf x) ≡ true) ej hj) hk)
      ]
      | inr nj ↦ elim (here k) [
        | inl ek ↦
            absurd (sole d j (before j lj) nj (subst (λ x. is_block 1 d (t.buf x) ≡ true) ek hk) hj)
        | inr nk ↦
            c.unique d j k (before j lj) (before k lk) (sym (ap (is_block 1 d) (ch.buf j nj)) ∙ hj)
              (sym (ap (is_block 1 d) (ch.buf k nk)) ∙ hk)
      ]
    ];
    synced = λ j lj fj vj. elim (here j) [
      | inl ej ↦ absurd (false_ne_true (sym h.used ∙ ap (λ x. is_free (t.buf x)) (sym ej) ∙ fj))
      | inr nj ↦
          subst (λ (u : Buf). u.bytes ≡ t.disk u.blockno) (sym (ch.buf j nj))
            (c.synced j (before j lj) (sym (ap is_free (ch.buf j nj)) ∙ fj)
                (sym (ap (λ (u : Buf). u.valid) (ch.buf j nj)) ∙ vj)
              ∙ ap (λ (d : ℕ → ℕ → ℕ). d (s.buf j).blockno) (sym ch.disk))
    ];
    backed = λ j lj dj. elim (here j) [
      | inl ej ↦ ap (λ x. (t.buf x).valid) ej ∙ h.valid
      | inr nj ↦
          ap (λ (u : Buf). u.valid) (ch.buf j nj)
          ∙ c.backed j (before j lj) (sym (ap (λ (u : Buf). u.dirty) (ch.buf j nj)) ∙ dj)
    ];
  }

  -- What another block than `b` reads as, by what holds it now.
  content_else :
      (d : ℕ) (r : Option ℕ) → b ≢ d → Finds 1 d t.buf t.order r → content t d ≡ content s d
  content_else d (some j) ne (lj, hj) =
      let nj : j ≢ i = λ e.
        ne (is_block_one b d (t.buf i) h.block (ap (λ x. is_block 1 d (t.buf x)) (sym e) ∙ hj)) in
      let was = sym (ap (is_block 1 d) (ch.buf j nj)) ∙ hj in
      content-at t d j Changes-IsCache lj hj
      ∙ ap₂ (λ (u : Buf) (k : ℕ → ℕ → ℕ). if u.valid then u.bytes else k d) (ch.buf j nj) ch.disk
      ∙ sym (content-at s d j c (before j lj) was)
  content_else d none ne absent =
      content-absent t d absent
      ∙ ap (λ (k : ℕ → ℕ → ℕ). k d) ch.disk
      ∙ sym (evicted (find_cached 1 d s.buf s.order) (find_cached-Finds 1 d s.buf s.order))
    where
      after : (k : ℕ) → Listed k s.order → Listed k t.order
      after k = subst (Listed k) (sym ch.order)

      evicted : (r : Option ℕ) → Finds 1 d s.buf s.order r → content s d ≡ s.disk d
      evicted none gone = content-absent s d gone
      evicted (some k) (lk, hk) = content-at s d k c lk hk ∙ elim (here k) [
        | inr nk ↦
            absurd
              (false_ne_true (sym (absent k (after k lk)) ∙ ap (is_block 1 d) (ch.buf k nk) ∙ hk))
        | inl ek ↦ elim old [
          | inl mine ↦ absurd (
              ne (is_block_one b d (s.buf i) mine (ap (λ x. is_block 1 d (s.buf x)) (sym ek) ∙ hk)))
          | inr (_, free) ↦ elim (Bool-cases (s.buf k).valid) [
            | inr stale ↦ rw stale refl
            | inl valid ↦ rw valid (
                c.synced k lk (ap (λ x. is_free (s.buf x)) ek ∙ free) valid
                ∙ ap s.disk (block_number d (s.buf k) hk))
          ]
        ]
      ]

  pub Changes-content : (d : ℕ) → content t d ≡ content s d
  Changes-content d = elim (Bool-cases (b == d)) [
    | inr other ↦
        content_else d _ (λ e. ground (arith, other, e)) (find_cached-Finds 1 d t.buf t.order)
    | inl same ↦
        subst (λ x. content t x ≡ content s x) ((==_iff b d).0 same)
          (content-at t b i Changes-IsCache (subst (Listed i) (sym ch.order) listed) h.block
            ∙ ap (λ v. if v then (t.buf i).bytes else t.disk b) h.valid
            ∙ h.bytes)
  ]
