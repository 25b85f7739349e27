-- ===== src/Fs/Bitmap/Alloc.antt =====
-- What balloc() and bfree() of xv6-public/fs.c do to the set of blocks in use.
use os_11740_assignment.Base.{
  ℕ, zero, suc, ◌+◌, ◌-◌, ◌*◌, ◌/◌, ◌%◌, ◌≤◌, ◌<◌, ◌≡◌, refl, sym, ap, ap₂, ◌∙◌, arith, Bool, true,
  false, ◌==◌, ltb, Option, none, some, if◌then◌else◌, update, Bool-cases, inl, inr,
}
use os_11740_assignment.Base.Run.{Run, Cmd, ok, panic, fault, waits, out_of_fuel, pure, ◌>>◌}
use os_11740_assignment.Log.{absorb}
use os_11740_assignment.Fs.{Superblock, Fs, bpb, bblock, change}
use os_11740_assignment.Fs.Bitmap.{is_marked, mark, find_bit, bzero, balloc_loop, balloc}

module _ (size : ℕ) (d : ℕ → ℕ) (b : ℕ) where
  -- What the search among the `k` bits from `bi` on returns.
  abbrev Found : ℕ → ℕ → Option ℕ → Type 0
  Found k bi none = (j : ℕ) → bi ≤ j → j < bi + k → b + j < size → is_marked d j ≡ true
  Found k bi (some i) =
      (bi ≤ i)
      × (i < bi + k)
      × (b + i < size)
      × (is_marked d i ≡ false)
      × ((j : ℕ) → bi ≤ j → j < i → is_marked d j ≡ true)

  Found-suc :
      (k bi : ℕ) (r : Option ℕ) → is_marked d bi ≡ true → Found k (bi + 1) r → Found (suc k) bi r
  Found-suc k bi none e h = λ j lo hi lt. elim (Bool-cases (j == bi)) [
    | inl same ↦ ground (arith, e)
    | inr other ↦ h j (ground arith) (omega arith) lt
  ]
  Found-suc k bi (some i) e h = (
    omega (arith, h.0),
    omega (arith, h.1),
    h.2,
    h.3,
    λ j lo hi. elim (Bool-cases (j == bi)) [
      | inl same ↦ ground (arith, e)
      | inr other ↦ h.4 j (ground arith) hi
    ],
  )

  Found-if :
      (k bi : ℕ) (below used : Bool) (r : Option ℕ)
      → ltb (b + bi) size ≡ below
      → is_marked d bi ≡ used
      → Found k (bi + 1) r
      → Found (suc k) bi (if below then (if used then r else some bi) else none)
  Found-if k bi false used r over e h = λ j lo hi lt. absurd (ground arith)
  Found-if k bi true false r lt e h =
      (omega arith, omega arith, ground arith, e, λ j lo hi. absurd (omega arith))
  Found-if k bi true true r lt e h = Found-suc k bi r e h

  find_bit-Found : (k bi : ℕ) → Found k bi (find_bit size d b k bi)
  unfolding find_bit
  find_bit-Found zero bi = λ j lo hi lt. absurd (omega arith)
  find_bit-Found (suc k) bi = Found-if k bi _ _ _ refl refl (find_bit-Found k (bi + 1))

module _ (sb : Superblock) where
  -- The bit of block `b`.
  abbrev pub in_use : Fs → ℕ → Bool
  in_use s b = is_marked (s.block (bblock sb b)) (b % bpb)

  -- Block `x` is cleared, and bit `i` of block `q` marked.
  abbrev taken_at : ℕ → ℕ → ℕ → Fs → Fs
  taken_at q i x s = record s {
    block = update (update s.block q (mark i (s.block q))) x (λ _. 0);
    logged = absorb x (absorb q s.logged);
  }

  -- The file system with block `x` taken.
  abbrev pub taken : ℕ → Fs → Fs
  taken x = taken_at (bblock sb x) (x % bpb) x

  -- Every outcome of an allocation that looks at the blocks from `b` on.
  abbrev pub Allocates : ℕ → Fs → Run Fs ℕ → Type 0
  Allocates b s (ok x t) =
      (b ≤ x)
      × (x < sb.size)
      × (in_use s x ≡ false)
      × (t ≡ taken x s)
      × ((y : ℕ) → b ≤ y → y < x → in_use s y ≡ true)
  Allocates b s panic = (y : ℕ) → b ≤ y → y < sb.size → in_use s y ≡ true
  Allocates b s fault = ⊥
  Allocates b s waits = ⊥
  Allocates b s out_of_fuel = ⊥

  -- The bits of the blocks from `b` on stand in one block of the bitmap.
  in_use-at :
      (b y : ℕ) (s : Fs)
      → b % bpb ≡ 0
      → b ≤ y
      → y < b + bpb
      → in_use s y ≡ is_marked (s.block (bblock sb b)) (y - b)
  in_use-at b y s e lo hi =
      let same : y / bpb ≡ b / bpb = omega arith in
      let place : y % bpb ≡ y - b = omega arith in
      ap₂ (λ q r. is_marked (s.block (q + sb.bmapstart)) r) same place

  -- The next block of the bitmap, when this one has no free bit.
  Allocates-skip :
      (b : ℕ) (s : Fs) (r : Run Fs ℕ)
      → b % bpb ≡ 0
      → ((j : ℕ)
          → 0 ≤ j
          → j < 0 + bpb
          → b + j < sb.size
          → is_marked (s.block (bblock sb b)) j ≡ true)
      → Allocates (b + bpb) s r
      → Allocates b s r
  Allocates-skip b s (ok x t) e full h = (
    omega (arith, h.0),
    h.1,
    h.2,
    h.3,
    λ y lo hi. elim (Bool-cases (ltb y (b + bpb))) [
      | inl near ↦
          in_use-at b y s e lo (ground arith)
          ∙ full (y - b) (omega arith) (ground arith) (omega (arith, h.1))
      | inr far ↦ h.4 y (ground arith) hi
    ],
  )
  Allocates-skip b s panic e full h = λ y lo hi. elim (Bool-cases (ltb y (b + bpb))) [
    | inl near ↦
        in_use-at b y s e lo (ground arith)
        ∙ full (y - b) (omega arith) (ground arith) (omega arith)
    | inr far ↦ h y (ground arith) hi
  ]
  Allocates-skip b s fault e full h = h
  Allocates-skip b s waits e full h = h
  Allocates-skip b s out_of_fuel e full h = h

  -- One block of the bitmap, by the result of the search in it.
  Allocates-block :
      (k b : ℕ) (s : Fs) (r : Option ℕ)
      → b % bpb ≡ 0
      → Found sb.size (s.block (bblock sb b)) b bpb 0 r
      → Allocates (b + bpb) s (balloc_loop sb k (b + bpb) s)
      → Allocates b s (
          (elim r as (λ _. Cmd Fs ℕ) [
            | some bi ↦ do change (bblock sb b) (mark bi); bzero (b + bi); pure (b + bi)
            | none ↦ balloc_loop sb k (b + bpb)
          ])
            s)
  Allocates-block k b s none e found rest = Allocates-skip b s _ e found rest
  Allocates-block k b s (some bi) e found rest =
      let same : (b + bi) / bpb ≡ b / bpb = omega (arith, found.1) in
      let place : (b + bi) % bpb ≡ bi = omega (arith, found.1) in
      let back : b + bi - b ≡ bi = omega arith in
      (
        omega arith,
        found.2,
        in_use-at b (b + bi) s e (omega arith) (omega (arith, found.1))
            ∙ ap (is_marked (s.block (bblock sb b))) back
            ∙ found.3,
        ap₂ (λ q r. taken_at (q + sb.bmapstart) r (b + bi) s) (sym same) (sym place),
        λ y lo hi.
            in_use-at b y s e lo (omega (arith, found.1))
            ∙ found.4 (y - b) (omega arith) (omega arith),
      )

  balloc_loop-Allocates :
      (k b : ℕ) (s : Fs)
      → b % bpb ≡ 0
      → b < sb.size + bpb
      → sb.size + bpb ≤ b + k * bpb
      → Allocates b s (balloc_loop sb k b s)
  unfolding balloc_loop
  balloc_loop-Allocates zero b s e near enough = absurd (omega arith)
  balloc_loop-Allocates (suc k) b s e near enough = elim (Bool-cases (ltb b sb.size)) [
    | inl more ↦ rw more (
        Allocates-block k b s _ e (find_bit-Found sb.size (s.block (bblock sb b)) b bpb 0)
          (balloc_loop-Allocates k (b + bpb) s (omega arith) (ground arith) (omega arith)))
    | inr over ↦ rw over (λ y lo hi. absurd (ground arith))
  ]

  -- balloc() ends: it returns the lowest block of the disk that is not in use, marked in the bitmap and
  -- cleared, with both changes logged and nothing else changed; or every block of the disk is in use,
  -- and it panics.
  pub balloc-Allocates : (s : Fs) → Allocates 0 s (balloc sb s)
  unfolding balloc
  balloc-Allocates s =
      balloc_loop-Allocates (sb.size / bpb + 2) 0 s refl (omega arith) (omega arith)
