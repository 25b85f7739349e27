-- ===== src/Fs/Content/Mapped.antt =====
-- The bytes of a file whose blocks are allocated, and readi() of xv6-public/fs.c on them.
use os_11740_assignment.Base.{
  ℕ, zero, suc, ◌+◌, ◌-◌, ◌*◌, ◌/◌, ◌%◌, ◌^◌, ◌≤◌, ◌<◌, ◌≡◌, ◌≢◌, refl, sym, ap, ap₂, ◌∙◌, arith,
  ltb, none, some, List, [], ◌∷◌, ◌++◌, length, get_or, if◌then◌else◌, ne→==_false, le→ltb_false,
  min, ◌⊎◌,
}
use os_11740_assignment.Base.Run.{ok}
use os_11740_assignment.Mmu.{u32}
use os_11740_assignment.Fs.{Superblock, Fs, bsize, ndirect, maxfile, t_dev}
use os_11740_assignment.Fs.Words.{get32}
use os_11740_assignment.Fs.Bmap.{bmap}
use os_11740_assignment.Fs.Content.{Devsw, chunk, get_bytes, read_loop, readi}

-- The block with the bytes from bn * BSIZE on.
abbrev pub mapped : Fs → ℕ → ℕ → ℕ
mapped s ip bn =
    if ltb bn ndirect
    then (s.inode ip).addrs bn
    else get32 (s.block ((s.inode ip).addrs ndirect)) (4 * (bn - ndirect))

-- Block `bn` of the file is there.
pub record IsMapped (s : Fs) (ip bn : ℕ) : Type 0 where
  pub below : bn < maxfile
  pub there : mapped s ip bn ≢ 0
  pub indirect : ndirect ≤ bn → (s.inode ip).addrs ndirect ≢ 0

pub bmap-mapped :
    (sb : Superblock) (s : Fs) (ip bn : ℕ)
    → IsMapped s ip bn
    → bmap sb ip bn s ≡ ok (mapped s ip bn) s
unfolding bmap
bmap-mapped sb s ip bn m = ground (arith, m.below, m.there, m.indirect)

-- Byte `x` of the file, and the `n` bytes from `off` on.
abbrev pub byte : Fs → ℕ → ℕ → ℕ
byte s ip x = s.block (mapped s ip (x / bsize)) (x % bsize)

pub file_bytes : Fs → ℕ → ℕ → ℕ → List ℕ
file_bytes s ip off zero = []
file_bytes s ip off (suc n) = byte s ip off ∷ file_bytes s ip (off + 1) n

-- A file that has `src` from `off` on reads as `src`.
pub file_bytes-get_or :
    (t : Fs) (ip off : ℕ) (src : List ℕ)
    → ((i : ℕ) → i < length src → byte t ip (off + i) ≡ get_or src i 0)
    → file_bytes t ip off (length src) ≡ src
unfolding file_bytes
file_bytes-get_or t ip off [] h = refl
file_bytes-get_or t ip off (c ∷ cs) h =
    ap₂ (λ d l. d ∷ l) (ap (byte t ip) (here off) ∙ h 0 (omega arith))
      (file_bytes-get_or t ip (off + 1) cs
        (λ i lt. ap (byte t ip) (next off i) ∙ h (suc i) (omega arith)))
  where
    here : (off : ℕ) → off ≡ off + 0
    here off = omega arith

    next : (off i : ℕ) → off + 1 + i ≡ off + suc i
    next off i = omega arith

file_bytes-append :
    (s : Fs) (ip off m n : ℕ)
    → file_bytes s ip off m ++ file_bytes s ip (off + m) n ≡ file_bytes s ip off (m + n)
unfolding file_bytes
file_bytes-append s ip off zero n = ap₂ (file_bytes s ip) (off_zero off) (zero_in n)
  where
    off_zero : (off : ℕ) → off + 0 ≡ off
    off_zero off = omega arith

    zero_in : (n : ℕ) → n ≡ 0 + n
    zero_in n = omega arith
file_bytes-append s ip off (suc m) n =
    ap (λ o. byte s ip off ∷ (file_bytes s ip (off + 1) m ++ file_bytes s ip o n)) (next off m)
    ∙ ap (λ l. byte s ip off ∷ l) (file_bytes-append s ip (off + 1) m n)
    ∙ ap (file_bytes s ip off) (count m n)
  where
    next : (off m : ℕ) → off + suc m ≡ off + 1 + m
    next off m = omega arith

    count : (m n : ℕ) → suc (m + n) ≡ suc m + n
    count m n = omega arith

-- The bytes that one round of the loop takes stand in one block.
get_bytes-file_bytes :
    (s : Fs) (ip bn o m : ℕ)
    → o + m ≤ bsize
    → get_bytes (s.block (mapped s ip bn)) o m ≡ file_bytes s ip (bn * bsize + o) m
unfolding get_bytes file_bytes
get_bytes-file_bytes s ip bn o zero h = refl
get_bytes-file_bytes s ip bn o (suc m) h =
    let q : (bn * bsize + o) / bsize ≡ bn = omega arith in
    let r : (bn * bsize + o) % bsize ≡ o = omega arith in
    let more : bn * bsize + (o + 1) ≡ bn * bsize + o + 1 = omega arith in
    ap₂ (λ b p. s.block (mapped s ip b) p ∷ get_bytes (s.block (mapped s ip bn)) (o + 1) m) (sym q)
      (sym r)
    ∙ ap (λ l. byte s ip (bn * bsize + o) ∷ l)
        (get_bytes-file_bytes s ip bn (o + 1) m (omega arith) ∙ ap (λ p. file_bytes s ip p m) more)

-- Every block that the `n` bytes from `off` on touch is there.
abbrev pub AllMapped : Fs → ℕ → ℕ → ℕ → Type 0
AllMapped s ip off n = (x : ℕ) → off ≤ x → x < off + n → IsMapped s ip (x / bsize)

module _ (sb : Superblock) (devsw : Devsw) (s : Fs) (ip : ℕ) where
  -- One round of the loop.
  read_loop-suc :
      (k off n : ℕ) {l : List ℕ}
      → 0 < n
      → IsMapped s ip (off / bsize)
      → read_loop sb devsw k ip (off + chunk off n) (n - chunk off n) s ≡ ok l s
      → read_loop sb devsw (suc k) ip off n s
        ≡ ok (get_bytes (s.block (mapped s ip (off / bsize))) (off % bsize) (chunk off n) ++ l) s
  unfolding read_loop
  read_loop-suc k off n some_left m rest =
      rw (ne→==_false n 0 (omega arith), bmap-mapped sb s ip (off / bsize) m, rest) refl

  chunk-file_bytes :
      (off n : ℕ)
      → get_bytes (s.block (mapped s ip (off / bsize))) (off % bsize) (chunk off n)
          ++ file_bytes s ip (off + chunk off n) (n - chunk off n)
        ≡ file_bytes s ip off n
  chunk-file_bytes off n =
      let here : off / bsize * bsize + off % bsize ≡ off = omega arith in
      let whole : chunk off n + (n - chunk off n) ≡ n = ground arith in
      ap (λ l. l ++ file_bytes s ip (off + chunk off n) (n - chunk off n))
        (get_bytes-file_bytes s ip (off / bsize) (off % bsize) (chunk off n) (ground arith)
          ∙ ap (λ o. file_bytes s ip o (chunk off n)) here)
      ∙ file_bytes-append s ip off (chunk off n) (n - chunk off n)
      ∙ ap (file_bytes s ip off) whole

  read_loop-file_bytes :
      (k off n : ℕ)
      → n < k
      → AllMapped s ip off n
      → read_loop sb devsw k ip off n s ≡ ok (file_bytes s ip off n) s
  unfolding read_loop file_bytes
  read_loop-file_bytes zero off n lt all = absurd (omega arith)
  read_loop-file_bytes (suc k) off zero lt all = refl
  read_loop-file_bytes (suc k) off (suc n) lt all =
      read_loop-suc k off (suc n) (omega arith) (all off (omega arith) (omega arith)) (
        read_loop-file_bytes k (off + chunk off (suc n)) (suc n - chunk off (suc n)) (ground arith)
          (λ x lo hi. all x (ground arith) (ground arith)))
      ∙ ap (λ l. ok l s) (chunk-file_bytes off (suc n))

  -- readi() of a file that is no device, at an offset within it: it returns the bytes from the offset
  -- on, as many as were asked for and the file has, and changes nothing.
  pub readi-file_bytes :
      (off n : ℕ)
      → (s.inode ip).type ≢ t_dev
      → off ≤ (s.inode ip).size
      → off + n < 2 ^ 32
      → AllMapped s ip off (min n ((s.inode ip).size - off))
      → readi sb devsw ip off n s
        ≡ ok (some (file_bytes s ip off (min n ((s.inode ip).size - off)))) s
  unfolding readi
  readi-file_bytes off n plain inside small all =
      let count : (if ltb (s.inode ip).size (off + n) then (s.inode ip).size - off else n)
          ≡ min n ((s.inode ip).size - off) =
        ground arith in
      rw
        (
          ne→==_false (s.inode ip).type t_dev plain,
          le→ltb_false (s.inode ip).size off inside,
          le→ltb_false (u32 (off + n)) off (omega arith),
          count,
          read_loop-file_bytes (min n ((s.inode ip).size - off) + 1) off
              (min n ((s.inode ip).size - off)) (omega arith) all,
        )
        refl

  -- An offset behind the end of the file, or one from which `n` wraps, is refused.
  pub readi-refuses :
      (off n : ℕ)
      → (s.inode ip).type ≢ t_dev
      → ((s.inode ip).size < off) ⊎ (u32 (off + n) < off)
      → readi sb devsw ip off n s ≡ ok none s
  unfolding readi
  readi-refuses off n plain bad = ground (arith, ne→==_false (s.inode ip).type t_dev plain)
