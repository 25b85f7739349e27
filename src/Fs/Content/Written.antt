-- ===== src/Fs/Content/Written.antt =====
-- The loop of writei() of xv6-public/fs.c over the blocks of a file that are allocated.
use os_11740_assignment.Base.{
  ℕ, zero, suc, ◌+◌, ◌-◌, ◌*◌, ◌/◌, ◌%◌, ◌≤◌, ◌<◌, ◌≡◌, ◌≢◌, refl, sym, ap, ◌∙◌, arith, ◌==◌, ltb,
  leb, ◌&&◌, List, [], ◌∷◌, length, take, drop, get_or, length-take, length-drop, get_or-take,
  get_or-drop, if◌then◌else◌, update, update_ne, update_self, Bool-cases, inl, inr, ==_iff,
}
use os_11740_assignment.Log.{absorb}
use os_11740_assignment.Fs.{Fs, bsize, ndirect}
use os_11740_assignment.Fs.Words.{get32}
use os_11740_assignment.Fs.Content.{put_bytes}
use os_11740_assignment.Fs.Content.Mapped.{mapped, IsMapped, byte}

-- The first `n` blocks of the file are there, no two the same, and none is the block of block numbers.
pub record Layout (s : Fs) (ip n : ℕ) : Type 0 where
  pub there : (b : ℕ) → b < n → IsMapped s ip b
  pub plain : (b : ℕ) → b < n → mapped s ip b ≢ (s.inode ip).addrs ndirect
  pub apart : (b c : ℕ) → b < n → c < n → mapped s ip b ≡ mapped s ip c → b ≡ c

-- The file system with new bytes in block `a`.
abbrev pub changed : ℕ → ((ℕ → ℕ) → ℕ → ℕ) → Fs → Fs
changed a f s = record s { block = update s.block a (f (s.block a)); logged = absorb a s.logged }

-- Byte `x` of a file in which `src` was stored from `off` on.
abbrev pub overlay : (ℕ → ℕ) → ℕ → List ℕ → ℕ → ℕ
overlay old off src x =
    if leb off x && ltb x (off + length src) then get_or src (x - off) 0 else old x

get_or-cons :
    (c : ℕ) (cs : List ℕ) (i : ℕ)
    → get_or (c ∷ cs) i 0 ≡ (if i == 0 then c else get_or cs (i - 1) 0)
get_or-cons c cs zero = refl
get_or-cons c cs (suc i) = ground arith

put_bytes-overlay : (l : List ℕ) (o : ℕ) (d : ℕ → ℕ) (p : ℕ) → put_bytes o l d p ≡ overlay d o l p
unfolding put_bytes
put_bytes-overlay [] o d p = ground arith
put_bytes-overlay (c ∷ cs) o d p =
    put_bytes-overlay cs (o + 1) (update d o c) p ∙ ground (arith, get_or-cons c cs (p - o))

-- To store the first part and then the rest is to store the whole.
pub overlay-overlay :
    (old : ℕ → ℕ) (off m : ℕ) (src : List ℕ) (x : ℕ)
    → m ≤ length src
    → overlay (overlay old off (take m src)) (off + m) (drop m src) x ≡ overlay old off src x
overlay-overlay old off m src x le = ground (
  arith,
  length-take m src le,
  length-drop m src,
  get_or-take m (x - off) src 0,
  get_or-drop m (x - (off + m)) src 0,
)

-- Within one block an offset in the file and in the block come to the same.
overlay_block :
    (old d : ℕ → ℕ) (off : ℕ) (src : List ℕ) (x : ℕ)
    → x / bsize ≡ off / bsize
    → off % bsize + length src ≤ bsize
    → d (x % bsize) ≡ old x
    → overlay d (off % bsize) src (x % bsize) ≡ overlay old off src x
overlay_block old d off src x q fits e = elim (Bool-cases (leb off x)) [
  | inl up ↦
      let place : x % bsize - off % bsize ≡ x - off = ground (arith, up) in
      rw (up, place) (ground (arith, up, e))
  | inr down ↦ ground (arith, down, e)
]

module _ (ip n : ℕ) (s : Fs) (h : Layout s ip n) where
  -- A new content for block `b` of the file.
  abbrev pub stored : ℕ → ((ℕ → ℕ) → ℕ → ℕ) → Fs
  stored b f = changed (mapped s ip b) f s

  -- The file keeps its blocks.
  mapped-stored :
      (b : ℕ) (f : (ℕ → ℕ) → ℕ → ℕ) (c : ℕ) → b < n → mapped (stored b f) ip c ≡ mapped s ip c
  mapped-stored b f c lt = elim (Bool-cases (ltb c ndirect)) [
    | inl direct ↦ rw direct refl
    | inr indirect ↦ rw indirect (
        ap (λ (d : ℕ → ℕ). get32 d (4 * (c - ndirect)))
          (update_ne s.block (mapped s ip b) (f (s.block (mapped s ip b)))
            ((s.inode ip).addrs ndirect) (λ e. h.plain b lt (sym e))))
  ]

  pub stored-Layout : (b : ℕ) (f : (ℕ → ℕ) → ℕ → ℕ) → b < n → Layout (stored b f) ip n
  stored-Layout b f lt =
      let same = λ (c : ℕ). mapped-stored b f c lt in
      record {
        there = λ c lc. record {
          below = (h.there c lc).below;
          there = λ e. (h.there c lc).there (sym (same c) ∙ e);
          indirect = (h.there c lc).indirect;
        };
        plain = λ c lc e. h.plain c lc (sym (same c) ∙ e);
        apart = λ c d lc ld e. h.apart c d lc ld (sym (same c) ∙ e ∙ same d);
      }

  -- The bytes of the file when `src` was stored from `off` on, within one block.
  pub byte-stored :
      (off : ℕ) (src : List ℕ) (x : ℕ)
      → off / bsize < n
      → off % bsize + length src ≤ bsize
      → x / bsize < n
      → byte (stored (off / bsize) (put_bytes (off % bsize) src)) ip x
        ≡ overlay (byte s ip) off src x
  byte-stored off src x lo fits lx =
      let b = off / bsize in
      let c = x / bsize in
      let f = put_bytes (off % bsize) src in
      ap (λ a. (stored b f).block a (x % bsize)) (mapped-stored b f c lo)
      ∙ elim (Bool-cases (c == b)) [
        | inl same ↦
            let e = (==_iff c b).0 same in
            ap
              (λ k.
                update s.block (mapped s ip b) (f (s.block (mapped s ip b))) (mapped s ip k)
                  (x % bsize))
              e
            ∙ ap (λ (d : ℕ → ℕ). d (x % bsize))
                (update_self s.block (mapped s ip b) (f (s.block (mapped s ip b))))
            ∙ put_bytes-overlay src (off % bsize) (s.block (mapped s ip b)) (x % bsize)
            ∙ overlay_block (byte s ip) (s.block (mapped s ip b)) off src x e fits
                (ap (λ k. s.block (mapped s ip k) (x % bsize)) (sym e))
        | inr other ↦
            ap (λ (d : ℕ → ℕ). d (x % bsize))
              (update_ne s.block (mapped s ip b) (f (s.block (mapped s ip b))) (mapped s ip c)
                (λ e. ground (arith, h.apart c b lx lo e)))
            ∙ ground (arith, other)
      ]
