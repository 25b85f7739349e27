-- ===== src/Fs/Bitmap/Free.antt =====
-- balloc() and bfree() of xv6-public/fs.c as operations on the set of blocks in use.
use os_11740_assignment.Base.{
  ℕ, ◌%◌, ◌<◌, ◌≡◌, ◌≢◌, refl, sym, ap, subst, ◌∙◌, arith, Bool, true, false, ◌==◌, if◌then◌else◌,
  update, update_self, update_ne, Bool-cases, inl, inr, ==_iff, eq→==,
}
use os_11740_assignment.Base.Run.{ok}
use os_11740_assignment.Log.{absorb}
use os_11740_assignment.Fs.{Superblock, Fs, bpb, bblock}
use os_11740_assignment.Fs.Bitmap.{is_marked, mark, unmark, balloc, bfree}
use os_11740_assignment.Fs.Bitmap.Bits.{is_marked-mark, unmark-mark}
use os_11740_assignment.Fs.Bitmap.Alloc.{in_use, taken, Allocates, balloc-Allocates}

module _ (sb : Superblock) where
  -- The blocks of the bitmap are themselves in use.
  abbrev pub IsReserved : Fs → Type 0
  IsReserved s = (y : ℕ) → y < sb.size → in_use sb s (bblock sb y) ≡ true

  module _ (s : Fs) (x : ℕ) (reserved : IsReserved s) (free : in_use sb s x ≡ false) where
    apart : (y : ℕ) → y < sb.size → bblock sb y ≢ x
    apart y lt e = cc (reserved y lt, free, ap (in_use sb s) e)

    -- The bytes of block `x` of the bitmap after the change.
    abbrev marked : ℕ → ℕ
    marked = mark (x % bpb) (s.block (bblock sb x))

    block-taken :
        (y : ℕ)
        → y < sb.size
        → (taken sb x s).block (bblock sb y)
          ≡ (if bblock sb y == bblock sb x then marked else s.block (bblock sb y))
    block-taken y lt =
        update_ne (update s.block (bblock sb x) marked) x (λ _. 0) (bblock sb y) (apart y lt)

    block_here : x < sb.size → (taken sb x s).block (bblock sb x) ≡ marked
    block_here lt =
        block-taken x lt
        ∙ ap (λ b. if b then marked else s.block (bblock sb x))
            (eq→== (bblock sb x) (bblock sb x) refl)

    is_marked-if :
        (y : ℕ) (same : Bool)
        → (bblock sb y == bblock sb x) ≡ same
        → is_marked (if same then marked else s.block (bblock sb y)) (y % bpb)
          ≡ (if y == x then true else in_use sb s y)
    is_marked-if y true e =
        let q = (==_iff (bblock sb y) (bblock sb x)).0 e in
        let bits : (y % bpb == x % bpb) ≡ (y == x) = ground (arith, q) in
        is_marked-mark (s.block (bblock sb x)) (x % bpb) (y % bpb)
        ∙ ap (λ b. if b then true else is_marked (s.block (bblock sb x)) (y % bpb)) bits
        ∙ ap (λ d. if y == x then true else is_marked (s.block d) (y % bpb)) (sym q)
    is_marked-if y false e =
        let ne : (y == x) ≡ false = ground (arith, e) in
        ap (λ b. if b then true else in_use sb s y) (sym ne)

    -- After balloc() of block `x` the blocks in use are those that were, and `x`.
    pub in_use-taken :
        (y : ℕ)
        → y < sb.size
        → in_use sb (taken sb x s) y ≡ (if y == x then true else in_use sb s y)
    in_use-taken y lt = ap (λ d. is_marked d (y % bpb)) (block-taken y lt) ∙ is_marked-if y _ refl

    -- The bitmap and the blocks when `x` has been freed again.
    abbrev given_back : Fs
    given_back = record (taken sb x s) {
      block =
          update (taken sb x s).block (bblock sb x)
            (unmark (x % bpb) ((taken sb x s).block (bblock sb x)));
      logged = absorb (bblock sb x) (taken sb x s).logged;
    }

    given_back-block : x < sb.size → (b : ℕ) → b ≢ x → (o : ℕ) → given_back.block b o ≡ s.block b o
    given_back-block lt b ne o = elim (Bool-cases (b == bblock sb x)) [
      | inl here ↦
          let q = (==_iff b (bblock sb x)).0 here in
          ap (λ c. given_back.block c o) q
          ∙ ap (λ d. d o) (update_self (taken sb x s).block (bblock sb x) _)
          ∙ ap (λ d. unmark (x % bpb) d o) (block_here lt)
          ∙ unmark-mark (s.block (bblock sb x)) (x % bpb) free o
          ∙ ap (λ c. s.block c o) (sym q)
      | inr other ↦ ground (arith, other, ne)
    ]

    bfree-given_back : x < sb.size → bfree sb x (taken sb x s) ≡ ok tt given_back
    unfolding bfree
    bfree-given_back lt =
        let set : in_use sb (taken sb x s) x ≡ true =
          in_use-taken x lt ∙ ap (λ b. if b then true else in_use sb s x) (eq→== x x refl) in
        rw set refl

-- bfree() of the block that balloc() has just returned restores every other block, byte for byte.
pub bfree-balloc :
    (sb : Superblock) (s : Fs) {x : ℕ} {t : Fs}
    → IsReserved sb s
    → balloc sb s ≡ ok x t
    → (u : Fs) × (bfree sb x t ≡ ok tt u) × ((b : ℕ) → b ≢ x → (o : ℕ) → u.block b o ≡ s.block b o)
bfree-balloc sb s {x} {t} reserved e =
    let a = subst (Allocates sb 0 s) e (balloc-Allocates sb s) in
    (
      given_back sb s x reserved a.2,
      ap (bfree sb x) a.3 ∙ bfree-given_back sb s x reserved a.2 a.1,
      given_back-block sb s x reserved a.2 a.1,
    )
