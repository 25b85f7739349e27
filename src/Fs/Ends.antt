-- ===== src/Fs/Ends.antt =====
-- The operations of xv6-public/fs.c end: the loops of the model are given enough rounds.
pub mod Inodes
pub mod Names
use os_11740_assignment.Base.{
  ℕ, zero, suc, ◌+◌, ◌-◌, ◌*◌, ◌/◌, ◌%◌, ◌≤◌, ◌<◌, ◌≡◌, ◌≢◌, refl, sym, ap, subst, ◌∙◌, arith, Bool,
  true, false, Bool-cases, inl, inr, ltb, ◌==◌, ◌!=◌, Option, none, some, if◌then◌else◌, update,
}
use os_11740_assignment.Base.Run.{
  Run, ok, panic, fault, waits, out_of_fuel, Cmd, pure, get, when, ◌>>=◌, ◌>>◌,
}
use os_11740_assignment.Base.Ends.{
  Ends, returns, panicked, Keeps, IsOrder, Keeps-bind, Keeps-pure, Keeps-get, Keeps-look, Ends-map,
  Keeps-if, Keeps-option, Keeps-panics, Keeps-blocks,
}
use os_11740_assignment.Fs.{
  Superblock, Inode, Fs, ndirect, nindirect, bblock, change, set_inode, bread,
}
use os_11740_assignment.Fs.Bitmap.{balloc, bfree}
use os_11740_assignment.Fs.Bitmap.Alloc.{taken, Allocates, balloc-Allocates}
use os_11740_assignment.Fs.Dinode.{iupdate}
use os_11740_assignment.Fs.Bmap.{
  or_balloc, bmap_direct, bmap, set_addr, free_direct, free_indirect, itrunc,
}

-- The inodes of the cache keep their sizes.
abbrev pub Sizes : Fs → Fs → Type 0
Sizes s t = (i : ℕ) → (t.inode i).size ≡ (s.inode i).size

-- Nothing is said of the state.
abbrev pub Any : Fs → Fs → Type 0
Any s t = Unit

pub Sizes-order : IsOrder Sizes
Sizes-order = record { same = λ s i. refl; trans = λ s t u p q i. q i ∙ p i }

pub Any-order : IsOrder Any
Any-order = record { same = λ s. tt; trans = λ s t u p q. tt }

pub Any-Sizes {κ} : {A : Type κ} {m : Cmd Fs A} → Keeps Sizes m → Keeps Any m
Any-Sizes h = record { at = λ s. Ends-map (h.at s) (λ t p. tt) }

pub change-Sizes : (a : ℕ) (f : (ℕ → ℕ) → ℕ → ℕ) → Keeps Sizes (change a f)
change-Sizes a f = record { at = λ s. returns (λ i. refl) }

module _ {κ} {A : Type κ} where
  pub Sizes-bind {κ'} :
      {B : Type κ'} {m : Cmd Fs A} {k : A → Cmd Fs B}
      → Keeps Sizes m
      → ((a : A) → Keeps Sizes (k a))
      → Keeps Sizes (m >>= k)
  Sizes-bind = Keeps-bind Sizes-order

  pub Sizes-pure : (a : A) → Keeps Sizes (pure a)
  Sizes-pure = Keeps-pure Sizes-order

  pub Sizes-if :
      {m n : Cmd Fs A} (b : Bool) → Keeps Sizes m → Keeps Sizes n → Keeps Sizes (if b then m else n)
  Sizes-if = Keeps-if Sizes-order

pub Sizes-get : Keeps Sizes get
Sizes-get = Keeps-get Sizes-order

pub Sizes-bread : (b : ℕ) → Keeps Sizes (bread b)
Sizes-bread b = Keeps-look Sizes-order (λ s. s.block b)

pub ruleset sizes_rules =
    (Sizes-bind, Sizes-pure, Sizes-if, Sizes-get, Sizes-bread, change-Sizes, Keeps-panics)

module _ {κ} {A : Type κ} where
  pub Any-bind {κ'} :
      {B : Type κ'} {m : Cmd Fs A} {k : A → Cmd Fs B}
      → Keeps Any m
      → ((a : A) → Keeps Any (k a))
      → Keeps Any (m >>= k)
  Any-bind = Keeps-bind Any-order

  -- A step that returns.
  pub Any-step : (f : Fs → A) (g : Fs → Fs) → Keeps Any (λ s. ok (f s) (g s))
  Any-step f g = record { at = λ s. returns tt }

  pub Any-if :
      {m n : Cmd Fs A} (b : Bool) → Keeps Any m → Keeps Any n → Keeps Any (if b then m else n)
  Any-if = Keeps-if Any-order

pub set_inode-Any : (ip : ℕ) (f : Inode → Inode) → Keeps Any (set_inode ip f)
set_inode-Any ip f = record { at = λ s. returns tt }

pub Any-option {κ κ'} :
    {A : Type κ} {B : Type κ'} {m : Cmd Fs B} {k : A → Cmd Fs B} (r : Option A)
    → Keeps Any m
    → ((a : A) → Keeps Any (k a))
    → Keeps Any (elim r as (λ _. Cmd Fs B) [ none ↦ m | some a ↦ k a ])
Any-option = Keeps-option Any-order

pub ruleset any_rules = (Any-bind, Any-step, Any-if, Keeps-panics, Keeps-blocks)

module _ (sb : Superblock) where
  Ends-Allocates : (s : Fs) (r : Run Fs ℕ) → Allocates sb 0 s r → Ends (Sizes s) r
  Ends-Allocates s (ok x t) h = returns (λ i. ap (λ (u : Fs). (u.inode i).size) h.3)
  Ends-Allocates s panic h = panicked
  Ends-Allocates s fault h = elim h [ ]
  Ends-Allocates s waits h = elim h [ ]
  Ends-Allocates s out_of_fuel h = elim h [ ]

  pub balloc-Sizes : Keeps Sizes (balloc sb)
  balloc-Sizes = record { at = λ s. Ends-Allocates s (balloc sb s) (balloc-Allocates sb s) }

  pub bfree-Sizes : (b : ℕ) → Keeps Sizes (bfree sb b)
  unfolding bfree
  bfree-Sizes b = search sizes_rules

  pub iupdate-Sizes : (ip : ℕ) → Keeps Sizes (iupdate sb ip)
  unfolding iupdate
  iupdate-Sizes ip = search sizes_rules

  set_addr-Sizes : (ip i a : ℕ) → Keeps Sizes (set_addr ip i a)
  set_addr-Sizes ip i a = record { at = λ s. returns (λ j. ground arith) }

  bmap_direct-Sizes : (ip i : ℕ) → Keeps Sizes (bmap_direct sb ip i)
  unfolding bmap_direct
  bmap_direct-Sizes ip i = search (sizes_rules, balloc-Sizes, set_addr-Sizes)

  pub bmap-Sizes : (ip bn : ℕ) → Keeps Sizes (bmap sb ip bn)
  unfolding bmap
  bmap-Sizes ip bn = search (sizes_rules, balloc-Sizes, bmap_direct-Sizes) depth 12

  free_direct-Sizes : (ip k i : ℕ) → Keeps Sizes (free_direct sb ip k i)
  unfolding free_direct
  free_direct-Sizes ip zero i = Sizes-pure tt
  free_direct-Sizes ip (suc k) i =
      search (sizes_rules, bfree-Sizes, set_addr-Sizes, free_direct-Sizes ip k) depth 12

  free_indirect-Sizes : (addr k j : ℕ) → Keeps Sizes (free_indirect sb addr k j)
  unfolding free_indirect
  free_indirect-Sizes addr zero j = Sizes-pure tt
  free_indirect-Sizes addr (suc k) j =
      search (sizes_rules, bfree-Sizes, free_indirect-Sizes addr k) depth 12

  pub itrunc-Any : (ip : ℕ) → Keeps Any (itrunc sb ip)
  unfolding itrunc
  itrunc-Any ip =
      search
        (any_rules, Any-Sizes, free_direct-Sizes, free_indirect-Sizes, bfree-Sizes, iupdate-Sizes)
        depth 20
