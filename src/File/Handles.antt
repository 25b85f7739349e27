-- ===== src/File/Handles.antt =====
-- The references to the open files of xv6-public/file.c: each entry counts the handles on it.
use os_11740_assignment.Base.{
  ℕ, zero, suc, ◌+◌, ◌-◌, ◌^◌, ◌≤◌, ◌<◌, ◌≡◌, ◌≢◌, refl, ◌∙◌, ap, arith, Bool, true, false, List,
  [], ◌∷◌, Bool-cases, inl, inr, sym, eq→==, ==_iff, Option, none, some, ◌==◌, if◌then◌else◌,
  length,
}
use mathlib.Core.Bool.{false≢true}
use os_11740_assignment.File.{File, Ftable, find_free}

-- How many of the handles are on file `f`.
unfoldable pub uses : ℕ → List ℕ → ℕ
uses f [] = 0
uses f (g ∷ gs) = (if g == f then 1 else 0) + uses f gs

-- The handles without one of those on `f`.
unfoldable pub without : ℕ → List ℕ → List ℕ
without f [] = []
without f (g ∷ gs) = if g == f then gs else g ∷ without f gs

-- Every entry counts the handles on it, there are no more than an `int` can count, and the lock is free.
pub record Counts (handles : List ℕ) (t : Ftable) : Type 0 where
  pub count : (f : ℕ) → (t.file f).ref ≡ uses f handles
  pub few : length handles < 2 ^ 31
  pub unlocked : t.locked ≡ false

pub uses-length : (f : ℕ) (gs : List ℕ) → uses f gs ≤ length gs
unfolding uses
uses-length f [] = omega arith
uses-length f (g ∷ gs) = ground (arith, uses-length f gs)

pub uses-without : (f : ℕ) (gs : List ℕ) → uses f (without f gs) ≡ uses f gs - 1
unfolding uses without
uses-without f [] = refl
uses-without f (g ∷ gs) = ground (arith, uses-without f gs)

pub uses-without_ne : (f h : ℕ) (gs : List ℕ) → h ≢ f → uses h (without f gs) ≡ uses h gs
unfolding uses without
uses-without_ne f h [] ne = refl
uses-without_ne f h (g ∷ gs) ne = ground (arith, uses-without_ne f h gs ne)

pub length-without : (f : ℕ) (gs : List ℕ) → length (without f gs) ≤ length gs
unfolding without
length-without f [] = omega arith
length-without f (g ∷ gs) = ground (arith, length-without f gs)

-- What filealloc() finds has no reference; if it finds nothing, no entry is free.
unfoldable pub Found : (ℕ → File) → ℕ → ℕ → Option ℕ → Type 0
Found file k i none = (f : ℕ) → i ≤ f → f < i + k → (file f).ref ≢ 0
Found file k i (some f) = (i ≤ f) × (f < i + k) × ((file f).ref ≡ 0)

Found-suc :
    (file : ℕ → File) (k i : ℕ) (r : Option ℕ)
    → ((file i).ref == 0) ≡ false
    → Found file k (i + 1) r
    → Found file (suc k) i r
unfolding Found
Found-suc file k i none e h = λ f lo hi. elim (Bool-cases (f == i)) [
  | inl same ↦ λ z.
      false≢true
        (sym e ∙ eq→== (file i).ref 0 (ap (λ x. (file x).ref) (sym ((==_iff f i).0 same)) ∙ z))
  | inr other ↦ h f (ground arith) (omega arith)
]
Found-suc file k i (some f) e h = (omega (arith, h.0), omega (arith, h.1), h.2)

Found-if :
    (file : ℕ → File) (k i : ℕ) (r : Option ℕ) (b : Bool)
    → ((file i).ref == 0) ≡ b
    → Found file k (i + 1) r
    → Found file (suc k) i (if b then some i else r)
unfolding Found
Found-if file k i r true e h = (omega arith, omega arith, (==_iff (file i).ref 0).0 e)
Found-if file k i r false e h = Found-suc file k i r e h

Found-end : (file : ℕ → File) (i : ℕ) → Found file zero i none
unfolding Found
Found-end file i = λ f lo hi. absurd (omega arith)

pub find_free-Found : (file : ℕ → File) (k i : ℕ) → Found file k i (find_free file k i)
unfolding find_free
find_free-Found file zero i = Found-end file i
find_free-Found file (suc k) i = Found-if file k i _ _ refl (find_free-Found file k (i + 1))
