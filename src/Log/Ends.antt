-- ===== src/Log/Ends.antt =====
-- How a piece of log.c ends: it gets through, or the power fails at one of its writes.
use os_11740_assignment.Base.{ℕ, ◌-◌, ◌<◌, ◌≡◌, arith, Bool-cases, inl, inr, ◌==◌, ==_iff, update}
use os_11740_assignment.Log.{Block, Disk, Log, Result, done, crashed, Cmd, and_then, ◌>>◌, bwrite}

pub data Ends {A : Type 0} (P : A → Log → Type 0) (C : Disk → Type 0) : Result A → Type 0 where
  through : {a : A} {s : Log} → P a s → Ends P C (done a s)
  failed : {d : Disk} → C d → Ends P C (crashed d)

module _ {A : Type 0} {P : A → Log → Type 0} {C : Disk → Type 0} where
  pub bind :
      {B : Type 0} {Q : B → Log → Type 0} {r : Result A} {k : A → Cmd B}
      → Ends P C r
      → ((a : A) (s : Log) → P a s → Ends Q C (k a s))
      → Ends Q C (and_then r k)
  bind (through p) next = next _ _ p
  bind (failed c) next = failed c

  pub mono :
      {Q : A → Log → Type 0} {E : Disk → Type 0} {r : Result A}
      → Ends P C r
      → ((a : A) (s : Log) → P a s → Q a s)
      → ((d : Disk) → C d → E d)
      → Ends Q E r
  mono (through p) f g = through (f _ _ p)
  mono (failed c) f g = failed (g _ c)

-- The state after a write that goes through.
abbrev pub written : ℕ → Block → Log → Log
written b block s = record s {
  disk = update s.disk b block;
  cache = update s.cache b block;
  life = s.life - 1;
}

-- A write: the power fails before it, or the rest runs behind it.
pub bwrite_then :
    {A : Type 0} {P : A → Log → Type 0} {C : Disk → Type 0} (b : ℕ) (block : Block) (s : Log)
    (k : Cmd A)
    → (s.life ≡ 0 → C s.disk)
    → (0 < s.life → Ends P C (k (written b block s)))
    → Ends P C ((bwrite b block >> k) s)
unfolding bwrite
bwrite_then b block s k dies lives = elim (Bool-cases (s.life == 0)) [
  | inl e ↦ rw e (failed (dies ((==_iff _ _).0 e)))
  | inr e ↦ rw e (lives (ground arith))
]

-- The same where nothing follows.
pub bwrite_last :
    {P : Unit {0} → Log → Type 0} {C : Disk → Type 0} (b : ℕ) (block : Block) (s : Log)
    → (s.life ≡ 0 → C s.disk)
    → (0 < s.life → P tt (written b block s))
    → Ends P C (bwrite b block s)
unfolding bwrite
bwrite_last b block s dies lives = elim (Bool-cases (s.life == 0)) [
  | inl e ↦ rw e (failed (dies ((==_iff _ _).0 e)))
  | inr e ↦ rw e (through (lives (ground arith)))
]
