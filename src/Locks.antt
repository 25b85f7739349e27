-- ===== src/Locks.antt =====
-- xv6-public/spinlock.c and sleeplock.c: spin locks, the nesting of cli, and sleep locks, on several
-- processors. getcallerpcs(), which records a call stack for debugging, is left out.
pub mod Nesting
pub mod Outcomes
pub mod Guard
pub mod Sleep
mod Tests
use os_11740_assignment.Base.{
  ℕ, zero, suc, ◌+◌, ◌-◌, Bool, true, false, ◌&&◌, ◌==◌, List, [], ◌∷◌, Option, none, some,
  if◌then◌else◌, update,
}
use os_11740_assignment.Base.Run.{Cmd, pure, panics, blocks, get, modify, when, ◌>>=◌, ◌>>◌}

-- The fields of `struct cpu` that count the nesting, and the interrupt flag FL_IF of the processor.
pub record Cpu : Type 0 where
  pub ncli : ℕ
  pub intena : Bool
  pub interrupts : Bool

-- `struct spinlock`. `cpu` is the index of the processor, and `none` a null pointer.
pub record Spinlock : Type 0 where
  pub locked : Bool
  pub cpu : Option ℕ

-- `struct sleeplock`; `lk` is the address of its spin lock.
pub record Sleeplock : Type 0 where
  pub locked : Bool
  pub lk : ℕ
  pub pid : ℕ

-- The processors, the locks by their addresses, and the channels that wakeup() was called on.
pub record Machine : Type 0 where
  pub cpu : ℕ → Cpu
  pub lock : ℕ → Spinlock
  pub sleeplock : ℕ → Sleeplock
  pub woken : List ℕ

abbrev pub set_cpu : ℕ → (Cpu → Cpu) → Cmd Machine (Unit {0})
set_cpu c f = modify (λ s. record s { cpu = update s.cpu c (f (s.cpu c)) })

abbrev pub set_lock : ℕ → Spinlock → Cmd Machine (Unit {0})
set_lock l k = modify (λ s. record s { lock = update s.lock l k })

abbrev pub is_cpu : Option ℕ → ℕ → Bool
is_cpu none c = false
is_cpu (some d) c = d == c

-- initlock()
abbrev pub fresh_lock : Spinlock
fresh_lock = record { locked = false; cpu = none }

abbrev pub initlock : ℕ → Cmd Machine (Unit {0})
initlock l = set_lock l fresh_lock

-- Processor `c` runs the code.
module _ (c : ℕ) where
  unfoldable pub pushcli : Cmd Machine (Unit {0})
  pushcli = do
    s ← get
    set_cpu c (λ p. record p { interrupts = false })
    when ((s.cpu c).ncli == 0) (set_cpu c (λ p. record p { intena = (s.cpu c).interrupts }))
    set_cpu c (λ p. record p { ncli = p.ncli + 1 })

  unfoldable pub popcli : Cmd Machine (Unit {0})
  popcli = do
    s ← get
    if (s.cpu c).interrupts
        then panics
        else (if (s.cpu c).ncli == 0 then panics else (do
          set_cpu c (λ p. record p { ncli = p.ncli - 1 })
          t ← get
          when (((t.cpu c).ncli == 0) && (t.cpu c).intena)
              (set_cpu c (λ p. record p { interrupts = true }))))

  unfoldable pub holding : ℕ → Cmd Machine Bool
  unfolding pushcli popcli
  holding l = do
    pushcli
    s ← get
    let r = (s.lock l).locked && is_cpu (s.lock l).cpu c
    popcli
    pure r

  -- while(xchg(&lk->locked, 1) != 0): a lock that another processor holds makes the code wait.
  unfoldable pub acquire : ℕ → Cmd Machine (Unit {0})
  unfolding pushcli holding
  acquire l = do
    pushcli
    held ← holding l
    when held panics
    s ← get
    when (s.lock l).locked blocks
    set_lock l (record { locked = true; cpu = some c })

  unfoldable pub release : ℕ → Cmd Machine (Unit {0})
  unfolding popcli holding
  release l = do held ← holding l; if held then (do set_lock l fresh_lock; popcli) else panics
