-- ===== src/Locks/Sleep.antt =====
-- The sleep locks of xv6-public/sleeplock.c, for process `pid` on processor `c`. sleep() is the outcome
-- `waits`, and wakeup() is recorded.
use os_11740_assignment.Base.{ℕ, Bool, true, false, ◌&&◌, ◌==◌, ◌∷◌, update}
use os_11740_assignment.Base.Run.{Cmd, pure, blocks, get, modify, when, ◌>>=◌, ◌>>◌}
use os_11740_assignment.Locks.{Sleeplock, Machine, initlock, acquire, release}

abbrev pub set_sleeplock : ℕ → Sleeplock → Cmd Machine (Unit {0})
set_sleeplock a k = modify (λ s. record s { sleeplock = update s.sleeplock a k })

unfoldable pub initsleeplock : ℕ → Cmd Machine (Unit {0})
initsleeplock a = do
  s ← get
  initlock (s.sleeplock a).lk
  set_sleeplock a (record { locked = false; lk = (s.sleeplock a).lk; pid = 0 })

module _ (c pid : ℕ) where
  unfoldable pub acquiresleep : ℕ → Cmd Machine (Unit {0})
  acquiresleep a = do
    s ← get
    acquire c (s.sleeplock a).lk
    t ← get
    when (t.sleeplock a).locked blocks
    set_sleeplock a (record { locked = true; lk = (s.sleeplock a).lk; pid = pid })
    release c (s.sleeplock a).lk

  unfoldable pub releasesleep : ℕ → Cmd Machine (Unit {0})
  releasesleep a = do
    s ← get
    acquire c (s.sleeplock a).lk
    set_sleeplock a (record { locked = false; lk = (s.sleeplock a).lk; pid = 0 })
    modify (λ t. record t { woken = a ∷ t.woken })
    release c (s.sleeplock a).lk

  unfoldable pub holdingsleep : ℕ → Cmd Machine Bool
  holdingsleep a = do
    s ← get
    acquire c (s.sleeplock a).lk
    t ← get
    let r = (t.sleeplock a).locked && ((t.sleeplock a).pid == pid)
    release c (s.sleeplock a).lk
    pure r
