-- ===== src/Proc.antt =====
-- xv6-public/proc.c: what wakeup(), kill() and exit() do to the table of processes. `ptable.lock`, which
-- the code holds around these loops, is left out.
pub mod Wake
pub mod Orphans
pub mod Life
mod Tests
use os_11740_assignment.Base.{
  ℕ, zero, suc, ◌+◌, Bool, true, false, ◌&&◌, ◌==◌, if◌then◌else◌, update,
}

-- NPROC
abbrev pub nproc : ℕ
nproc = 64

-- enum procstate
pub data ProcState : Type 0 where
  unused embryo sleeping runnable running zombie : ProcState

-- The fields of `struct proc` that the loops read or write. `parent` and `chan` are addresses.
pub record Proc : Type 0 where
  pub state : ProcState
  pub pid : ℕ
  pub parent : ℕ
  pub chan : ℕ
  pub killed : Bool

-- `ptable.proc`
abbrev pub Table : Type 0
Table = ℕ → Proc

abbrev pub is_sleeping : ProcState → Bool
is_sleeping unused = false
is_sleeping embryo = false
is_sleeping sleeping = true
is_sleeping runnable = false
is_sleeping running = false
is_sleeping zombie = false

abbrev pub is_zombie : ProcState → Bool
is_zombie unused = false
is_zombie embryo = false
is_zombie sleeping = false
is_zombie runnable = false
is_zombie running = false
is_zombie zombie = true

-- p->state = s
abbrev pub set_state : ℕ → ProcState → Table → Table
set_state i s t = update t i (record (t i) { state = s })

-- The loop of wakeup1() for the `k` processes from `i` on.
unfoldable pub wakeup_loop : ℕ → ℕ → ℕ → Table → Table
wakeup_loop chan zero i t = t
wakeup_loop chan (suc k) i t =
    wakeup_loop chan k (i + 1)
      (if is_sleeping (t i).state && ((t i).chan == chan) then set_state i runnable t else t)

unfoldable pub wakeup1 : ℕ → Table → Table
wakeup1 chan t = wakeup_loop chan nproc 0 t

-- The loop of kill(), and whether it found the process.
unfoldable pub kill_loop : ℕ → ℕ → ℕ → Table → Bool × Table
kill_loop pid zero i t = (false, t)
kill_loop pid (suc k) i t =
    let rest = kill_loop pid k (i + 1) t in
    let marked : Table = update t i (record (t i) { killed = true }) in
    if (t i).pid == pid
    then (true, if is_sleeping (t i).state then set_state i runnable marked else marked)
    else rest

unfoldable pub kill : ℕ → Table → Bool × Table
kill pid t = kill_loop pid nproc 0 t

-- `curproc` and `initproc` are the addresses of the process that exits and of init.
module _ (curproc initproc : ℕ) where
  -- One round of the loop of exit() that passes children to init.
  unfoldable pub pass_child : ℕ → Table → Table
  pass_child i t =
      let given : Table = update t i (record (t i) { parent = initproc }) in
      if (t i).parent == curproc
      then (if is_zombie (t i).state then wakeup1 initproc given else given)
      else t

  unfoldable pub pass_loop : ℕ → ℕ → Table → Table
  pass_loop zero i t = t
  pass_loop (suc k) i t = pass_loop k (i + 1) (pass_child i t)

  unfoldable pub pass_children : Table → Table
  pass_children t = pass_loop nproc 0 t
