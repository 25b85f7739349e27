-- ===== src/Proc/Life.antt =====
-- The states of a process in xv6-public/proc.c: allocproc(), fork(), exit(), wait(), scheduler(), sched(),
-- yield() and sleep(). `ptable.lock` is held around the changes of each command, but for a slot that
-- allocproc() has reserved, which nothing else changes; so a command is one step.
pub mod Exclusive
pub mod Commands
pub mod Steps
use os_11740_assignment.Base.{
  ℕ, zero, suc, ◌+◌, Bool, true, false, ◌&&◌, ◌||◌, ◌==◌, Option, none, some, if◌then◌else◌, update,
}
use os_11740_assignment.Base.Run.{Cmd, pure, panics, faults, get, modify, when, ◌>>=◌, ◌>>◌}
use os_11740_assignment.Mmu.{u32}
use os_11740_assignment.Proc.{
  ProcState, unused, embryo, sleeping, runnable, running, zombie, Proc, Table, nproc, is_zombie,
  wakeup1, pass_children,
}

-- `ptable`, `nextpid`, the kernel stack of each process (0 for none), and for each processor the process
-- that `c->proc` points to.
pub record System : Type 0 where
  pub table : Table
  pub nextpid : ℕ
  pub kstack : ℕ → ℕ
  pub proc : ℕ → Option ℕ

abbrev pub is_unused : ProcState → Bool
is_unused unused = true
is_unused embryo = false
is_unused sleeping = false
is_unused runnable = false
is_unused running = false
is_unused zombie = false

abbrev pub is_runnable : ProcState → Bool
is_runnable unused = false
is_runnable embryo = false
is_runnable sleeping = false
is_runnable runnable = true
is_runnable running = false
is_runnable zombie = false

abbrev pub is_running : ProcState → Bool
is_running unused = false
is_running embryo = false
is_running sleeping = false
is_running runnable = false
is_running running = true
is_running zombie = false

abbrev pub set_proc : ℕ → (Proc → Proc) → Cmd System (Unit {0})
set_proc i f = modify (λ s. record s { table = update s.table i (f (s.table i)) })

abbrev pub change_state : ℕ → ProcState → Cmd System (Unit {0})
change_state i st = set_proc i (λ p. record p { state = st })

abbrev pub set_kstack : ℕ → ℕ → Cmd System (Unit {0})
set_kstack i k = modify (λ s. record s { kstack = update s.kstack i k })

-- c->proc = p
abbrev pub set_current : ℕ → Option ℕ → Cmd System (Unit {0})
set_current c p = modify (λ s. record s { proc = update s.proc c p })

-- The first of the `k` processes from `i` on that is UNUSED.
unfoldable pub find_unused : ℕ → ℕ → Table → Option ℕ
find_unused zero i t = none
find_unused (suc k) i t =
    let rest = find_unused k (i + 1) t in if is_unused (t i).state then some i else rest

-- What allocproc() does with the slot that it found; `stack` is what kalloc() returns.
unfoldable pub take_slot : ℕ → Option ℕ → Cmd System (Option ℕ)
take_slot stack none = pure none
take_slot stack (some i) = do
  s ← get
  set_proc i (λ p. record p { state = embryo; pid = s.nextpid })
  modify (λ t. record t { nextpid = u32 (t.nextpid + 1) })
  set_kstack i stack
  if stack == 0 then (do change_state i unused; pure none) else pure (some i)

unfoldable pub allocproc : ℕ → Cmd System (Option ℕ)
unfolding take_slot
allocproc stack = do s ← get; take_slot stack (find_unused nproc 0 s.table)

-- `address i` is the address of process `i` of the table.
module _ (address : ℕ → ℕ) where
  -- The rest of fork() by process `i` for the slot `np`, and the number of the child. `copied` says
  -- whether copyuvm() found memory.
  unfoldable pub fork_child : ℕ → Bool → ℕ → Cmd System (Option ℕ)
  fork_child i copied np =
      if copied
      then (do
        set_proc np (λ p. record p { parent = address i })
        s ← get
        change_state np runnable
        pure (some (s.table np).pid))
      else (do set_kstack np 0; change_state np unused; pure none)

  unfoldable pub fork_rest : ℕ → Bool → Option ℕ → Cmd System (Option ℕ)
  unfolding fork_child
  fork_rest i copied none = pure none
  fork_rest i copied (some np) = fork_child i copied np

  unfoldable pub fork : ℕ → ℕ → Bool → Cmd System (Option ℕ)
  fork i stack copied = do np ← allocproc stack; fork_rest i copied np

  -- Give the processor back to its scheduler. Of its checks, the one of the state is here; those of the
  -- lock, the nesting and the interrupts are about the locks.
  unfoldable pub sched : ℕ → ℕ → Cmd System (Unit {0})
  sched c i = do s ← get; if is_running (s.table i).state then panics else set_current c none

  -- Process `i` runs on processor `c`.
  unfoldable pub yield : ℕ → ℕ → Cmd System (Unit {0})
  unfolding sched
  yield c i = do change_state i runnable; sched c i

  unfoldable pub sleep : ℕ → ℕ → ℕ → Cmd System (Unit {0})
  unfolding sched
  sleep chan c i = do set_proc i (λ p. record p { chan = chan; state = sleeping }); sched c i

  -- What sleep() does when the process runs again.
  abbrev pub tidy_up : ℕ → Cmd System (Unit {0})
  tidy_up i = set_proc i (λ p. record p { chan = 0 })

  -- exit() from the place where it has closed its files and put back its directory.
  unfoldable pub exit : ℕ → ℕ → ℕ → Cmd System (Unit {0})
  unfolding sched
  exit initproc c i = if address i == initproc then panics else (do
    modify (λ s. record s { table = wakeup1 (s.table i).parent s.table })
    modify (λ s. record s { table = pass_children (address i) initproc s.table })
    change_state i zombie
    sched c i)

  -- The loop of wait() over the `k` processes from `j` on: whether there are children, and the first of
  -- them that has exited.
  unfoldable pub find_zombie : ℕ → ℕ → ℕ → Table → Bool × Option ℕ
  find_zombie i zero j t = (false, none)
  find_zombie i (suc k) j t =
      let rest = find_zombie i k (j + 1) t in
      if (t j).parent == address i
      then (true, if is_zombie (t j).state then some j else rest.1)
      else rest

  abbrev pub collect : ℕ → Cmd System ℕ
  collect j = do
    s ← get
    set_kstack j 0
    set_proc j (λ p. record p { pid = 0; parent = 0; killed = false; state = unused })
    pure (s.table j).pid

  -- One round of wait(): the number of the child that was collected, or -1; or it sleeps, and goes on from
  -- the loop.
  pub data Waited : Type 0 where
    returned : Option ℕ → Waited
    slept : Waited

  unfoldable pub wait_for : ℕ → ℕ → Bool → Option ℕ → Cmd System Waited
  unfolding sleep
  wait_for c i havekids (some j) = do pid ← collect j; pure (returned (some pid))
  wait_for c i true none = do
    s ← get
    if (s.table i).killed then pure (returned none) else (do sleep (address i) c i; pure slept)
  wait_for c i false none = pure (returned none)

  unfoldable pub wait : ℕ → ℕ → Cmd System Waited
  wait c i = do s ← get; let found = find_zombie i nproc 0 s.table; wait_for c i found.0 found.1

-- One round of the loop of scheduler() on processor `c`.
unfoldable pub dispatch : ℕ → ℕ → Cmd System (Unit {0})
dispatch c i = do
  s ← get
  when (is_runnable (s.table i).state) (do set_current c (some i); change_state i running)
