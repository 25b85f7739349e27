-- ===== src/Proc/Tests.antt =====
-- The theorems of proc.c at a small table of processes.
use os_11740_assignment.Base.{
  ℕ, ◌≡◌, refl, arith, true, false, ◌==◌, ◌+◌, ◌*◌, some, none, if◌then◌else◌,
}
use os_11740_assignment.Base.Run.{ok}
use os_11740_assignment.Proc.{Table, sleeping, running, zombie, unused}
use os_11740_assignment.Proc.Life.{
  System, yield, sched, dispatch, fork, fork_rest, fork_child, allocproc, take_slot, find_unused,
  wait, wait_for, find_zombie, returned,
}
use os_11740_assignment.Proc.Life.Exclusive.{Runs}
use os_11740_assignment.Proc.Life.Steps.{start, then_step, yields, dispatches, Reaches-Runs}

-- init is at address 1000 and sleeps on itself; process 2 at 2000 runs, and its child 3 has exited.
abbrev table : Table
table i = record {
  state =
      if i == 0
      then sleeping
      else (if i == 1 then running else (if i == 2 then zombie else unused));
  pid = if i == 0 then 1 else (if i == 1 then 2 else (if i == 2 then 3 else 0));
  parent = if i == 1 then 1000 else (if i == 2 then 2000 else 0);
  chan = if i == 0 then 1000 else 0;
  killed = false;
}

-- Process 1 runs on processor 0 and the other processors are idle.
abbrev system : System
system = record {
  table = table;
  nextpid = 4;
  kstack = λ i. 0;
  proc = λ c. if c == 0 then some 1 else none;
}

abbrev slot_address : ℕ → ℕ
slot_address i = 1000 * (i + 1)

system-Runs : Runs system
system-Runs = record {
  on = λ c i h. ground arith;
  one = λ c d i h g. ground arith;
  by = λ i h. (0, ground arith);
}

-- It yields, and processor 2 takes it up.
after_yield : (t : System) × (yield slot_address 0 1 system ≡ ok tt t) × (t.proc 2 ≡ none)
unfolding yield sched
after_yield = (_, refl, refl)

after_dispatch : (t : System) × (dispatch 2 1 after_yield.0 ≡ ok tt t) × (t.proc 2 ≡ some 1)
unfolding dispatch after_yield
after_dispatch = (_, refl, refl)

Reaches-Runs_example : Runs after_dispatch.0
Reaches-Runs_example = Reaches-Runs slot_address 1000 system-Runs (
    then_step (then_step start (yields 0 1 refl after_yield.1))
      (dispatches 2 1 after_yield.2 after_dispatch.1))

-- fork() by process 1, and its failures without a kernel stack and without memory.
forks_child : (t : System) × (fork slot_address 1 4096 true system ≡ ok (some 4) t)
unfolding fork fork_rest fork_child allocproc take_slot find_unused
forks_child = (_, refl)

no_stack : (t : System) × (fork slot_address 1 0 true system ≡ ok none t)
unfolding fork fork_rest fork_child allocproc take_slot find_unused
no_stack = (_, refl)

no_memory : (t : System) × (fork slot_address 1 4096 false system ≡ ok none t)
unfolding fork fork_rest fork_child allocproc take_slot find_unused
no_memory = (_, refl)

-- wait() by process 1 collects its child 3.
collects_child : (t : System) × (wait slot_address 0 1 system ≡ ok (returned (some 3)) t)
unfolding wait wait_for find_zombie
collects_child = (_, refl)
