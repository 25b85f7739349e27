-- ===== src/Proc/Life/Steps.antt =====
-- Every run of the steps of xv6-public/proc.c keeps each process on one processor at most.
use os_11740_assignment.Base.{ℕ, ◌≡◌, refl, subst, ap, Bool, Option, none, some}
use os_11740_assignment.Base.Run.{ok}
use os_11740_assignment.Proc.{embryo, wakeup1, kill}
use os_11740_assignment.Proc.Life.{
  System, is_running, allocproc, fork_child, yield, sleep, tidy_up, exit, wait, Waited, dispatch,
}
use os_11740_assignment.Proc.Life.Exclusive.{wakeup1-Keeps, kill-Keeps, Runs, Runs-Keeps}
use os_11740_assignment.Proc.Life.Commands.{
  After, yield-Runs, sleep-Runs, tidy_up-Runs, wait-Runs, exit-Runs, allocproc-Runs,
  fork_child-Runs, dispatch-Runs,
}

module _ (address : ℕ → ℕ) (initproc : ℕ) where
  -- What the processors can do, one step at a time, in any order: a process that runs on a processor
  -- takes a slot, completes or gives up a fork, yields, sleeps, goes on behind sleep(), exits or waits; a
  -- processor in its scheduler looks at a process; and anything wakes sleepers or kills.
  pub data Step (s : System) : System → Type 0 where
    allocates :
        {t : System} (stack : ℕ) (found : Option ℕ) → allocproc stack s ≡ ok found t → Step s t
    forks :
        {t : System} (c i np : ℕ) (copied : Bool) (pid : Option ℕ)
        → s.proc c ≡ some i
        → (s.table np).state ≡ embryo
        → fork_child address i copied np s ≡ ok pid t
        → Step s t
    yields : {t : System} (c i : ℕ) → s.proc c ≡ some i → yield address c i s ≡ ok tt t → Step s t
    sleeps :
        {t : System} (chan c i : ℕ)
        → s.proc c ≡ some i
        → sleep address chan c i s ≡ ok tt t
        → Step s t
    tidies : {t : System} (c i : ℕ) → s.proc c ≡ some i → tidy_up address i s ≡ ok tt t → Step s t
    exits :
        {t : System} (c i : ℕ)
        → s.proc c ≡ some i
        → exit address initproc c i s ≡ ok tt t
        → Step s t
    collects :
        {t : System} (c i : ℕ) (w : Waited address)
        → s.proc c ≡ some i
        → wait address c i s ≡ ok w t
        → Step s t
    dispatches : {t : System} (c i : ℕ) → s.proc c ≡ none → dispatch c i s ≡ ok tt t → Step s t
    wakes : (chan : ℕ) → Step s (record s { table = wakeup1 chan s.table })
    kills : (pid : ℕ) → Step s (record s { table = (kill pid s.table).1 })

  pub data Reaches (s : System) : System → Type 0 where
    start : Reaches s s
    then_step : {t u : System} → Reaches s t → Step t u → Reaches s u

  Step-Runs : (s t : System) → Runs s → Step s t → Runs t
  Step-Runs s t r (allocates stack found e) =
      subst (After Runs) e (allocproc-Runs address initproc s r stack)
  Step-Runs s t r (forks c i np copied pid here fresh e) =
      subst (After Runs) e (fork_child-Runs address initproc s r i np copied (ap is_running fresh))
  Step-Runs s t r (yields c i here e) =
      subst (After Runs) e (yield-Runs address initproc c i s r here)
  Step-Runs s t r (sleeps chan c i here e) =
      subst (After Runs) e (sleep-Runs address initproc c i s r here chan)
  Step-Runs s t r (tidies c i here e) =
      subst (After Runs) e (tidy_up-Runs address initproc c i s r here)
  Step-Runs s t r (exits c i here e) =
      subst (After Runs) e (exit-Runs address initproc c i s r here)
  Step-Runs s t r (collects c i w here e) =
      subst (After Runs) e (wait-Runs address initproc c i s r here)
  Step-Runs s t r (dispatches c i idle e) =
      subst (After Runs) e (dispatch-Runs address initproc s r c i idle)
  Step-Runs s t r (wakes chan) = Runs-Keeps s _ r (wakeup1-Keeps chan s.table) refl
  Step-Runs s t r (kills pid) = Runs-Keeps s _ r (kill-Keeps pid s.table) refl

  -- In every state that these steps lead to, no two processors run the same process, a process that a
  -- processor runs is RUNNING, and a process that is RUNNING is on a processor.
  pub Reaches-Runs : {s t : System} → Runs s → Reaches s t → Runs t
  Reaches-Runs r start = r
  Reaches-Runs r (then_step {t} {u} before step) = Step-Runs t u (Reaches-Runs r before) step
