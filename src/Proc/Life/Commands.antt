-- ===== src/Proc/Life/Commands.antt =====
-- Each command of xv6-public/proc.c keeps each process on one processor at most.
use os_11740_assignment.Base.{
  ℕ, zero, suc, ◌+◌, ◌≡◌, refl, sym, subst, ap, ◌∙◌, arith, Bool, true, false, ◌==◌, Bool-cases,
  inl, inr, Option, none, some, if◌then◌else◌, update, update_self, update_ne,
}
use os_11740_assignment.Base.Run.{Run, ok, panic, fault, waits, out_of_fuel, and_then, pure}
use os_11740_assignment.Proc.{
  ProcState, unused, embryo, sleeping, runnable, running, zombie, Proc, Table, nproc, is_zombie,
  wakeup1, pass_children,
}
use os_11740_assignment.Proc.Life.{
  System, is_unused, is_runnable, is_running, find_unused, take_slot, allocproc, fork_child, sched,
  yield, sleep, tidy_up, exit, find_zombie, wait_for, wait, dispatch,
}
use os_11740_assignment.Proc.Life.Exclusive.{
  Keeps, Keeps-update, wakeup1-Keeps, pass_children-Keeps, Runs, Runs-Keeps, Runs-leaves,
  Runs-enters,
}

-- What holds of the state in which a command ends, if it returns.
abbrev pub After {ℓ} : {A : Type ℓ} → (System → Type 0) → Run System A → Type 0
After P (ok _ t) = P t
After P panic = Unit
After P fault = Unit
After P waits = Unit
After P out_of_fuel = Unit

After-pure :
    {A : Type 0} (P : System → Type 0) (a : A) (m : Run System (Unit {0}))
    → After P m
    → After P (and_then m (λ _. pure a))
After-pure P a (ok _ t) h = h
After-pure P a panic h = tt
After-pure P a fault h = tt
After-pure P a waits h = tt
After-pure P a out_of_fuel h = tt

not_running_zombie : (s : ProcState) → is_zombie s ≡ true → is_running s ≡ false
not_running_zombie zombie e = refl
not_running_zombie unused e = refl
not_running_zombie embryo e = refl
not_running_zombie sleeping e = refl
not_running_zombie runnable e = refl
not_running_zombie running e = absurd (ground (arith, e))

not_running_unused : (s : ProcState) → is_unused s ≡ true → is_running s ≡ false
not_running_unused unused e = refl
not_running_unused embryo e = refl
not_running_unused sleeping e = refl
not_running_unused runnable e = refl
not_running_unused zombie e = refl
not_running_unused running e = absurd (ground (arith, e))

not_running_runnable : (s : ProcState) → is_runnable s ≡ true → is_running s ≡ false
not_running_runnable runnable e = refl
not_running_runnable unused e = refl
not_running_runnable embryo e = refl
not_running_runnable sleeping e = refl
not_running_runnable zombie e = refl
not_running_runnable running e = absurd (ground (arith, e))

-- Two changes of one process.
Keeps-twice :
    (t : Table) (i : ℕ) (p q : Proc)
    → is_running q.state ≡ is_running (t i).state
    → Keeps t (update (update t i p) i q)
Keeps-twice t i p q e j = ground (arith, e)

-- The slot has that state, if there is one.
abbrev Slot : (ProcState → Bool) → Table → Option ℕ → Type 0
Slot f t none = Unit
Slot f t (some j) = f (t j).state ≡ true

find_unused-Slot : (k i : ℕ) (t : Table) → Slot is_unused t (find_unused k i t)
unfolding find_unused
find_unused-Slot zero i t = tt
find_unused-Slot (suc k) i t =
    Slot-if (is_unused (t i).state) (find_unused k (i + 1) t) refl (find_unused-Slot k (i + 1) t)
  where
    Slot-if :
        (b : Bool) (r : Option ℕ)
        → is_unused (t i).state ≡ b
        → Slot is_unused t r
        → Slot is_unused t (if b then some i else r)
    Slot-if false r e h = h
    Slot-if true r e h = e

module _ (address : ℕ → ℕ) (initproc : ℕ) where
  find_zombie-Slot : (i k j : ℕ) (t : Table) → Slot is_zombie t (find_zombie address i k j t).1
  unfolding find_zombie
  find_zombie-Slot i zero j t = tt
  find_zombie-Slot i (suc k) j t =
      Slot-if ((t j).parent == address i) (is_zombie (t j).state)
        (find_zombie address i k (j + 1) t) refl (find_zombie-Slot i k (j + 1) t)
    where
      Slot-if :
          (b z : Bool) (r : Bool × Option ℕ)
          → is_zombie (t j).state ≡ z
          → Slot is_zombie t r.1
          → Slot is_zombie t (if b then (true, if z then some j else r.1) else r).1
      Slot-if false z r e h = h
      Slot-if true false r e h = h
      Slot-if true true r e h = e

  -- Processor `c` goes from process `i`, which is now `p`, to its scheduler.
  abbrev left : ℕ → ℕ → Proc → System → System
  left c i p s = record s { table = update s.table i p; proc = update s.proc c none }

  left-Runs :
      (c i : ℕ) (p : Proc) (s : System)
      → Runs s
      → s.proc c ≡ some i
      → is_running p.state ≡ false
      → Runs (left c i p s)
  left-Runs c i p s r here stops =
      Runs-leaves s (left c i p s) c i r here
        (ap (λ q. is_running q.state) (update_self s.table i p) ∙ stops)
        (λ j ne. ap (λ q. is_running q.state) (update_ne s.table i p j ne)) refl

  sched-left :
      (c i : ℕ) (p : Proc) (s : System)
      → is_running p.state ≡ false
      → sched address c i (record s { table = update s.table i p }) ≡ ok tt (left c i p s)
  unfolding sched
  sched-left c i p s stops = ground (arith, stops)

  -- The commands of process `i`, which runs on processor `c`.
  module _ (c i : ℕ) (s : System) (r : Runs s) (here : s.proc c ≡ some i) where
    sched-Runs :
        (p : Proc)
        → is_running p.state ≡ false
        → After Runs (sched address c i (record s { table = update s.table i p }))
    sched-Runs p stops =
        subst (After Runs) (sym (sched-left c i p s stops)) (left-Runs c i p s r here stops)

    pub yield-Runs : After Runs (yield address c i s)
    unfolding yield
    yield-Runs = sched-Runs (record (s.table i) { state = runnable }) refl

    pub sleep-Runs : (chan : ℕ) → After Runs (sleep address chan c i s)
    unfolding sleep
    sleep-Runs chan = sched-Runs (record (s.table i) { chan = chan; state = sleeping }) refl

    pub tidy_up-Runs : After Runs (tidy_up address i s)
    tidy_up-Runs =
        Runs-Keeps s _ r (Keeps-update s.table i (record (s.table i) { chan = 0 }) refl) refl

    wait_for-Runs :
        (havekids : Bool) (found : Option ℕ)
        → Slot is_zombie s.table found
        → After Runs (wait_for address c i havekids found s)
    unfolding wait_for
    wait_for-Runs havekids (some j) gone =
        Runs-Keeps s _ r
          (Keeps-update s.table j _ (sym (not_running_zombie (s.table j).state gone))) refl
    wait_for-Runs true none gone = elim (Bool-cases (s.table i).killed) [
      | inl doomed ↦ rw doomed r
      | inr alive ↦ rw alive (After-pure Runs _ _ (sleep-Runs (address i)))
    ]
    wait_for-Runs false none gone = r

    pub wait-Runs : After Runs (wait address c i s)
    unfolding wait
    wait-Runs =
        wait_for-Runs (find_zombie address i nproc 0 s.table).0
          (find_zombie address i nproc 0 s.table).1 (find_zombie-Slot i nproc 0 s.table)

    pub exit-Runs : After Runs (exit address initproc c i s)
    unfolding exit
    exit-Runs = elim (Bool-cases (address i == initproc)) [
      | inl init ↦ rw init tt
      | inr other ↦
          let awake : Table = wakeup1 (s.table i).parent s.table in
          let passed : Table = pass_children (address i) initproc awake in
          rw other (
            subst (After Runs)
              (sym (
                sched-left c i (record (passed i) { state = zombie }) (record s { table = passed })
                  refl))
              (left-Runs c i (record (passed i) { state = zombie }) (record s { table = passed })
                (Runs-Keeps s (record s { table = passed }) r
                  (λ j.
                    pass_children-Keeps (address i) initproc awake j
                    ∙ wakeup1-Keeps (s.table i).parent s.table j)
                  refl)
                here refl))
    ]

  -- The commands that change no process that is RUNNING.
  module _ (s : System) (r : Runs s) where
    take_slot-Runs :
        (stack : ℕ) (found : Option ℕ)
        → Slot is_unused s.table found
        → After Runs (take_slot stack found s)
    unfolding take_slot
    take_slot-Runs stack none h = r
    take_slot-Runs stack (some i) h =
        let p = record (s.table i) { state = embryo; pid = s.nextpid } in
        elim (Bool-cases (stack == 0)) [
          | inl empty ↦ rw empty (
              Runs-Keeps s _ r
                (Keeps-twice s.table i p _ (sym (not_running_unused (s.table i).state h))) refl)
          | inr given ↦ rw given (
              Runs-Keeps s _ r
                (Keeps-update s.table i p (sym (not_running_unused (s.table i).state h))) refl)
        ]

    pub allocproc-Runs : (stack : ℕ) → After Runs (allocproc stack s)
    unfolding allocproc
    allocproc-Runs stack =
        take_slot-Runs stack (find_unused nproc 0 s.table) (find_unused-Slot nproc 0 s.table)

    pub fork_child-Runs :
        (i np : ℕ) (copied : Bool)
        → is_running (s.table np).state ≡ false
        → After Runs (fork_child address i copied np s)
    unfolding fork_child
    fork_child-Runs i np true fresh = Runs-Keeps s _ r (Keeps-twice s.table np _ _ (sym fresh)) refl
    fork_child-Runs i np false fresh =
        Runs-Keeps s _ r
          (Keeps-update s.table np (record (s.table np) { state = unused }) (sym fresh)) refl

    pub dispatch-Runs : (c i : ℕ) → s.proc c ≡ none → After Runs (dispatch c i s)
    unfolding dispatch
    dispatch-Runs c i idle = elim (Bool-cases (is_runnable (s.table i).state)) [
      | inl ready ↦ rw ready (
          Runs-enters s _ c i r idle (not_running_runnable (s.table i).state ready)
            (ap (λ q. is_running q.state)
              (update_self s.table i (record (s.table i) { state = running })))
            (λ j ne.
              ap (λ q. is_running q.state)
                (update_ne s.table i (record (s.table i) { state = running }) j ne))
            refl)
      | inr other ↦ rw other r
    ]
