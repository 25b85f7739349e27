-- ===== src/Proc/Life/Exclusive.antt =====
-- No two processors of xv6-public/proc.c run the same process, and a process is RUNNING exactly while one
-- does.
use os_11740_assignment.Base.{
  ℕ, zero, suc, ◌+◌, ◌≡◌, ◌≢◌, refl, sym, ap, ◌∙◌, arith, true, false, ◌&&◌, ◌==◌, ==_iff,
  Bool-cases, inl, inr, none, some, if◌then◌else◌, update, update_self, update_ne,
}
use os_11740_assignment.Proc.{
  ProcState, unused, embryo, sleeping, runnable, running, zombie, Proc, Table, is_sleeping,
  set_state, wakeup_loop, wakeup1, kill_loop, kill, pass_child, pass_loop, pass_children,
}
use os_11740_assignment.Proc.Life.{System, is_running}

true_ne_false : true ≡ false → ⊥
true_ne_false e = ground (arith, e)

none_ne_some : {i : ℕ} → none ≡ some i → ⊥
none_ne_some {i} e = ground (arith, e)

some_injective : {i j : ℕ} → some i ≡ some j → i ≡ j
some_injective {i} {j} e = ground (arith, e)

-- The same processes are RUNNING.
abbrev pub Keeps : Table → Table → Type 0
Keeps t u = (i : ℕ) → is_running (u i).state ≡ is_running (t i).state

-- One process changes, which is RUNNING neither before nor after.
pub Keeps-update :
    (t : Table) (i : ℕ) (p : Proc)
    → is_running p.state ≡ is_running (t i).state
    → Keeps t (update t i p)
Keeps-update t i p e j = ground (arith, e)

is_running_asleep : (s : ProcState) → is_sleeping s ≡ true → is_running s ≡ false
is_running_asleep sleeping e = refl
is_running_asleep unused e = absurd (ground (arith, e))
is_running_asleep embryo e = absurd (ground (arith, e))
is_running_asleep runnable e = absurd (ground (arith, e))
is_running_asleep running e = absurd (ground (arith, e))
is_running_asleep zombie e = absurd (ground (arith, e))

wakeup_loop-Keeps : (chan k i : ℕ) (t : Table) → Keeps t (wakeup_loop chan k i t)
unfolding wakeup_loop
wakeup_loop-Keeps chan zero i t j = refl
wakeup_loop-Keeps chan (suc k) i t j = wakeup_loop-Keeps chan k (i + 1) _ j ∙ wakes chan i t j
  where
    wakes :
        (chan i : ℕ) (t : Table)
        → Keeps t
            (if is_sleeping (t i).state && ((t i).chan == chan) then set_state i runnable t else t)
    wakes chan i t j = ground (arith, is_running_asleep (t i).state)

pub wakeup1-Keeps : (chan : ℕ) (t : Table) → Keeps t (wakeup1 chan t)
unfolding wakeup1
wakeup1-Keeps chan t = wakeup_loop-Keeps chan _ 0 t

pass_child-Keeps : (curproc initproc i : ℕ) (t : Table) → Keeps t (pass_child curproc initproc i t)
unfolding pass_child
pass_child-Keeps curproc initproc i t j =
    let given : Table = update t i (record (t i) { parent = initproc }) in
    ground (arith, wakeup1-Keeps initproc given j)

pass_loop-Keeps :
    (curproc initproc k i : ℕ) (t : Table) → Keeps t (pass_loop curproc initproc k i t)
unfolding pass_loop
pass_loop-Keeps curproc initproc zero i t j = refl
pass_loop-Keeps curproc initproc (suc k) i t j =
    pass_loop-Keeps curproc initproc k (i + 1) _ j ∙ pass_child-Keeps curproc initproc i t j

pub pass_children-Keeps :
    (curproc initproc : ℕ) (t : Table) → Keeps t (pass_children curproc initproc t)
unfolding pass_children
pass_children-Keeps curproc initproc t = pass_loop-Keeps curproc initproc _ 0 t

kill_loop-Keeps : (pid k i : ℕ) (t : Table) → Keeps t (kill_loop pid k i t).1
unfolding kill_loop
kill_loop-Keeps pid zero i t j = refl
kill_loop-Keeps pid (suc k) i t j =
    ground (arith, kill_loop-Keeps pid k (i + 1) t j, is_running_asleep (t i).state)

pub kill-Keeps : (pid : ℕ) (t : Table) → Keeps t (kill pid t).1
unfolding kill
kill-Keeps pid t = kill_loop-Keeps pid _ 0 t

-- `proc` says which process each processor runs: no two the same, and exactly those that are RUNNING.
pub record Runs (s : System) : Type 0 where
  pub on : (c i : ℕ) → s.proc c ≡ some i → is_running (s.table i).state ≡ true
  pub one : (c d i : ℕ) → s.proc c ≡ some i → s.proc d ≡ some i → c ≡ d
  pub by : (i : ℕ) → is_running (s.table i).state ≡ true → (c : ℕ) × (s.proc c ≡ some i)

-- The same processes run, on the same processors.
pub Runs-Keeps : (s t : System) → Runs s → Keeps s.table t.table → t.proc ≡ s.proc → Runs t
Runs-Keeps s t r k e = record {
  on = λ c i h. k i ∙ r.on c i (sym (ap (λ f. f c) e) ∙ h);
  one = λ c d i h g. r.one c d i (sym (ap (λ f. f c) e) ∙ h) (sym (ap (λ f. f d) e) ∙ g);
  by = λ i h. let b = r.by i (sym (k i) ∙ h) in (b.0, ap (λ f. f b.0) e ∙ b.1);
}

-- Processor `c` leaves process `i`, which is RUNNING no more.
pub Runs-leaves :
    (s t : System) (c i : ℕ)
    → Runs s
    → s.proc c ≡ some i
    → is_running (t.table i).state ≡ false
    → ((j : ℕ) → j ≢ i → is_running (t.table j).state ≡ is_running (s.table j).state)
    → t.proc ≡ update s.proc c none
    → Runs t
Runs-leaves s t c i r here stops others e = record {
  on = λ d j h.
      let b = back d j h in others j (λ q. b.0 (r.one d c i (b.1 ∙ ap some q) here)) ∙ r.on d j b.1;
  one = λ d f j h g. r.one d f j (back d j h).1 (back f j g).1;
  by = λ j h.
      let ne : j ≢ i =
        λ q. true_ne_false (sym h ∙ ap (λ x. is_running (t.table x).state) q ∙ stops) in
      let b = r.by j (sym (others j ne) ∙ h) in
      (
        b.0,
        ap (λ f. f b.0) e
            ∙ update_ne s.proc c none b.0 (λ q. ne (some_injective (sym b.1 ∙ ap s.proc q ∙ here)))
            ∙ b.1,
      );
}
  where
    back : (d j : ℕ) → t.proc d ≡ some j → (d ≢ c) × (s.proc d ≡ some j)
    back d j h =
        let ne : d ≢ c = λ q. none_ne_some (
          sym (update_self s.proc c none)
          ∙ ap (update s.proc c none) (sym q)
          ∙ sym (ap (λ f. f d) e)
          ∙ h) in
        (ne, sym (update_ne s.proc c none d ne) ∙ sym (ap (λ f. f d) e) ∙ h)

-- Processor `c`, which ran none, takes up process `i`.
pub Runs-enters :
    (s t : System) (c i : ℕ)
    → Runs s
    → s.proc c ≡ none
    → is_running (s.table i).state ≡ false
    → is_running (t.table i).state ≡ true
    → ((j : ℕ) → j ≢ i → is_running (t.table j).state ≡ is_running (s.table j).state)
    → t.proc ≡ update s.proc c (some i)
    → Runs t
Runs-enters s t c i r free stopped starts others e = record {
  on = λ d j h. elim (Bool-cases (j == i)) [
    | inl same ↦ ap (λ x. is_running (t.table x).state) ((==_iff j i).0 same) ∙ starts
    | inr other ↦
        let ne : j ≢ i = λ q. ground (arith, other, q) in
        others j ne ∙ r.on d j (elsewhere d j ne h)
  ];
  one = λ d f j h g. elim (Bool-cases (j == i)) [
    | inl same ↦
        let q = (==_iff j i).0 same in here d (h ∙ ap some q) ∙ sym (here f (g ∙ ap some q))
    | inr other ↦
        let ne : j ≢ i = λ q. ground (arith, other, q) in
        r.one d f j (elsewhere d j ne h) (elsewhere f j ne g)
  ];
  by = λ j h. elim (Bool-cases (j == i)) [
    | inl same ↦
        (c, ap (λ f. f c) e ∙ update_self s.proc c (some i) ∙ ap some (sym ((==_iff j i).0 same)))
    | inr other ↦
        let b = r.by j (sym (others j (λ q. ground (arith, other, q))) ∙ h) in
        (
          b.0,
          ap (λ f. f b.0) e
              ∙ update_ne s.proc c (some i) b.0
                  (λ q. none_ne_some (sym free ∙ ap s.proc (sym q) ∙ b.1))
              ∙ b.1,
        )
  ];
}
  where
    at : (d : ℕ) → d ≢ c → t.proc d ≡ s.proc d
    at d ne = ap (λ f. f d) e ∙ update_ne s.proc c (some i) d ne

    elsewhere : (d j : ℕ) → j ≢ i → t.proc d ≡ some j → s.proc d ≡ some j
    elsewhere d j ne h =
        sym (
          at d (λ q. ne (
            some_injective (
              sym h
              ∙ ap (λ f. f d) e
              ∙ ap (update s.proc c (some i)) q
              ∙ update_self s.proc c (some i)))))
        ∙ h

    here : (d : ℕ) → t.proc d ≡ some i → d ≡ c
    here d h = elim (Bool-cases (d == c)) [
      | inl same ↦ (==_iff d c).0 same
      | inr other ↦ absurd (
          true_ne_false (sym (r.on d i (sym (at d (λ q. ground (arith, other, q))) ∙ h)) ∙ stopped))
    ]
