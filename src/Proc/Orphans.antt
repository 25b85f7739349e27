-- ===== src/Proc/Orphans.antt =====
-- The loop of exit() in xv6-public/proc.c that passes the children of a process to init.
use os_11740_assignment.Base.{
  ℕ, zero, suc, ◌+◌, ◌≤◌, ◌<◌, ◌≡◌, ◌∙◌, ap, sym, arith, true, false, ◌&&◌, ltb, leb, ◌==◌, inl,
  inr, if◌then◌else◌, update, eq→==, Bool-cases, ==_iff,
}
use os_11740_assignment.Proc.{
  nproc, Table, is_sleeping, is_zombie, wakeup1, pass_child, pass_loop, pass_children,
}
use os_11740_assignment.Proc.Wake.{wakeup1-woken}

-- No process of the table sleeps on the channel.
abbrev pub Quiet : ℕ → Table → Type 0
Quiet chan t = (y : ℕ) → y < nproc → (is_sleeping (t y).state && ((t y).chan == chan)) ≡ false

wakeup1-parent : (chan : ℕ) (t : Table) (x : ℕ) → (wakeup1 chan t x).parent ≡ (t x).parent
wakeup1-parent chan t x = ap (λ p. p.parent) (wakeup1-woken chan t x) ∙ ground arith

wakeup1-state :
    (chan : ℕ) (t : Table) (x : ℕ) → is_zombie (wakeup1 chan t x).state ≡ is_zombie (t x).state
wakeup1-state chan t x = ap (λ p. is_zombie p.state) (wakeup1-woken chan t x) ∙ ground arith

wakeup1-Quiet : (chan : ℕ) (t : Table) → Quiet chan (wakeup1 chan t)
wakeup1-Quiet chan t y lt =
    ap (λ p. is_sleeping p.state && (p.chan == chan)) (wakeup1-woken chan t y) ∙ ground arith

module _ (curproc initproc : ℕ) where
  pass_child-parent :
      (i : ℕ) (t : Table) (x : ℕ)
      → (pass_child curproc initproc i t x).parent
        ≡ (if (x == i) && ((t x).parent == curproc) then initproc else (t x).parent)
  unfolding pass_child
  pass_child-parent i t x =
      ground (arith, wakeup1-parent initproc (update t i (record (t i) { parent = initproc })) x)

  pass_loop-parent :
      (k i : ℕ) (t : Table) (x : ℕ)
      → (pass_loop curproc initproc k i t x).parent ≡ (
          if leb i x && (ltb x (i + k) && ((t x).parent == curproc))
          then initproc
          else (t x).parent)
  unfolding pass_loop
  pass_loop-parent zero i t x = ground arith
  pass_loop-parent (suc k) i t x =
      pass_loop-parent k (i + 1) (pass_child curproc initproc i t) x
      ∙ ground (arith, pass_child-parent i t x)

  pass_child-state :
      (i : ℕ) (t : Table) (x : ℕ)
      → is_zombie (pass_child curproc initproc i t x).state ≡ is_zombie (t x).state
  unfolding pass_child
  pass_child-state i t x =
      ground (arith, wakeup1-state initproc (update t i (record (t i) { parent = initproc })) x)

  -- After the loop of exit() every child of the process in the table is init's, and every other
  -- process of the table has the parent it had.
  pub pass_children-parent :
      (t : Table) (x : ℕ)
      → x < nproc
      → (pass_children curproc initproc t x).parent
        ≡ (if (t x).parent == curproc then initproc else (t x).parent)
  unfolding pass_children
  pass_children-parent t x lt = pass_loop-parent nproc 0 t x ∙ ground arith

  pass_child-Quiet :
      (i : ℕ) (t : Table) → Quiet initproc t → Quiet initproc (pass_child curproc initproc i t)
  unfolding pass_child
  pass_child-Quiet i t q y lt =
      ground (
        arith,
        q y lt,
        wakeup1-Quiet initproc (update t i (record (t i) { parent = initproc })) y lt,
      )

  pass_loop-Quiet :
      (k i : ℕ) (t : Table) → Quiet initproc t → Quiet initproc (pass_loop curproc initproc k i t)
  unfolding pass_loop
  pass_loop-Quiet zero i t q = q
  pass_loop-Quiet (suc k) i t q = pass_loop-Quiet k (i + 1) _ (pass_child-Quiet i t q)

  pass_child_zombie :
      (i : ℕ) (t : Table)
      → (t i).parent ≡ curproc
      → is_zombie (t i).state ≡ true
      → Quiet initproc (pass_child curproc initproc i t)
  unfolding pass_child
  pass_child_zombie i t child dead y lt = ground (
    arith,
    eq→== (t i).parent curproc child,
    wakeup1-Quiet initproc (update t i (record (t i) { parent = initproc })) y lt,
  )

  pass_loop_zombie :
      (k i : ℕ) (t : Table) (x : ℕ)
      → i ≤ x
      → x < i + k
      → (t x).parent ≡ curproc
      → is_zombie (t x).state ≡ true
      → Quiet initproc (pass_loop curproc initproc k i t)
  unfolding pass_loop
  pass_loop_zombie zero i t x lo hi child dead = absurd (omega arith)
  pass_loop_zombie (suc k) i t x lo hi child dead = elim (Bool-cases (x == i)) [
    | inl here ↦
        let same : x ≡ i = (==_iff x i).0 here in
        pass_loop-Quiet k (i + 1) _ (
          pass_child_zombie i t (ap (λ z. (t z).parent) (sym same) ∙ child)
            (ap (λ z. is_zombie (t z).state) (sym same) ∙ dead))
    | inr later ↦
        pass_loop_zombie k (i + 1) _ x (ground arith) (omega arith)
          (pass_child-parent i t x ∙ ground (arith, later, child)) (pass_child-state i t x ∙ dead)
  ]

  -- If a child of the process has exited already, then after the loop of exit() no process of the
  -- table still sleeps on init: init, which waits on itself, is awake to collect the child.
  pub pass_children-Quiet :
      (t : Table) (x : ℕ)
      → x < nproc
      → (t x).parent ≡ curproc
      → is_zombie (t x).state ≡ true
      → Quiet initproc (pass_children curproc initproc t)
  unfolding pass_children
  pass_children-Quiet t x lt child dead =
      pass_loop_zombie nproc 0 t x (omega arith) (omega arith) child dead
