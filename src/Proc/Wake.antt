-- ===== src/Proc/Wake.antt =====
-- wakeup1() and kill() of xv6-public/proc.c.
use os_11740_assignment.Base.{
  ℕ, zero, suc, ◌+◌, ◌≤◌, ◌<◌, ◌≡◌, ◌≢◌, ◌∙◌, ap, arith, true, false, ◌&&◌, ltb, leb, ◌==◌,
  if◌then◌else◌, ne→==_false, eq→==, Bool-cases, inl, inr, ==_iff, sym,
}
use os_11740_assignment.Proc.{
  nproc, Proc, Table, is_sleeping, runnable, wakeup_loop, wakeup1, kill_loop, kill,
}

-- What wakeup1() means for one process.
abbrev pub woken : ℕ → Proc → Proc
woken chan p = if is_sleeping p.state && (p.chan == chan) then record p { state = runnable } else p

wakeup_loop-woken :
    (chan k i : ℕ) (t : Table) (x : ℕ)
    → wakeup_loop chan k i t x ≡ (if leb i x && ltb x (i + k) then woken chan (t x) else t x)
unfolding wakeup_loop
wakeup_loop-woken chan zero i t x = ground arith
wakeup_loop-woken chan (suc k) i t x = wakeup_loop-woken chan k (i + 1) _ x ∙ ground arith

-- wakeup1() makes every process of the table that sleeps on the channel runnable, and leaves
-- every other process as it is.
pub wakeup1-woken :
    (chan : ℕ) (t : Table) (x : ℕ)
    → wakeup1 chan t x ≡ (if ltb x nproc then woken chan (t x) else t x)
unfolding wakeup1
wakeup1-woken chan t x = wakeup_loop-woken chan nproc 0 t x ∙ ground arith

-- A process that is told to die, and does not sleep on.
abbrev pub doomed : Proc → Proc
doomed p =
    if is_sleeping p.state
    then record p { killed = true; state = runnable }
    else record p { killed = true }

kill_loop-doomed :
    (pid k i : ℕ) (t : Table) (x : ℕ)
    → i ≤ x
    → x < i + k
    → (t x).pid ≡ pid
    → ((y : ℕ) → i ≤ y → y < x → (t y).pid ≢ pid)
    → ((kill_loop pid k i t).0 ≡ true)
      × ((y : ℕ) → (kill_loop pid k i t).1 y ≡ (if y == x then doomed (t x) else t y))
unfolding kill_loop
kill_loop-doomed pid zero i t x lo hi e first = absurd (omega arith)
kill_loop-doomed pid (suc k) i t x lo hi e first = elim (Bool-cases (x == i)) [
  | inl here ↦
      let same : x ≡ i = (==_iff x i).0 here in
      let found : ((t i).pid == pid) ≡ true =
        eq→== (t i).pid pid (ap (λ z. (t z).pid) (sym same) ∙ e) in
      (ground (arith, found), λ y. ground (arith, found, same))
  | inr later ↦
      let other : ((t i).pid == pid) ≡ false =
        ne→==_false (t i).pid pid (first i (omega arith) (ground arith)) in
      let rest =
        kill_loop-doomed pid k (i + 1) t x (ground arith) (omega arith) e
          (λ y l h. first y (omega arith) h) in
      (ground (arith, other, rest.0), λ y. ground (arith, other, rest.1 y))
]

-- kill() of a number that a process of the table has returns 0, marks the first such process and
-- wakes it if it sleeps, and leaves every other process as it is.
pub kill-doomed :
    (pid : ℕ) (t : Table) (x : ℕ)
    → x < nproc
    → (t x).pid ≡ pid
    → ((y : ℕ) → y < x → (t y).pid ≢ pid)
    → ((kill pid t).0 ≡ true)
      × ((y : ℕ) → (kill pid t).1 y ≡ (if y == x then doomed (t x) else t y))
unfolding kill
kill-doomed pid t x lt e first =
    kill_loop-doomed pid nproc 0 t x (omega arith) (omega arith) e (λ y l h. first y h)
