-- ===== src/Locks/Outcomes.antt =====
-- The outcomes of acquire() and release() of xv6-public/spinlock.c.
use os_11740_assignment.Base.{
  ℕ, ◌+◌, ◌<◌, ◌≡◌, ◌≢◌, inl, inr, ap, ◌∙◌, arith, Bool, true, false, ◌&&◌, Bool-cases, some,
  update,
}
use os_11740_assignment.Base.Run.{Run, ok, panic, fault, waits, out_of_fuel}
use os_11740_assignment.Locks.Nesting.{
  Apart-trans, IsOff, pushcli-Apart, popcli-Apart, holding-Apart,
}
use os_11740_assignment.Locks.{Spinlock, Machine, fresh_lock, is_cpu, acquire, release}

-- The processor holds the lock.
abbrev pub holds : ℕ → Spinlock → Bool
holds c k = k.locked && is_cpu k.cpu c

-- `t` is `s` with another lock `k` at `l`, and another processor `c`.
pub record Puts (c l : ℕ) (k : Spinlock) (s t : Machine) : Type 0 where
  pub lock : t.lock ≡ update s.lock l k
  pub cpu : (d : ℕ) → d ≢ c → t.cpu d ≡ s.cpu d

abbrev pub taken : ℕ → Spinlock
taken c = record { locked = true; cpu = some c }

module _ (c l : ℕ) (s : Machine) where
  -- Every outcome of acquire(): a panic if the processor holds the lock itself, a wait if another does,
  -- and else the lock is the processor's, which is nested one deeper with interrupts off.
  abbrev pub Acquires : Run Machine (Unit {0}) → Type 0
  Acquires (ok _ t) =
      ((s.lock l).locked ≡ false)
      × Puts c l (taken c) s t
      × ((t.cpu c).ncli ≡ (s.cpu c).ncli + 1)
      × ((t.cpu c).interrupts ≡ false)
  Acquires panic = holds c (s.lock l) ≡ true
  Acquires fault = ⊥
  Acquires waits = ((s.lock l).locked ≡ true) × (holds c (s.lock l) ≡ false)
  Acquires out_of_fuel = ⊥

  -- Every outcome of release(): a panic if the processor does not hold the lock; else the lock is free,
  -- and the processor is nested one level less, with interrupts on only if that was the last level.
  abbrev pub Releases : Run Machine (Unit {0}) → Type 0
  Releases (ok _ t) =
      (holds c (s.lock l) ≡ true)
      × Puts c l fresh_lock s t
      × ((t.cpu c).ncli + 1 ≡ (s.cpu c).ncli)
      × IsOff (t.cpu c)
  Releases panic = holds c (s.lock l) ≡ false
  Releases fault = ⊥
  Releases waits = ⊥
  Releases out_of_fuel = ⊥

  pub acquire-Acquires : IsOff (s.cpu c) → Acquires (acquire c l s)
  unfolding acquire
  acquire-Acquires off =
      let p = pushcli-Apart c s in
      let q = holding-Apart c l p.0 (λ _. p.4) in
      let both = Apart-trans c p.2 q.2 in
      elim (Bool-cases (s.lock l).locked) [
        | inr free ↦
            rw (p.1, q.1, p.2.lock, free, both.lock, free)
              (
                free,
                record { lock = ap (λ f. update f l (taken c)) both.lock; cpu = both.cpu },
                q.3 ∙ p.3,
                q.4 ∙ p.4,
              )
        | inl held ↦ elim (Bool-cases (is_cpu (s.lock l).cpu c)) [
          | inl mine ↦ rw (p.1, q.1, p.2.lock, held, mine) (ground (arith, held, mine))
          | inr other ↦
              rw (p.1, q.1, p.2.lock, held, other, both.lock, held)
                (held, ground (arith, held, other))
        ]
      ]

  pub release-Releases :
      IsOff (s.cpu c) → (holds c (s.lock l) ≡ true → 0 < (s.cpu c).ncli) → Releases (release c l s)
  unfolding release
  release-Releases off nested =
      let q = holding-Apart c l s off in
      elim (Bool-cases (holds c (s.lock l))) [
        | inr other ↦ rw (q.1, other) other
        | inl mine ↦
            let freed : Machine = record q.0 { lock = update q.0.lock l fresh_lock } in
            let inside = nested mine in
            let r = popcli-Apart c freed (q.4 ∙ off inside) (omega (arith, q.3, inside)) in
            rw (q.1, mine, r.1)
              (
                mine,
                record {
                  lock = r.2.lock ∙ ap (λ f. update f l fresh_lock) q.2.lock;
                  cpu = λ d ne. r.2.cpu d ne ∙ q.2.cpu d ne;
                },
                omega (arith, r.3, q.3, inside),
                λ more. r.4 ∙ ground (arith, more, r.3),
              )
      ]
