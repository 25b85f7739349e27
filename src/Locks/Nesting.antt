-- ===== src/Locks/Nesting.antt =====
-- pushcli(), popcli() and holding() of xv6-public/spinlock.c.
use os_11740_assignment.Base.{
  ℕ, ◌+◌, ◌-◌, ◌<◌, ◌≡◌, ◌≢◌, inl, inr, refl, ◌∙◌, arith, Bool, true, false, ◌==◌, ◌&&◌, Bool-cases,
  if◌then◌else◌, update,
}
use os_11740_assignment.Base.Run.{ok}
use os_11740_assignment.Locks.{Cpu, Machine, is_cpu, pushcli, popcli, holding}

-- The locks of `t` are those of `s`, and so is every processor but `c`.
pub record Apart (c : ℕ) (s t : Machine) : Type 0 where
  pub lock : t.lock ≡ s.lock
  pub cpu : (d : ℕ) → d ≢ c → t.cpu d ≡ s.cpu d

pub Apart-trans : (c : ℕ) {s t u : Machine} → Apart c s t → Apart c t u → Apart c s u
Apart-trans c a b = record { lock = b.lock ∙ a.lock; cpu = λ d ne. b.cpu d ne ∙ a.cpu d ne }

-- Interrupts are off while the processor is nested.
abbrev pub IsOff : Cpu → Type 0
IsOff p = 0 < p.ncli → p.interrupts ≡ false

-- What the outermost popcli() brings back is what the outermost pushcli() kept.
restored :
    (n m : ℕ) (i a x : Bool)
    → m ≡ n + 1
    → x ≡ (if n == 0 then i else a)
    → (0 < n → i ≡ false)
    → ((m - 1 == 0) && x) ≡ i
restored n m i a x e kept off = elim (Bool-cases (n == 0)) [
  | inl outer ↦ ground (arith, e, kept, outer)
  | inr inner ↦ ground (arith, e, inner, off (ground (arith, inner)))
]

module _ (c : ℕ) where
  pub pushcli-Apart :
      (s : Machine)
      → (t : Machine) × (pushcli c s ≡ ok tt t)
        × Apart c s t
        × ((t.cpu c).ncli ≡ (s.cpu c).ncli + 1)
        × ((t.cpu c).interrupts ≡ false)
        × ((t.cpu c).intena
            ≡ (if (s.cpu c).ncli == 0 then (s.cpu c).interrupts else (s.cpu c).intena))
  unfolding pushcli
  pushcli-Apart s = elim (Bool-cases ((s.cpu c).ncli == 0)) [
    | inl outer ↦ rw outer (
      _,
      refl,
      record { lock = refl; cpu = λ d ne. ground (arith, ne) },
      ground arith,
      ground arith,
      ground arith,
    )
    | inr inner ↦ rw inner (
      _,
      refl,
      record { lock = refl; cpu = λ d ne. ground (arith, ne) },
      ground arith,
      ground arith,
      ground arith,
    )
  ]

  -- The machine when one level is taken away, and when interrupts are then let in.
  abbrev less : Machine → Machine
  less s = record s { cpu = update s.cpu c (record (s.cpu c) { ncli = (s.cpu c).ncli - 1 }) }

  abbrev let_in : Machine → Machine
  let_in s = record s { cpu = update s.cpu c (record (s.cpu c) { interrupts = true }) }

  pub popcli-Apart :
      (s : Machine)
      → (s.cpu c).interrupts ≡ false
      → 0 < (s.cpu c).ncli
      → (t : Machine) × (popcli c s ≡ ok tt t)
        × Apart c s t
        × ((t.cpu c).ncli ≡ (s.cpu c).ncli - 1)
        × ((t.cpu c).interrupts ≡ (((s.cpu c).ncli - 1 == 0) && (s.cpu c).intena))
  unfolding popcli
  popcli-Apart s off nested = elim (Bool-cases (((s.cpu c).ncli - 1 == 0) && (s.cpu c).intena)) [
    | inl outer ↦ (
      let_in (less s),
      ground (arith, off, nested, outer),
      record { lock = refl; cpu = λ d ne. ground (arith, ne) },
      ground arith,
      ground (arith, outer),
    )
    | inr inner ↦ (
      less s,
      ground (arith, off, nested, inner),
      record { lock = refl; cpu = λ d ne. ground (arith, ne) },
      ground arith,
      ground (arith, inner, off),
    )
  ]

  -- holding() says whether the processor holds the lock, and leaves the nesting and the interrupts.
  pub holding-Apart :
      (l : ℕ) (s : Machine)
      → IsOff (s.cpu c)
      → (t : Machine) × (holding c l s ≡ ok ((s.lock l).locked && is_cpu (s.lock l).cpu c) t)
        × Apart c s t
        × ((t.cpu c).ncli ≡ (s.cpu c).ncli)
        × ((t.cpu c).interrupts ≡ (s.cpu c).interrupts)
  unfolding holding
  holding-Apart l s off =
      let p = pushcli-Apart s in
      let q = popcli-Apart p.0 p.4 (omega (arith, p.3)) in
      (
        q.0,
        rw (p.1, q.1, p.2.lock) refl,
        Apart-trans c p.2 q.2,
        omega (arith, q.3, p.3),
        q.4
            ∙ restored (s.cpu c).ncli (p.0.cpu c).ncli (s.cpu c).interrupts (s.cpu c).intena
                (p.0.cpu c).intena p.3 p.5 off,
      )
