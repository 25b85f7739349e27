-- ===== src/Locks/Guard.antt =====
-- The spin locks of xv6-public/spinlock.c keep interrupts off while they are held.
use os_11740_assignment.Base.{
  ℕ, zero, suc, ◌+◌, ◌≤◌, ◌<◌, ◌≡◌, ◌≢◌, inl, inr, refl, sym, subst, arith, true, false, ◌==◌,
  ==_iff, Bool-cases, Option, none, some, if◌then◌else◌, update, update_self,
}
use os_11740_assignment.Base.Run.{Run, ok, panic, fault, waits, out_of_fuel}
use os_11740_assignment.Locks.Nesting.{IsOff}
use os_11740_assignment.Locks.{Spinlock, Machine, fresh_lock, is_cpu, acquire, release}
use os_11740_assignment.Locks.Outcomes.{
  holds, Puts, taken, Acquires, Releases, acquire-Acquires, release-Releases,
}

-- How many of the locks at the addresses below `n` the processor holds.
pub count_held : ℕ → ℕ → (ℕ → Spinlock) → ℕ
count_held c zero f = 0
count_held c (suc n) f = count_held c n f + (if holds c (f n) then 1 else 0)

count_held-above :
    (c n l : ℕ) (k : Spinlock) (f : ℕ → Spinlock)
    → n ≤ l
    → count_held c n (update f l k) ≡ count_held c n f
unfolding count_held
count_held-above c zero l k f h = refl
count_held-above c (suc n) l k f h = ground (arith, count_held-above c n l k f (omega arith))

-- A change of one lock changes the number by that lock.
count_held-update :
    (c n l : ℕ) (k : Spinlock) (f : ℕ → Spinlock)
    → l < n
    → count_held c n (update f l k) + (if holds c (f l) then 1 else 0)
      ≡ count_held c n f + (if holds c k then 1 else 0)
unfolding count_held
count_held-update c zero l k f h = absurd (omega arith)
count_held-update c (suc n) l k f h = elim (Bool-cases (l == n)) [
  | inl last ↦
      let e = (==_iff l n).0 last in
      subst
        (λ x.
          count_held c n (update f l k)
            + (if holds c (update f l k x) then 1 else 0)
            + (if holds c (f l) then 1 else 0)
          ≡ count_held c n f + (if holds c (f x) then 1 else 0) + (if holds c k then 1 else 0))
        e (ground (arith, count_held-above c n l k f (omega (arith, e)), update_self f l k))
  | inr below ↦ ground (arith, count_held-update c n l k f (ground arith), below)
]

is_cpu_sole : (o : Option ℕ) (c d : ℕ) → d ≢ c → is_cpu o c ≡ true → is_cpu o d ≡ false
is_cpu_sole none c d ne h = refl
is_cpu_sole (some e) c d ne h = ground (arith, ne, h)

-- A processor is nested at least as deep as the locks below `n` that it holds are many, and interrupts
-- are off while it is nested.
pub record Guards (n : ℕ) (s : Machine) : Type 0 where
  pub deep : (c : ℕ) → count_held c n s.lock ≤ (s.cpu c).ncli
  pub off : (c : ℕ) → IsOff (s.cpu c)

module _ (n : ℕ) where
  -- A change of lock `l` by processor `c` that no other processor holds before or after.
  Guards-Puts :
      (c l : ℕ) (k : Spinlock) (s t : Machine)
      → Guards n s
      → l < n
      → Puts c l k s t
      → ((d : ℕ) → d ≢ c → holds d k ≡ holds d (s.lock l))
      → (s.cpu c).ncli + (if holds c k then 1 else 0)
        ≤ (t.cpu c).ncli + (if holds c (s.lock l) then 1 else 0)
      → IsOff (t.cpu c)
      → Guards n t
  Guards-Puts c l k s t g small p others level off = record {
    deep = λ d.
        let change : (d : ℕ)
            → count_held d n t.lock + (if holds d (s.lock l) then 1 else 0)
              ≡ count_held d n s.lock + (if holds d k then 1 else 0) =
          λ d.
            subst
              (λ f.
                count_held d n f + (if holds d (s.lock l) then 1 else 0)
                ≡ count_held d n s.lock + (if holds d k then 1 else 0))
              (sym p.lock) (count_held-update d n l k s.lock small) in
        elim (Bool-cases (d == c)) [
          | inl same ↦
              let e = (==_iff d c).0 same in
              subst (λ x. count_held x n t.lock ≤ (t.cpu x).ncli) (sym e)
                (ground (arith, g.deep c, level, change c))
          | inr other ↦
              let ne : d ≢ c = λ e. ground (arith, other, e) in
              ground (arith, g.deep d, p.cpu d ne, others d ne, change d)
        ];
    off = λ d. elim (Bool-cases (d == c)) [
      | inl same ↦ subst (λ x. IsOff (t.cpu x)) (sym ((==_iff d c).0 same)) off
      | inr other ↦ subst IsOff (sym (p.cpu d (λ e. ground (arith, other, e)))) (g.off d)
    ];
  }

-- The processors acquire and release the first `n` locks, in any order.
pub data Reaches (n : ℕ) (s : Machine) : Machine → Type 0 where
  start : Reaches n s s
  acquires :
      {t u : Machine} (c l : ℕ) → Reaches n s t → l < n → acquire c l t ≡ ok tt u → Reaches n s u
  releases :
      {t u : Machine} (c l : ℕ) → Reaches n s t → l < n → release c l t ≡ ok tt u → Reaches n s u

module _ (n : ℕ) where
  Guards-acquire :
      (c l : ℕ) (s t : Machine) → Guards n s → l < n → Acquires c l s (ok tt t) → Guards n t
  Guards-acquire c l s t g small (free, p, more, off) =
      Guards-Puts n c l (taken c) s t g small p (λ d ne. ground (arith, free, ne))
        (ground (arith, more)) (λ _. off)

  Guards-release :
      (c l : ℕ) (s t : Machine) → Guards n s → l < n → Releases c l s (ok tt t) → Guards n t
  Guards-release c l s t g small (mine, p, less, off) =
      Guards-Puts n c l fresh_lock s t g small p (λ d ne. sym (sole (s.lock l) d ne mine))
        (ground (arith, less, mine)) off
    where
      sole : (k : Spinlock) (d : ℕ) → d ≢ c → holds c k ≡ true → holds d k ≡ false
      sole k d ne h = ground (arith, is_cpu_sole k.cpu c d ne)

  -- Who holds a lock is nested.
  Guards-nested :
      (c l : ℕ) (s : Machine) → Guards n s → l < n → holds c (s.lock l) ≡ true → 0 < (s.cpu c).ncli
  Guards-nested c l s g small mine =
      ground (arith, g.deep c, mine, count_held-update c n l fresh_lock s.lock small)

  -- What is so in every state that acquire() and release() lead to.
  Reaches-invariant : {s t : Machine} → Guards n s → Reaches n s t → Guards n t
  Reaches-invariant g start = g
  Reaches-invariant g (acquires {t} {u} c l r small e) =
      let before = Reaches-invariant g r in
      Guards-acquire c l t u before small
        (subst (Acquires c l t) e (acquire-Acquires c l t (before.off c)))
  Reaches-invariant {s} g (releases {t} {u} c l r small e) =
      let before = Reaches-invariant g r in
      Guards-release c l t u before small (
        subst (Releases c l t) e
          (release-Releases c l t (before.off c) (Guards-nested c l t before small)))

  Releases-ok :
      (c l : ℕ) (s : Machine) (r : Run Machine (Unit {0}))
      → holds c (s.lock l) ≡ true
      → Releases c l s r
      → (u : Machine) × (r ≡ ok tt u)
  Releases-ok c l s (ok _ u) mine h = (u, refl)
  Releases-ok c l s fault mine h = elim h [ ]
  Releases-ok c l s waits mine h = elim h [ ]
  Releases-ok c l s out_of_fuel mine h = elim h [ ]
  Releases-ok c l s panic mine h = absurd (ground (arith, h, mine))

  -- However the processors acquire and release the locks: a processor that holds one has interrupts off,
  -- and can release it, which does not panic.
  pub Reaches-off :
      {s t : Machine}
      → Guards n s
      → Reaches n s t
      → (c l : ℕ) → l < n
      → holds c (t.lock l) ≡ true
      → ((t.cpu c).interrupts ≡ false) × ((u : Machine) × (release c l t ≡ ok tt u) × Reaches n s u)
  Reaches-off {s} {t} g r c l small mine =
      let now = Reaches-invariant g r in
      let nested = Guards-nested c l t now small mine in
      let freed =
        Releases-ok c l t (release c l t) mine
          (release-Releases c l t (now.off c) (Guards-nested c l t now small)) in
      (now.off c nested, (freed.0, freed.1, releases c l r small freed.1))

count_held_none :
    (s : Machine) → ((l : ℕ) → (s.lock l).locked ≡ false) → (n c : ℕ) → count_held c n s.lock ≡ 0
unfolding count_held
count_held_none s free zero c = refl
count_held_none s free (suc n) c = ground (arith, count_held_none s free n c, free n)

-- At the start no lock is held and no processor is nested.
pub Guards-fresh :
    (n : ℕ) (s : Machine)
    → ((l : ℕ) → (s.lock l).locked ≡ false)
    → ((c : ℕ) → (s.cpu c).ncli ≡ 0)
    → Guards n s
Guards-fresh n s free outer = record {
  deep = λ c. subst (λ k. k ≤ (s.cpu c).ncli) (sym (count_held_none s free n c)) (omega arith);
  off = λ c more. absurd (omega (arith, outer c, more));
}
