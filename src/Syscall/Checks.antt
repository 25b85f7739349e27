-- ===== src/Syscall/Checks.antt =====
-- What the argument checks of xv6-public/syscall.c let through.
use os_11740_assignment.Base.{
  ℕ, zero, suc, ◌+◌, ◌-◌, ◌^◌, ◌≤◌, ◌<◌, ◌≡◌, ◌≢◌, ◌↔◌, refl, ap, ◌∙◌, arith, Bool, true, false,
  ◌==◌, leb, Bool-cases, inl, inr, ==_iff, Option, none, some, if◌then◌else◌,
}
use os_11740_assignment.Syscall.{Task, string_loop, fetchstr, argint, check_range, argptr}

module _ (t : Task) where
  -- What the search for the end of the string that begins at `pp` finds from `s` on.
  abbrev pub Ends : ℕ → ℕ → Option ℕ → Type 0
  Ends pp s none = (x : ℕ) → s ≤ x → x < t.sz → t.mem x ≢ 0
  Ends pp s (some n) =
      (s ≤ pp + n)
      × (pp + n < t.sz)
      × (t.mem (pp + n) ≡ 0)
      × ((x : ℕ) → s ≤ x → x < pp + n → t.mem x ≢ 0)

  Ends-if :
      (pp s : ℕ) (here : Bool) (r : Option ℕ)
      → pp ≤ s
      → s < t.sz
      → (t.mem s == 0) ≡ here
      → Ends pp (s + 1) r
      → Ends pp s (if here then some (s - pp) else r)
  Ends-if pp s true r up lt e h =
      let place : pp + (s - pp) ≡ s = omega (arith, up) in
      (
        omega (arith, up),
        omega (arith, up, lt),
        ap t.mem place ∙ (==_iff (t.mem s) 0).0 e,
        λ x lo hi. absurd (omega (arith, lo, hi, up)),
      )
  Ends-if pp s false none up lt e h = λ x lo hi. elim (Bool-cases (x == s)) [
    | inl same ↦ λ z. ground (arith, e, z, same)
    | inr other ↦ h x (ground (arith, other, lo)) hi
  ]
  Ends-if pp s false (some n) up lt e h = (
    omega (arith, h.0),
    h.1,
    h.2,
    λ x lo hi. elim (Bool-cases (x == s)) [
      | inl same ↦ λ z. ground (arith, e, z, same)
      | inr other ↦ h.3 x (ground (arith, other, lo)) hi
    ],
  )

  string_loop-Ends : (pp k s : ℕ) → pp ≤ s → s + k ≡ t.sz → Ends pp s (string_loop t pp k s)
  unfolding string_loop
  string_loop-Ends pp zero s up e = λ x lo hi. absurd (omega (arith, lo, hi, e))
  string_loop-Ends pp (suc k) s up e =
      Ends-if pp s _ _ up (omega (arith, e)) refl
        (string_loop-Ends pp k (s + 1) (omega (arith, up)) (omega (arith, e)))

  -- fetchstr() always ends: it returns the distance to the first 0 from the address on, which lies in the
  -- memory of the process; or it fails, and the memory from the address on has no 0.
  pub fetchstr-Ends : (addr : ℕ) → Ends addr addr (fetchstr t addr)
  unfolding fetchstr
  fetchstr-Ends addr = elim (Bool-cases (leb t.sz addr)) [
    | inl over ↦ rw over (λ x lo hi. absurd (ground (arith, over, lo, hi)))
    | inr inside ↦
        rw inside (string_loop-Ends addr (t.sz - addr) addr (omega arith) (ground (arith, inside)))
  ]

  -- For a process that ends below KERNBASE, argptr() returns exactly an argument whose range of `size`
  -- bytes, a size that is not negative, lies in the memory of the process: the sum does not wrap.
  pub argptr_iff :
      (n size p : ℕ)
      → t.sz ≤ 2 ^ 31
      → (argptr t n size ≡ some p)
        ↔ ((argint t n ≡ some p) × (size < 2 ^ 31) × (p < t.sz) × (p + size ≤ t.sz))
  unfolding argptr
  argptr_iff n size p small = checked (argint t n)
    where
      checked :
          (r : Option ℕ)
          → ((elim r as (λ _. Option ℕ) [ none ↦ none | some i ↦ check_range t size i ]) ≡ some p)
            ↔ ((r ≡ some p) × (size < 2 ^ 31) × (p < t.sz) × (p + size ≤ t.sz))
      checked none = (λ e. ground (arith, e), λ e. ground (arith, e.0))
      checked (some i) = (λ e. ground (arith, e, small), λ e. ground (arith, e, small))
