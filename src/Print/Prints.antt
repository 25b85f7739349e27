-- ===== src/Print/Prints.antt =====
-- What a format of cprintf(), in xv6-public/console.c, stands for, and that its loop prints it.
use os_11740_assignment.Base.{
  ℕ, ◌+◌, ◌^◌, ◌<◌, ◌≡◌, ◌≢◌, ◌⊎◌, inl, inr, refl, sym, ap, ap₂, subst, arith, true, false,
  Bool-cases, ◌||◌, ◌==◌, ==_iff, Option, some, List, [], ◌∷◌, ◌++◌, if◌then◌else◌,
}
use os_11740_assignment.Print.{cons_to, append_to, null_string, kernel_directive, kernel_loop}
use os_11740_assignment.Print.Numerals.{
  IsNumeral, IsDecimal, printint-IsNumeral, printint-IsDecimal,
}

-- With the words `arg` and the strings `str` as arguments, from argument `n` on, the format is printed as
-- the characters. A single % at its end is dropped.
pub data Prints (arg : ℕ → ℕ) (str : ℕ → List ℕ) : List ℕ → ℕ → List ℕ → Type 0 where
  at_end : (n : ℕ) → Prints arg str [] n []
  lone_percent : (n : ℕ) → Prints arg str (b'%' ∷ []) n []
  ordinary :
      (c n : ℕ) (fmt cs : List ℕ)
      → c ≢ b'%'
      → Prints arg str fmt n cs
      → Prints arg str (c ∷ fmt) n (c ∷ cs)
  an_int :
      (n : ℕ) (fmt ds cs : List ℕ)
      → IsDecimal (arg n) ds
      → Prints arg str fmt (n + 1) cs
      → Prints arg str (b'%' ∷ b'd' ∷ fmt) n (ds ++ cs)
  in_hex :
      (c n : ℕ) (fmt ds cs : List ℕ)
      → (c ≡ b'x') ⊎ (c ≡ b'p')
      → IsNumeral 16 (arg n) ds
      → Prints arg str fmt (n + 1) cs
      → Prints arg str (b'%' ∷ c ∷ fmt) n (ds ++ cs)
  a_string :
      (n : ℕ) (fmt cs : List ℕ)
      → arg n ≢ 0
      → Prints arg str fmt (n + 1) cs
      → Prints arg str (b'%' ∷ b's' ∷ fmt) n (str (arg n) ++ cs)
  no_string :
      (n : ℕ) (fmt cs : List ℕ)
      → arg n ≡ 0
      → Prints arg str fmt (n + 1) cs
      → Prints arg str (b'%' ∷ b's' ∷ fmt) n (null_string ++ cs)
  a_percent :
      (n : ℕ) (fmt cs : List ℕ)
      → Prints arg str fmt n cs
      → Prints arg str (b'%' ∷ b'%' ∷ fmt) n (b'%' ∷ cs)
  unknown :
      (c n : ℕ) (fmt cs : List ℕ)
      → c ≢ b'd'
      → c ≢ b'x'
      → c ≢ b'p'
      → c ≢ b's'
      → c ≢ b'%'
      → Prints arg str fmt n cs
      → Prints arg str (b'%' ∷ c ∷ fmt) n (b'%' ∷ c ∷ cs)

==_eq : {x y : ℕ} → (x == y) ≡ true → x ≡ y
==_eq {x} {y} e = (==_iff x y).0 e

==_ne : {x y : ℕ} → (x == y) ≡ false → x ≢ y
==_ne e q = ground (arith, e, q)

module _ (arg : ℕ → ℕ) (str : ℕ → List ℕ) (words : (i : ℕ) → arg i < 2 ^ 32) where
  -- What is printed for %c, whatever the rest of the format is printed as.
  Directive : ℕ → ℕ → Option (List ℕ) × ℕ → Type 0
  Directive c n taken =
      (ds : List ℕ) × (taken.0 ≡ some ds)
      × ((fmt cs : List ℕ)
          → Prints arg str fmt (n + taken.1) cs
          → Prints arg str (b'%' ∷ c ∷ fmt) n (ds ++ cs))

  string-Directive :
      (n : ℕ) → Directive b's' n (some (if arg n == 0 then null_string else str (arg n)), 1)
  unfolding Directive
  string-Directive n = elim (Bool-cases (arg n == 0)) [
    | inl e ↦ rw e (null_string, refl, λ fmt cs p. no_string n fmt cs (==_eq e) p)
    | inr e ↦ rw e (str (arg n), refl, λ fmt cs p. a_string n fmt cs (==_ne e) p)
  ]

  kernel_directive-Directive : (c n : ℕ) → Directive c n (kernel_directive arg str c n)
  unfolding kernel_directive Directive
  kernel_directive-Directive c n = elim (Bool-cases (c == b'd')) [
    | inl e ↦
        let (ds, run, decimal) = printint-IsDecimal (arg n) (words n) in
        rw e (
          ds,
          run,
          λ fmt cs p.
              subst (λ d. Prints arg str (b'%' ∷ d ∷ fmt) n (ds ++ cs)) (sym (==_eq e))
                (an_int n fmt ds cs decimal p),
        )
    | inr e ↦ elim (Bool-cases ((c == b'x') || (c == b'p'))) [
      | inl f ↦
          let (ds, run, hex) = printint-IsNumeral 16 (arg n) (inr refl) (words n) in
          rw (e, f) (ds, run, λ fmt cs p. in_hex c n fmt ds cs (ground (arith, f)) hex p)
      | inr f ↦ elim (Bool-cases (c == b's')) [
        | inl g ↦
            rw (e, f, g)
              (subst
                (λ d. Directive d n (some (if arg n == 0 then null_string else str (arg n)), 1))
                (sym (==_eq g)) (string-Directive n))
        | inr g ↦ elim (Bool-cases (c == b'%')) [
          | inl h ↦
              rw (e, f, g, h)
                (
                  b'%' ∷ [],
                  refl,
                  λ fmt cs p.
                      subst (λ d. Prints arg str (b'%' ∷ d ∷ fmt) n (b'%' ∷ cs)) (sym (==_eq h))
                        (a_percent n fmt cs (subst (λ k. Prints arg str fmt k cs) (omega arith) p)),
                )
          | inr h ↦
              rw (e, f, g, h)
                (
                  b'%' ∷ c ∷ [],
                  refl,
                  λ fmt cs p.
                      unknown c n fmt cs (==_ne e) (ground (arith, f)) (ground (arith, f)) (==_ne g)
                        (==_ne h) (subst (λ k. Prints arg str fmt k cs) (omega arith) p),
                )
        ]
      ]
    ]
  ]

  -- The loop of cprintf() stays in its buffers and prints what the format stands for.
  pub kernel_loop-Prints :
      (fmt : List ℕ) (n : ℕ)
      → (cs : List ℕ) × (kernel_loop arg str fmt n ≡ some cs) × Prints arg str fmt n cs
  unfolding kernel_loop Directive
  kernel_loop-Prints [] n = ([], refl, at_end n)
  kernel_loop-Prints (c ∷ []) n = elim (Bool-cases (c == b'%')) [
    | inl e ↦
        rw e ([], refl, subst (λ d. Prints arg str (d ∷ []) n []) (sym (==_eq e)) (lone_percent n))
    | inr e ↦ rw e (c ∷ [], refl, ordinary c n [] [] (==_ne e) (at_end n))
  ]
  kernel_loop-Prints (c ∷ d ∷ fmt) n =
      let (ds, shown, directive) = kernel_directive-Directive d n in
      let (rest, run, p) = kernel_loop-Prints fmt (n + (kernel_directive arg str d n).1) in
      let (plain, run', p') = kernel_loop-Prints (d ∷ fmt) n in
      elim (Bool-cases (c == b'%')) [
        | inl e ↦ rw e (
          ds ++ rest,
          ap₂ append_to shown run,
          subst (λ b. Prints arg str (b ∷ d ∷ fmt) n (ds ++ rest)) (sym (==_eq e))
              (directive fmt rest p),
        )
        | inr e ↦ rw e (c ∷ plain, ap (cons_to c) run', ordinary c n (d ∷ fmt) plain (==_ne e) p')
      ]
