-- ===== src/Print/Formats.antt =====
-- cprintf() of xv6-public/console.c and printf() of xv6-public/printf.c stay in their buffers and print the
-- same for the formats that both know.
use os_11740_assignment.Base.{
  ℕ, ◌+◌, ◌%◌, ◌^◌, ◌<◌, ◌≡◌, inl, inr, refl, sym, ap, ap₂, ◌∙◌, arith, Bool, true, false,
  Bool-cases, not, ◌&&◌, ◌||◌, ◌==◌, Option, some, List, [], ◌∷◌, ◌++◌, if◌then◌else◌,
}
use os_11740_assignment.Print.{
  digit_lower, digit_upper, cons_to, append_to, string_at, kernel_directive, kernel_loop,
  user_directive, user_loop,
}
use os_11740_assignment.Print.Digits.{printint-some, printint_decimal}

-- Output that stays in the buffers.
abbrev Fits : Option (List ℕ) → Type 0
Fits out = (cs : List ℕ) × (out ≡ some cs)

cons_to-Fits : (c : ℕ) (out : Option (List ℕ)) → Fits out → Fits (cons_to c out)
cons_to-Fits c out (cs, e) = (c ∷ cs, ap (cons_to c) e)

append_to-Fits : (out more : Option (List ℕ)) → Fits out → Fits more → Fits (append_to out more)
append_to-Fits out more (cs, e) (ds, f) = (cs ++ ds, ap₂ append_to e f)

if-Fits :
    (b : Bool) (out more : Option (List ℕ)) → Fits out → Fits more → Fits (if b then out else more)
if-Fits true out more h g = h
if-Fits false out more h g = g

if_ap {ℓ} :
    {A : Type ℓ} {x y x' y' : A} (b : Bool)
    → (b ≡ true → x ≡ x')
    → (b ≡ false → y ≡ y')
    → (if b then x else y) ≡ (if b then x' else y')
if_ap true f g = f refl
if_ap false f g = g refl

-- The directives that print the same: all but %x, %p and %c.
abbrev pub is_shared : ℕ → Bool
is_shared c = not ((c == b'x') || ((c == b'p') || (c == b'c')))

-- The format has no other directive.
unfoldable pub only_shared : List ℕ → Bool
only_shared [] = true
only_shared (c ∷ []) = true
only_shared (c ∷ d ∷ fmt) =
    let plain = only_shared (d ∷ fmt) in
    let rest = only_shared fmt in if c == b'%' then is_shared d && rest else plain

module _ (arg : ℕ → ℕ) (str : ℕ → List ℕ) where
  directive_shared :
      (c n : ℕ) → is_shared c ≡ true → kernel_directive arg str c n ≡ user_directive arg str c n
  unfolding kernel_directive user_directive
  directive_shared c n shared =
      if_ap (c == b'd') (λ _. ap (λ out. (out, 1)) (printint_decimal (arg n) true))
        (λ _. ground (arith, shared))

  -- cprintf() and printf() print the same characters for the same arguments. The condition is that the
  -- format has no %x, %p or %c, of which the first two differ in the case of the digits and cprintf() does
  -- not know the last one.
  pub kernel_loop-user_loop :
      (fmt : List ℕ) (n : ℕ)
      → only_shared fmt ≡ true
      → kernel_loop arg str fmt n ≡ user_loop arg str false fmt n
  unfolding kernel_loop user_loop only_shared
  kernel_loop-user_loop [] n shared = refl
  kernel_loop-user_loop (c ∷ []) n shared = refl
  kernel_loop-user_loop (c ∷ d ∷ fmt) n shared =
      if_ap (c == b'%')
        (λ e.
          let both : (is_shared d && only_shared fmt) ≡ true =
            sym (ap (λ b. if b then is_shared d && only_shared fmt else only_shared (d ∷ fmt)) e)
            ∙ shared in
          let same = directive_shared d n (ground (arith, both)) in
          ap₂ append_to (ap (λ r. r.0) same) (
            ap (λ r. kernel_loop arg str fmt (n + r.1)) same
            ∙ kernel_loop-user_loop fmt (n + (user_directive arg str d n).1)
                (ground (arith, both))))
        (λ e.
          let later : only_shared (d ∷ fmt) ≡ true =
            sym (ap (λ b. if b then is_shared d && only_shared fmt else only_shared (d ∷ fmt)) e)
            ∙ shared in
          ap (cons_to c) (kernel_loop-user_loop (d ∷ fmt) n later))

  module _ (words : (i : ℕ) → arg i < 2 ^ 32) where
    kernel_directive-Fits : (c n : ℕ) → Fits (kernel_directive arg str c n).0
    unfolding kernel_directive
    kernel_directive-Fits c n =
        let (decimal, d, _) = printint-some digit_lower 10 (inl refl) (arg n) true (words n) in
        let (hex, x, _) = printint-some digit_lower 16 (inr refl) (arg n) false (words n) in
        elim (Bool-cases (c == b'd')) [
          | inl e ↦ (decimal, rw e d)
          | inr e ↦ elim (Bool-cases ((c == b'x') || (c == b'p'))) [
            | inl f ↦ (hex, rw (e, f) x)
            | inr f ↦ elim (Bool-cases (c == b's')) [
              | inl g ↦ (string_at arg str (arg n), rw (e, f, g) refl)
              | inr g ↦ elim (Bool-cases (c == b'%')) [
                | inl h ↦ (b'%' ∷ [], rw (e, f, g, h) refl)
                | inr h ↦ (b'%' ∷ c ∷ [], rw (e, f, g, h) refl)
              ]
            ]
          ]
        ]

    user_directive-Fits : (c n : ℕ) → Fits (user_directive arg str c n).0
    unfolding user_directive
    user_directive-Fits c n =
        let (decimal, d, _) = printint-some digit_upper 10 (inl refl) (arg n) true (words n) in
        let (hex, x, _) = printint-some digit_upper 16 (inr refl) (arg n) false (words n) in
        elim (Bool-cases (c == b'd')) [
          | inl e ↦ (decimal, rw e d)
          | inr e ↦ elim (Bool-cases ((c == b'x') || (c == b'p'))) [
            | inl f ↦ (hex, rw (e, f) x)
            | inr f ↦ elim (Bool-cases (c == b's')) [
              | inl g ↦ (string_at arg str (arg n), rw (e, f, g) refl)
              | inr g ↦ elim (Bool-cases (c == b'c')) [
                | inl h ↦ (arg n % 256 ∷ [], rw (e, f, g, h) refl)
                | inr h ↦ elim (Bool-cases (c == b'%')) [
                  | inl i ↦ (c ∷ [], rw (e, f, g, h, i) refl)
                  | inr i ↦ (b'%' ∷ c ∷ [], rw (e, f, g, h, i) refl)
                ]
              ]
            ]
          ]
        ]

    kernel_loop-Fits : (fmt : List ℕ) (n : ℕ) → Fits (kernel_loop arg str fmt n)
    unfolding kernel_loop
    kernel_loop-Fits [] n = ([], refl)
    kernel_loop-Fits (c ∷ []) n =
        if-Fits (c == b'%') (some []) (some (c ∷ [])) ([], refl) (c ∷ [], refl)
    kernel_loop-Fits (c ∷ d ∷ fmt) n =
        if-Fits (c == b'%') _ _
          (append_to-Fits _ _ (kernel_directive-Fits d n)
            (kernel_loop-Fits fmt (n + (kernel_directive arg str d n).1)))
          (cons_to-Fits c _ (kernel_loop-Fits (d ∷ fmt) n))

    user_loop-Fits : (state : Bool) (fmt : List ℕ) (n : ℕ) → Fits (user_loop arg str state fmt n)
    unfolding user_loop
    user_loop-Fits state [] n = ([], refl)
    user_loop-Fits false (c ∷ fmt) n =
        if-Fits (c == b'%') _ _ (user_loop-Fits true fmt n)
          (cons_to-Fits c _ (user_loop-Fits false fmt n))
    user_loop-Fits true (c ∷ fmt) n =
        append_to-Fits _ _ (user_directive-Fits c n)
          (user_loop-Fits false fmt (n + (user_directive arg str c n).1))

    -- For every format, cprintf() and printf() return: no number that they print goes past the end of its
    -- buffer. The condition is that the arguments are 32-bit words.
    pub loops-Fits :
        (fmt : List ℕ) (n : ℕ)
        → ((cs : List ℕ) × (kernel_loop arg str fmt n ≡ some cs))
          × ((cs : List ℕ) × (user_loop arg str false fmt n ≡ some cs))
    loops-Fits fmt n = (kernel_loop-Fits fmt n, user_loop-Fits false fmt n)
