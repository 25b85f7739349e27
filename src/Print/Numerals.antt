-- ===== src/Print/Numerals.antt =====
-- printint() of xv6-public/console.c prints the numeral of its number.
use os_11740_assignment.Base.{
  ℕ, zero, suc, ◌+◌, ◌-◌, ◌*◌, ◌/◌, ◌%◌, ◌^◌, ◌≤◌, ◌<◌, ◌≡◌, ◌⊎◌, inl, inr, refl, sym, ap, subst,
  ◌∙◌, arith, Bool, true, false, Bool-cases, ◌==◌, ltb, leb, Option, Option-cases, none, some, List,
  [], ◌∷◌, ◌++◌, length, if◌then◌else◌, get_or,
}
use os_11740_assignment.Mmu.{u32}
use os_11740_assignment.Console.Screen.{rev_onto}
use os_11740_assignment.Print.{
  buf_size, digit_lower, cons_to, backwards, minus_and_back, digit_loop, printint,
}
use os_11740_assignment.Print.Digits.{
  digit_loop-some, below_limit, rev_onto_last, rev_onto-append, no_more, same_digits,
}

-- "0123456789abcdef"
abbrev pub hex_digits : List ℕ
hex_digits =
    b'0' ∷ b'1' ∷ b'2' ∷ b'3' ∷ b'4' ∷ b'5' ∷ b'6' ∷ b'7' ∷ b'8' ∷ b'9' ∷ b'a' ∷ b'b' ∷ b'c' ∷ b'd'
    ∷ b'e' ∷ b'f' ∷ []

-- The characters write the number in the base, without a 0 in front.
pub data IsNumeral (base : ℕ) : ℕ → List ℕ → Type 0 where
  digit_alone : (d : ℕ) → d < base → IsNumeral base d (get_or hex_digits d 0 ∷ [])
  digit_behind :
      (x d : ℕ) (cs : List ℕ)
      → 0 < x
      → d < base
      → IsNumeral base x cs
      → IsNumeral base (x * base + d) (cs ++ (get_or hex_digits d 0 ∷ []))

-- The characters write an int, which is given by its bit pattern, in base 10.
pub data IsDecimal (x : ℕ) : List ℕ → Type 0 where
  not_negative : (cs : List ℕ) → x < 2 ^ 31 → IsNumeral 10 x cs → IsDecimal x cs
  negative : (cs : List ℕ) → 2 ^ 31 ≤ x → IsNumeral 10 (2 ^ 32 - x) cs → IsDecimal x (b'-' ∷ cs)

digit_lower-hex_digits : (d : ℕ) → d < 16 → digit_lower d ≡ get_or hex_digits d 0
digit_lower-hex_digits zero lt = refl
digit_lower-hex_digits (suc zero) lt = refl
digit_lower-hex_digits (suc (suc zero)) lt = refl
digit_lower-hex_digits (suc (suc (suc zero))) lt = refl
digit_lower-hex_digits (suc (suc (suc (suc zero)))) lt = refl
digit_lower-hex_digits (suc (suc (suc (suc (suc zero))))) lt = refl
digit_lower-hex_digits (suc (suc (suc (suc (suc (suc zero)))))) lt = refl
digit_lower-hex_digits (suc (suc (suc (suc (suc (suc (suc zero))))))) lt = refl
digit_lower-hex_digits (suc (suc (suc (suc (suc (suc (suc (suc zero)))))))) lt = refl
digit_lower-hex_digits (suc (suc (suc (suc (suc (suc (suc (suc (suc zero))))))))) lt = refl
digit_lower-hex_digits (suc (suc (suc (suc (suc (suc (suc (suc (suc (suc zero)))))))))) lt = refl
digit_lower-hex_digits (suc (suc (suc (suc (suc (suc (suc (suc (suc (suc (suc zero))))))))))) lt =
    refl
digit_lower-hex_digits (suc (suc (suc (suc (suc (suc (suc (suc (suc (suc (suc (suc zero))))))))))))
      lt =
    refl
digit_lower-hex_digits
      (suc (suc (suc (suc (suc (suc (suc (suc (suc (suc (suc (suc (suc zero))))))))))))) lt =
    refl
digit_lower-hex_digits
      (suc (suc (suc (suc (suc (suc (suc (suc (suc (suc (suc (suc (suc (suc zero)))))))))))))) lt =
    refl
digit_lower-hex_digits
      (suc (suc (suc (suc (suc (suc (suc (suc (suc (suc (suc (suc (suc (suc (suc zero)))))))))))))))
      lt =
    refl
digit_lower-hex_digits
      (suc
        (suc (suc (suc (suc (suc (suc (suc (suc (suc (suc (suc (suc (suc (suc (suc d))))))))))))))))
      lt =
    absurd (omega arith)

module _ (base : ℕ) (known : (base ≡ 10) ⊎ (base ≡ 16)) where
  last_digit : (x : ℕ) → (x % base < base) × (x % base < 16) × (x / base * base + x % base ≡ x)
  last_digit x = elim known [
    | inl e ↦ rw e (omega arith, omega arith, omega arith)
    | inr e ↦ rw e (omega arith, omega arith, omega arith)
  ]

  alone : (x : ℕ) → x / base ≡ 0 → IsNumeral base x (digit_lower (x % base) ∷ [])
  alone x e =
      let (small, small', whole) = last_digit x in
      let all : x % base ≡ x = omega (arith, ap (λ q. q * base + x % base) (sym e) ∙ whole) in
      subst (λ c. IsNumeral base x (c ∷ [])) (sym (digit_lower-hex_digits (x % base) small'))
        (subst (λ y. IsNumeral base y (get_or hex_digits (x % base) 0 ∷ [])) all
          (digit_alone (x % base) small))

  behind :
      (x : ℕ) (es : List ℕ)
      → 0 < x / base
      → IsNumeral base (x / base) (rev_onto es [])
      → IsNumeral base x (rev_onto (digit_lower (x % base) ∷ es) [])
  behind x es pos n =
      let (small, small', whole) = last_digit x in
      subst (IsNumeral base x)
        (ap (λ c. rev_onto es [] ++ (c ∷ [])) (sym (digit_lower-hex_digits (x % base) small'))
          ∙ rev_onto-append es [] (digit_lower (x % base) ∷ []))
        (subst (λ y. IsNumeral base y (rev_onto es [] ++ (get_or hex_digits (x % base) 0 ∷ [])))
          whole (digit_behind (x / base) (x % base) (rev_onto es []) pos small n))

  -- The digits that the loop stores, from the last to the first.
  digit_loop-IsNumeral :
      (k x : ℕ) (ds : List ℕ)
      → digit_loop digit_lower base k x ≡ some ds
      → IsNumeral base x (rev_onto ds [])
  unfolding digit_loop
  digit_loop-IsNumeral zero x ds e = absurd cc
  digit_loop-IsNumeral (suc k) x ds e =
      let d = digit_lower (x % base) in
      let tested : Bool → Option (List ℕ) =
        λ b. if b then some (d ∷ []) else cons_to d (digit_loop digit_lower base k (x / base)) in
      elim (Bool-cases (x / base == 0)) [
        | inl small ↦
            let here : some (d ∷ []) ≡ some ds = sym (ap tested small) ∙ e in
            subst (λ l. IsNumeral base x (rev_onto l [])) (same_digits here)
              (alone x (ground (arith, small)))
        | inr big ↦
            let later : cons_to d (digit_loop digit_lower base k (x / base)) ≡ some ds =
              sym (ap tested big) ∙ e in
            elim (Option-cases (digit_loop digit_lower base k (x / base))) [
              | inl run ↦ absurd (no_more (sym (ap (cons_to d) run) ∙ later))
              | inr (es, run) ↦
                  subst (λ l. IsNumeral base x (rev_onto l []))
                    (same_digits (sym (ap (cons_to d) run) ∙ later))
                    (behind x es (ground (arith, big)) (digit_loop-IsNumeral k (x / base) es run))
            ]
      ]

-- printint() of a word writes it as a number without a sign in base 10 or 16.
pub printint-IsNumeral :
    (base xx : ℕ)
    → (base ≡ 10) ⊎ (base ≡ 16)
    → xx < 2 ^ 32
    → (cs : List ℕ) × (printint digit_lower xx base false ≡ some cs) × IsNumeral base xx cs
unfolding printint
printint-IsNumeral base xx known word =
    let (ds, run, _) =
      digit_loop-some digit_lower base known buf_size 9 xx (omega arith) (below_limit xx word) in
    (
      rev_onto ds [],
      ap (minus_and_back false) run,
      digit_loop-IsNumeral base known buf_size xx ds run,
    )

minus_in_front :
    (ds : List ℕ) → length ds ≤ 10 → minus_and_back true (some ds) ≡ some (b'-' ∷ rev_onto ds [])
minus_in_front ds short =
    ap (λ b. backwards (if b then some (ds ++ (b'-' ∷ [])) else none)) fits
    ∙ ap some (rev_onto_last ds b'-' [])
  where
    fits : ltb (length ds) buf_size ≡ true
    fits = ground (arith, short)

-- printint() of a word writes it as an int in base 10.
pub printint-IsDecimal :
    (xx : ℕ)
    → xx < 2 ^ 32
    → (cs : List ℕ) × (printint digit_lower xx 10 true ≡ some cs) × IsDecimal xx cs
unfolding printint
printint-IsDecimal xx word = elim (Bool-cases (leb (2 ^ 31) xx)) [
  | inl below ↦
      let y = u32 (2 ^ 32 - xx) in
      let at : y ≡ 2 ^ 32 - xx = ground (arith, below) in
      let (ds, run, short) =
        digit_loop-some digit_lower 10 (inl refl) buf_size 9 y (omega arith)
          (below_limit y (omega arith)) in
      (
        b'-' ∷ rev_onto ds [],
        rw below (ap (minus_and_back true) run ∙ minus_in_front ds short),
        negative (rev_onto ds []) (ground (arith, below)) (
            subst (λ n. IsNumeral 10 n (rev_onto ds [])) at
              (digit_loop-IsNumeral 10 (inl refl) buf_size y ds run)),
      )
  | inr above ↦
      let (ds, run, short) =
        digit_loop-some digit_lower 10 (inl refl) buf_size 9 xx (omega arith)
          (below_limit xx word) in
      (
        rev_onto ds [],
        rw above (ap (minus_and_back false) run),
        not_negative (rev_onto ds []) (ground (arith, above))
            (digit_loop-IsNumeral 10 (inl refl) buf_size xx ds run),
      )
]
