-- ===== src/Print/Digits.antt =====
-- printint() of xv6-public/console.c and printf.c stays in its buffer, and atoi() of xv6-public/ulib.c
-- reads back what it prints.
use os_11740_assignment.Base.{
  ℕ, zero, suc, ◌+◌, ◌-◌, ◌*◌, ◌/◌, ◌%◌, ◌^◌, ◌≤◌, ◌<◌, ◌≡◌, ◌⊎◌, inl, inr, refl, sym, ap, ap₂,
  subst, ◌∙◌, arith, Bool, true, false, Bool-cases, ◌&&◌, ◌==◌, ltb, leb, Option, Option-cases,
  none, some, List, [], ◌∷◌, ◌++◌, length, length-append, if◌then◌else◌,
}
use os_11740_assignment.Mmu.{u32}
use os_11740_assignment.Console.Screen.{rev_onto}
use os_11740_assignment.Console.Stored.{length-rev_onto}
use os_11740_assignment.Print.{
  buf_size, digit_lower, digit_upper, cons_to, backwards, minus_and_back, digit_loop, printint,
  atoi_loop, atoi,
}

-- 10 to the power of `k`
pub limit : ℕ → ℕ
limit zero = 1
limit (suc k) = 10 * limit k

pub below_limit : (x : ℕ) → x < 2 ^ 32 → x < limit 10
unfolding limit
below_limit x word = omega (arith, word)

pub rev_onto_last :
    (xs : List ℕ) (c : ℕ) (ys : List ℕ) → rev_onto (xs ++ (c ∷ [])) ys ≡ c ∷ rev_onto xs ys
rev_onto_last [] c ys = refl
rev_onto_last (x ∷ xs) c ys = rev_onto_last xs c (x ∷ ys)

minus_and_back-some :
    (neg : Bool) (ds : List ℕ)
    → length ds ≤ 9 + 1
    → (cs : List ℕ) × (minus_and_back neg (some ds) ≡ some cs) × (length cs ≤ 11)
minus_and_back-some true ds short = (
  rev_onto (ds ++ (b'-' ∷ [])) [],
  ap (λ b. backwards (if b then some (ds ++ (b'-' ∷ [])) else none)) fits,
  omega (arith, short, length-append ds (b'-' ∷ []), length-rev_onto (ds ++ (b'-' ∷ [])) []),
)
  where
    fits : ltb (length ds) buf_size ≡ true
    fits = ground (arith, short)
minus_and_back-some false ds short =
    (rev_onto ds [], refl, omega (arith, short, length-rev_onto ds []))

module _ (digit : ℕ → ℕ) (base : ℕ) (known : (base ≡ 10) ⊎ (base ≡ 16)) where
  fewer : (x m : ℕ) → x < 10 * m → x / base < m
  fewer x m lt = elim known [ inl e ↦ rw e (omega (arith, lt)) | inr e ↦ rw e (omega (arith, lt)) ]

  -- A number below 10 to the power of `j` has at most `j` digits.
  pub digit_loop-some :
      (k j x : ℕ)
      → j < k
      → x < limit (suc j)
      → (ds : List ℕ) × (digit_loop digit base k x ≡ some ds) × (length ds ≤ j + 1)
  unfolding digit_loop limit
  digit_loop-some zero j x lt small = absurd (omega arith)
  digit_loop-some (suc k) zero x lt small = (digit (x % base) ∷ [], rw one_digit refl, omega arith)
    where
      one_digit : (x / base == 0) ≡ true
      one_digit = let q = fewer x 1 small in ground arith
  digit_loop-some (suc k) (suc j) x lt small = elim (Bool-cases (x / base == 0)) [
    | inl e ↦ (digit (x % base) ∷ [], rw e refl, omega arith)
    | inr e ↦
        let (ds, run, short) =
          digit_loop-some k j (x / base) (omega arith) (fewer x (limit (suc j)) small) in
        (digit (x % base) ∷ ds, rw e (ap (cons_to (digit (x % base))) run), omega (arith, short))
  ]

  -- printint() of a word returns, with at most ten digits and a sign: it stays in the 16 bytes of its
  -- buffer. The condition is that the base is 10 or 16, as it is in each call.
  pub printint-some :
      (xx : ℕ) (sign : Bool)
      → xx < 2 ^ 32
      → (cs : List ℕ) × (printint digit xx base sign ≡ some cs) × (length cs ≤ 11)
  unfolding printint limit
  printint-some xx sign word =
      let (ds, run, short) =
        digit_loop-some buf_size 9 (if sign && leb (2 ^ 31) xx then u32 (2 ^ 32 - xx) else xx)
          (omega arith) (ground (arith, word)) in
      let (cs, all, fits) = minus_and_back-some (sign && leb (2 ^ 31) xx) ds short in
      (cs, ap (minus_and_back (sign && leb (2 ^ 31) xx)) run ∙ all, fits)

pub rev_onto-append : (xs ys zs : List ℕ) → rev_onto xs ys ++ zs ≡ rev_onto xs (ys ++ zs)
rev_onto-append [] ys zs = refl
rev_onto-append (x ∷ xs) ys zs = rev_onto-append xs (x ∷ ys) zs

atoi_loop_end :
    (n c : ℕ) (rest : List ℕ) → (leb b'0' c && leb c b'9') ≡ false → atoi_loop n (c ∷ rest) ≡ n
unfolding atoi_loop
atoi_loop_end n c rest other = rw other refl

pub no_more : {ds : List ℕ} → none ≡ some ds → ⊥
no_more e = cc

pub same_digits : {ds es : List ℕ} → some ds ≡ some es → ds ≡ es
same_digits e = cc

module _ (digit : ℕ → ℕ) (decimal : (d : ℕ) → d < 10 → digit d ≡ b'0' + d) where
  -- atoi() takes one more digit.
  atoi_digit :
      (x : ℕ) (rest : List ℕ)
      → x < 2 ^ 32
      → atoi_loop (x / 10) (digit (x % 10) ∷ rest) ≡ atoi_loop x rest
  unfolding atoi_loop
  atoi_digit x rest word =
      ap (λ c. atoi_loop (x / 10) (c ∷ rest)) (decimal (x % 10) (omega arith))
      ∙ (ap (λ b. if b then atoi_loop next rest else x / 10) is_digit
          ∙ ap (λ n. atoi_loop n rest) (omega (arith, word)))
    where
      next : ℕ
      next = u32 (x / 10 * 10 + (b'0' + x % 10) + 2 ^ 32 - b'0')

      is_digit : (leb b'0' (b'0' + x % 10) && leb (b'0' + x % 10) b'9') ≡ true
      is_digit = ground arith

  -- atoi() reads the digits of `x` and goes on with `x`.
  atoi_loop-digit_loop :
      (k x : ℕ) (ds rest : List ℕ)
      → x < 2 ^ 32
      → digit_loop digit 10 k x ≡ some ds
      → atoi_loop 0 (rev_onto ds rest) ≡ atoi_loop x rest
  unfolding digit_loop
  atoi_loop-digit_loop zero x ds rest word e = absurd cc
  atoi_loop-digit_loop (suc k) x ds rest word e =
      let d = digit (x % 10) in
      let tested : Bool → Option (List ℕ) =
        λ b. if b then some (d ∷ []) else cons_to d (digit_loop digit 10 k (x / 10)) in
      elim (Bool-cases (x / 10 == 0)) [
        | inl small ↦
            let one : some (d ∷ []) ≡ some ds = sym (ap tested small) ∙ e in
            subst (λ l. atoi_loop 0 (rev_onto l rest) ≡ atoi_loop x rest) (same_digits one)
              (ap (λ m. atoi_loop m (d ∷ rest)) (ground (arith, small)) ∙ atoi_digit x rest word)
        | inr big ↦
            let more : cons_to d (digit_loop digit 10 k (x / 10)) ≡ some ds =
              sym (ap tested big) ∙ e in
            elim (Option-cases (digit_loop digit 10 k (x / 10))) [
              | inl run ↦ absurd (no_more (sym (ap (cons_to d) run) ∙ more))
              | inr (es, run) ↦
                  subst (λ l. atoi_loop 0 (rev_onto l rest) ≡ atoi_loop x rest)
                    (same_digits (sym (ap (cons_to d) run) ∙ more))
                    (atoi_loop-digit_loop k (x / 10) es (d ∷ rest) (omega (arith, word)) run
                      ∙ atoi_digit x rest word)
            ]
      ]

  atoi-printint_decimal :
      (x : ℕ) (sign : Bool) (c : ℕ) (cs rest : List ℕ)
      → x < 2 ^ 31
      → printint digit x 10 sign ≡ some cs
      → (leb b'0' c && leb c b'9') ≡ false
      → atoi (cs ++ (c ∷ rest)) ≡ x
  unfolding printint atoi
  atoi-printint_decimal x sign c cs rest small run other =
      elim (Option-cases (digit_loop digit 10 buf_size x)) [
        | inl e ↦ absurd (no_more (sym (ap (minus_and_back false) e) ∙ plain))
        | inr (ds, e) ↦
            let same = same_digits (sym (ap (minus_and_back false) e) ∙ plain) in
            ap (λ l. atoi_loop 0 (l ++ (c ∷ rest))) (sym same)
            ∙ (ap (atoi_loop 0) (rev_onto-append ds [] (c ∷ rest))
                ∙ (atoi_loop-digit_loop buf_size x ds (c ∷ rest) (omega (arith, small)) e
                    ∙ atoi_loop_end x c rest other))
      ]
    where
      no_sign : (sign && leb (2 ^ 31) x) ≡ false
      no_sign = ground (arith, small)

      plain : minus_and_back false (digit_loop digit 10 buf_size x) ≡ some cs
      plain =
          sym (
            ap
              (λ (b : Bool).
                minus_and_back b (digit_loop digit 10 buf_size (if b then u32 (2 ^ 32 - x) else x)))
              no_sign)
          ∙ run

decimal_digits : (k x : ℕ) → digit_loop digit_lower 10 k x ≡ digit_loop digit_upper 10 k x
unfolding digit_loop
decimal_digits zero x = refl
decimal_digits (suc k) x =
    ap₂ (λ d more. if x / 10 == 0 then some (d ∷ []) else cons_to d more) digit
      (decimal_digits k (x / 10))
  where
    digit : digit_lower (x % 10) ≡ digit_upper (x % 10)
    digit = ground arith

-- Both printint() functions print the same in base 10.
pub printint_decimal :
    (x : ℕ) (sign : Bool) → printint digit_lower x 10 sign ≡ printint digit_upper x 10 sign
unfolding printint
printint_decimal x sign =
    ap (minus_and_back (sign && leb (2 ^ 31) x))
      (decimal_digits buf_size (if sign && leb (2 ^ 31) x then u32 (2 ^ 32 - x) else x))

-- A number that is not negative as an int is printed in base 10 by both printint() functions as the same
-- characters, and atoi() reads it back from them, whatever stands behind them so long as it does not
-- begin with a digit.
pub atoi-printint :
    (x : ℕ) (sign : Bool) (c : ℕ) (rest : List ℕ)
    → x < 2 ^ 31
    → (leb b'0' c && leb c b'9') ≡ false
    → (cs : List ℕ) × (printint digit_lower x 10 sign ≡ some cs)
      × (printint digit_upper x 10 sign ≡ some cs)
      × (atoi (cs ++ (c ∷ rest)) ≡ x)
atoi-printint x sign c rest small other =
    let (cs, run, _) = printint-some digit_upper 10 (inl refl) x sign (omega (arith, small)) in
    (
      cs,
      printint_decimal x sign ∙ run,
      run,
      atoi-printint_decimal digit_upper (λ d lt. ground arith) x sign c cs rest small run other,
    )
