-- ===== src/Console/Stored.antt =====
-- Characters in the ring of the console's input, from xv6-public/console.c.
use os_11740_assignment.Base.{
  ℕ, suc, ◌+◌, ◌%◌, ◌≤◌, ◌<◌, ◌≡◌, sym, ap, ◌∙◌, arith, List, [], ◌∷◌, ◌++◌, length, update,
  update_ne,
}
use os_11740_assignment.Console.{input_buf}
use os_11740_assignment.Console.Screen.{rev_onto}

-- The characters stand from index `i` on.
abbrev pub Stored : (ℕ → ℕ) → ℕ → List ℕ → Type 0
Stored buf i [] = Unit
Stored buf i (c ∷ cs) = (buf (i % input_buf) ≡ c) × Stored buf (i + 1) cs

-- The characters, the last one first, stand from index `i` on.
abbrev pub Back : (ℕ → ℕ) → ℕ → List ℕ → Type 0
Back buf i [] = Unit
Back buf i (c ∷ cs) = (buf ((i + length cs) % input_buf) ≡ c) × Back buf i cs

module _ (buf : ℕ → ℕ) where
  pub Stored-shift :
      (i j : ℕ) (xs : List ℕ) → i % input_buf ≡ j % input_buf → Stored buf i xs → Stored buf j xs
  Stored-shift i j [] e h = tt
  Stored-shift i j (x ∷ xs) e (at, h) =
      (ap buf (sym e) ∙ at, Stored-shift (i + 1) (j + 1) xs (omega (arith, e)) h)

  pub Back-shift :
      (i j : ℕ) (xs : List ℕ) → i % input_buf ≡ j % input_buf → Back buf i xs → Back buf j xs
  Back-shift i j [] e h = tt
  Back-shift i j (x ∷ xs) e (at, h) = (ap buf (omega (arith, e)) ∙ at, Back-shift i j xs e h)

  pub Stored-append :
      (i : ℕ) (xs ys : List ℕ)
      → Stored buf i xs
      → Stored buf (i + length xs) ys
      → Stored buf i (xs ++ ys)
  Stored-append i [] ys h g = Stored-shift (i + 0) i ys (omega arith) g
  Stored-append i (x ∷ xs) ys (at, h) g = (
    at,
    Stored-append (i + 1) xs ys h
        (Stored-shift (i + suc (length xs)) (i + 1 + length xs) ys (omega arith) g),
  )

  pub Stored-rev_onto :
      (i : ℕ) (m ys : List ℕ)
      → Back buf i m
      → Stored buf (i + length m) ys
      → Stored buf i (rev_onto m ys)
  Stored-rev_onto i [] ys h g = Stored-shift (i + 0) i ys (omega arith) g
  Stored-rev_onto i (c ∷ cs) ys (at, h) g =
      Stored-rev_onto i cs (c ∷ ys) h
        (at, Stored-shift (i + suc (length cs)) (i + length cs + 1) ys (omega arith) g)

  module _ (j c : ℕ) where
    pub Stored-update :
        (i : ℕ) (xs : List ℕ)
        → i + length xs ≤ j
        → j < i + input_buf
        → Stored buf i xs
        → Stored (update buf (j % input_buf) c) i xs
    Stored-update i [] le lt h = tt
    Stored-update i (x ∷ xs) le lt (at, h) = (
      update_ne buf (j % input_buf) c (i % input_buf) (λ e. absurd (omega (arith, e))) ∙ at,
      Stored-update (i + 1) xs (omega arith) (omega arith) h,
    )

    pub Back-update :
        (i : ℕ) (xs : List ℕ)
        → i + length xs ≤ j
        → j < i + input_buf
        → Back buf i xs
        → Back (update buf (j % input_buf) c) i xs
    Back-update i [] le lt h = tt
    Back-update i (x ∷ xs) le lt (at, h) = (
      update_ne buf (j % input_buf) c ((i + length xs) % input_buf) (λ e. absurd (omega (arith, e)))
          ∙ at,
      Back-update i xs (omega arith) lt h,
    )

pub length-rev_onto : (m ys : List ℕ) → length (rev_onto m ys) ≡ length m + length ys
length-rev_onto [] ys = omega arith
length-rev_onto (c ∷ cs) ys = omega (arith, length-rev_onto cs (c ∷ ys))
