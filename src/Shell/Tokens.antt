-- ===== src/Shell/Tokens.antt =====
-- gettoken() and peek() of xv6-public/sh.c take characters off the line.
use os_11740_assignment.Base.{
  ℕ, ◌≤◌, ◌<◌, ◌≡◌, ◌≢◌, refl, sym, ap, ◌∙◌, arith, true, false, Bool-cases, inl, inr, ◌⊎◌, ◌==◌,
  List, [], ◌∷◌, length, if◌then◌else◌,
}
use os_11740_assignment.Base.Run.{Cmd, ◌>>=◌}
use os_11740_assignment.Base.Ends.{Ends, Ends-test}
use os_11740_assignment.Shell.{
  strchr, whitespace, symbols, skip_space, split_word, Token, end_token, greater, token_at,
  gettoken, begins, peek,
}

pub length-skip_space : (s : List ℕ) → length (skip_space s) ≤ length s
unfolding skip_space
length-skip_space [] = omega arith
length-skip_space (c ∷ cs) = ground (arith, length-skip_space cs)

-- White space is skipped, and so the text is empty or begins with another character.
IsSkipped : List ℕ → Type 0
IsSkipped [] = Unit
IsSkipped (c ∷ cs) = strchr whitespace c ≡ false

skip_space-IsSkipped : (s : List ℕ) → IsSkipped (skip_space s)
unfolding skip_space IsSkipped
skip_space-IsSkipped [] = tt
skip_space-IsSkipped (c ∷ cs) = elim (Bool-cases (strchr whitespace c)) [
  | inl e ↦ rw e (skip_space-IsSkipped cs)
  | inr e ↦ rw e e
]

skip_space_skipped : (s : List ℕ) → IsSkipped s → skip_space s ≡ s
unfolding skip_space IsSkipped
skip_space_skipped [] h = refl
skip_space_skipped (c ∷ cs) h = rw h refl

length-split_word : (s : List ℕ) → length (split_word s).1 ≤ length s
unfolding split_word
length-split_word [] = omega arith
length-split_word (c ∷ cs) = ground (arith, length-split_word cs)

length-greater : (cs : List ℕ) → length (greater cs).1 ≤ length cs
length-greater [] = omega arith
length-greater (c ∷ cs) = ground arith

-- A token takes at least one character.
length-token_at :
    (c : ℕ) (cs : List ℕ) → strchr whitespace c ≡ false → length (token_at (c ∷ cs)).1 ≤ length cs
unfolding split_word
length-token_at c cs h = elim (Bool-cases (c == b'>')) [
  | inl e ↦ rw e (length-greater cs)
  | inr e ↦ elim (Bool-cases (strchr symbols c)) [
    | inl f ↦ rw (e, f) (omega arith)
    | inr f ↦ rw (e, f, h) (length-split_word cs)
  ]
]

-- What gettoken() leaves.
abbrev rest_of : List ℕ → List ℕ
rest_of s = skip_space (token_at (skip_space s)).1

token_rest : (s : List ℕ) → IsSkipped s → s ≢ [] → length (token_at s).1 < length s
unfolding IsSkipped
token_rest [] h ne = absurd (ne refl)
token_rest (c ∷ cs) h ne = omega (arith, length-token_at c cs h)

rest_of_shorter : (s : List ℕ) → skip_space s ≢ [] → length (rest_of s) < length s
rest_of_shorter s ne = omega (
  arith,
  length-skip_space s,
  length-skip_space (token_at (skip_space s)).1,
  token_rest (skip_space s) (skip_space-IsSkipped s) ne,
)

-- The token is the end of the line, or characters were taken off.
token_or_end :
    (s : List ℕ)
    → (((token_at (skip_space s)).0 ≡ end_token) × (skip_space s ≡ []))
      ⊎ (length (rest_of s) < length s)
token_or_end s = go (skip_space s) refl
  where
    go :
        (u : List ℕ)
        → skip_space s ≡ u
        → (((token_at (skip_space s)).0 ≡ end_token) × (skip_space s ≡ []))
          ⊎ (length (rest_of s) < length s)
    go [] e = inl (ap (λ v. (token_at v).0) e, e)
    go (c ∷ cs) e = inr (rest_of_shorter s (λ n. not_nil (sym n ∙ e)))
      where
        not_nil : [] ≡ c ∷ cs → ⊥
        not_nil p = cc

length-rest_of : (s : List ℕ) → length (rest_of s) ≤ length s
unfolding skip_space
length-rest_of s = elim (token_or_end s) [
  | inl (_, e) ↦ rw e (omega arith)
  | inr lt ↦ omega (arith, lt)
]

module _ {A : Type 0} {P : List ℕ → Type 0} where
  -- What comes after a token.
  pub after_token :
      (s : List ℕ) (k : Token → Cmd (List ℕ) A)
      → ((tok : Token) (t : List ℕ)
          → length t ≤ length s
          → ((tok ≡ end_token) × (skip_space s ≡ [])) ⊎ (length t < length s)
          → Ends P (k tok t))
      → Ends P ((do tok ← gettoken; k tok) s)
  unfolding gettoken
  after_token s k h = h (token_at (skip_space s)).0 (rest_of s) (length-rest_of s) (token_or_end s)

  -- What comes after a look at the next character: where it is one of them, there is a token.
  pub after_peek :
      (toks s : List ℕ) (m n : Cmd (List ℕ) A)
      → ((u : List ℕ) → length u ≤ length s → skip_space u ≢ [] → Ends P (m u))
      → ((u : List ℕ) → length u ≤ length s → Ends P (n u))
      → Ends P ((do more ← peek toks; if more then m else n) s)
  unfolding peek
  after_peek toks s m n h g =
      Ends-test (begins toks (skip_space s)) m n (skip_space s)
        (λ e. h (skip_space s) (length-skip_space s) (λ p.
          begun (skip_space s) e
            (sym (skip_space_skipped (skip_space s) (skip_space-IsSkipped s)) ∙ p)))
        (λ e. g (skip_space s) (length-skip_space s))
    where
      begun : (u : List ℕ) → begins toks u ≡ true → u ≢ []
      begun [] e p = absurd cc
      begun (c ∷ cs) e p = absurd cc
