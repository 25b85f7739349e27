-- ===== src/Grep/Pattern.antt =====
-- What a pattern of xv6-public/grep.c means, and that the matcher decides it.
use os_11740_assignment.Base.{
  ℕ, ◌≡◌, ◌≢◌, ◌↔◌, ◌⊎◌, inl, inr, refl, sym, ap, ap₂, ◌∙◌, arith, Bool, true, false, ◌||◌, ◌&&◌,
  ◌==◌, ==_iff, Bool-cases, List, [], ◌∷◌, ◌++◌, All, if◌then◌else◌,
}
use os_11740_assignment.Grep.{is_nil, accepts, matchstar, match_one, matchhere, match_loop, match}

-- The pattern begins with a star; and its character `c` is the `$` at its end.
abbrev pub starts_star : List ℕ → Bool
starts_star [] = false
starts_star (d ∷ re) = d == b'*'

abbrev pub is_end : ℕ → List ℕ → Bool
is_end c re = (c == b'$') && is_nil re

-- The text begins with what the pattern means: nothing; any number of one character; the end; or one
-- character, and then the rest.
pub data Here : List ℕ → List ℕ → Type 0 where
  nothing : {re text : List ℕ} → re ≡ [] → Here re text
  starred :
      {re text : List ℕ} (c : ℕ) (rest before after : List ℕ)
      → re ≡ c ∷ b'*' ∷ rest
      → text ≡ before ++ after
      → All (λ x. accepts c x ≡ true) before
      → Here rest after
      → Here re text
  ended : {re text : List ℕ} → re ≡ b'$' ∷ [] → text ≡ [] → Here re text
  single :
      {re text : List ℕ} (c x : ℕ) (rest after : List ℕ)
      → re ≡ c ∷ rest
      → text ≡ x ∷ after
      → starts_star rest ≡ false
      → is_end c rest ≡ false
      → accepts c x ≡ true
      → Here rest after
      → Here re text

accepts_swap : (c x : ℕ) → ((x == c) || (c == b'.')) ≡ accepts c x
accepts_swap c x = ground arith

-- One round of a loop that goes on while the character is accepted.
round_true :
    (here more rest : Bool)
    → more ≡ true
    → rest ≡ true
    → (if here then true else (if more then rest else false)) ≡ true
round_true true more rest m r = refl
round_true false true rest m r = r
round_true false false rest m r = m

round_both :
    (here more rest : Bool)
    → here ≡ false
    → (if here then true else (if more then rest else false)) ≡ true
    → (more ≡ true) × (rest ≡ true)
round_both true more rest h e = absurd (ground (arith, h))
round_both false true rest h e = (refl, e)
round_both false false rest h e = (e, absurd (ground (arith, e)))

-- The loops stop at a place where the rest matches.
matchstar_complete :
    (c : ℕ) (here : List ℕ → Bool) (before after : List ℕ)
    → All (λ x. accepts c x ≡ true) before
    → here after ≡ true
    → matchstar c here (before ++ after) ≡ true
unfolding matchstar
matchstar_complete c here [] [] all h = h
matchstar_complete c here [] (x ∷ xs) all h = rw h refl
matchstar_complete c here (x ∷ before) after all h =
    round_true (here (x ∷ (before ++ after))) _ _ (accepts_swap c x ∙ all.0)
      (matchstar_complete c here before after all.1 h)

matchstar_sound :
    (c : ℕ) (here : List ℕ → Bool) (text : List ℕ)
    → matchstar c here text ≡ true
    → (before : List ℕ) × (after : List ℕ) × (text ≡ before ++ after)
      × All (λ x. accepts c x ≡ true) before
      × (here after ≡ true)
unfolding matchstar
matchstar_sound c here [] e = ([], [], refl, tt, e)
matchstar_sound c here (x ∷ xs) e = elim (Bool-cases (here (x ∷ xs))) [
  | inl now ↦ ([], x ∷ xs, refl, tt, now)
  | inr later ↦
      let both =
        round_both (here (x ∷ xs)) ((x == c) || (c == b'.')) (matchstar c here xs) later e in
      let r = matchstar_sound c here xs both.1 in
      (x ∷ r.0, r.1, ap (λ l. x ∷ l) r.2, (sym (accepts_swap c x) ∙ both.0, r.3), r.4)
]

-- A pattern of one more character, by the kind that it is.
matchhere_star :
    (c : ℕ) (re text : List ℕ) → matchhere (c ∷ b'*' ∷ re) text ≡ matchstar c (matchhere re) text
unfolding matchhere
matchhere_star c re text = refl

matchhere_end : (text : List ℕ) → matchhere (b'$' ∷ []) text ≡ is_nil text
unfolding matchhere
matchhere_end text = refl

matchhere_one :
    (c : ℕ) (re text : List ℕ)
    → starts_star re ≡ false
    → is_end c re ≡ false
    → matchhere (c ∷ re) text ≡ match_one c (matchhere re) text
unfolding matchhere
matchhere_one c [] text plain e = ground (arith, e)
matchhere_one c (d ∷ re) text plain e = rw plain refl

matchhere_complete : (re text : List ℕ) → Here re text → matchhere re text ≡ true
unfolding matchhere
matchhere_complete re text (nothing e) = ap (λ r. matchhere r text) e
matchhere_complete re text (starred c rest before after e f all h) =
    ap₂ matchhere e f
    ∙ matchhere_star c rest (before ++ after)
    ∙ matchstar_complete c (matchhere rest) before after all (matchhere_complete rest after h)
matchhere_complete re text (ended e f) = ap₂ matchhere e f
matchhere_complete re text (single c x rest after e f plain inner a h) =
    ap₂ matchhere e f
    ∙ matchhere_one c rest (x ∷ after) plain inner
    ∙ ap (λ b. if b then matchhere rest after else false) a
    ∙ matchhere_complete rest after h

match_one_sound :
    (c : ℕ) (here : List ℕ → Bool) (text : List ℕ)
    → match_one c here text ≡ true
    → (x : ℕ) × (after : List ℕ) × (text ≡ x ∷ after) × (accepts c x ≡ true) × (here after ≡ true)
match_one_sound c here [] e = absurd (ground (arith, e))
match_one_sound c here (x ∷ xs) e =
    let both = round_both false (accepts c x) (here xs) refl e in (x, xs, refl, both.0, both.1)

is_nil_eq : (text : List ℕ) → is_nil text ≡ true → text ≡ []
is_nil_eq [] e = refl
is_nil_eq (x ∷ xs) e = absurd (ground (arith, e))

matchhere_sound : (re text : List ℕ) → matchhere re text ≡ true → Here re text
unfolding matchhere
matchhere_sound [] text e = nothing refl
matchhere_sound (c ∷ []) text e = elim (Bool-cases (c == b'$')) [
  | inl dollar ↦
      let q = (==_iff c b'$').0 dollar in
      ended (ap (λ x. x ∷ []) q)
        (is_nil_eq text (sym (matchhere_end text) ∙ ap (λ x. matchhere (x ∷ []) text) (sym q) ∙ e))
  | inr other ↦
      let o : is_end c [] ≡ false = ground (arith, other) in
      let r = match_one_sound c (matchhere []) text (sym (matchhere_one c [] text refl o) ∙ e) in
      single c r.0 [] r.1 refl r.2 refl o r.3 (nothing refl)
]
matchhere_sound (c ∷ d ∷ re) text e = elim (Bool-cases (d == b'*')) [
  | inl star ↦
      let q = (==_iff d b'*').0 star in
      let r =
        matchstar_sound c (matchhere re) text
          (sym (matchhere_star c re text) ∙ ap (λ x. matchhere (c ∷ x ∷ re) text) (sym q) ∙ e) in
      starred c re r.0 r.1 (ap (λ x. c ∷ x ∷ re) q) r.2 r.3 (matchhere_sound re r.1 r.4)
  | inr plain ↦
      let o : is_end c (d ∷ re) ≡ false = ground arith in
      let r =
        match_one_sound c (matchhere (d ∷ re)) text
          (sym (matchhere_one c (d ∷ re) text plain o) ∙ e) in
      single c r.0 (d ∷ re) r.1 refl r.2 plain o r.3 (matchhere_sound (d ∷ re) r.1 r.4)
]

-- Some place in the text begins with what the pattern means.
abbrev pub Somewhere : List ℕ → List ℕ → Type 0
Somewhere re text = (before : List ℕ) × (after : List ℕ) × (text ≡ before ++ after) × Here re after

-- What a whole pattern means: with `^`, the place is the beginning of the text.
abbrev pub Means : List ℕ → List ℕ → Type 0
Means [] text = Somewhere [] text
Means (c ∷ re) text = ((c ≡ b'^') × Here re text) ⊎ ((c ≢ b'^') × Somewhere (c ∷ re) text)

match_loop_sound : (re text : List ℕ) → match_loop (matchhere re) text ≡ true → Somewhere re text
unfolding match_loop
match_loop_sound re [] e = ([], [], refl, matchhere_sound re [] e)
match_loop_sound re (x ∷ xs) e = elim (Bool-cases (matchhere re (x ∷ xs))) [
  | inl now ↦ ([], x ∷ xs, refl, matchhere_sound re (x ∷ xs) now)
  | inr later ↦
      let both = round_both (matchhere re (x ∷ xs)) true (match_loop (matchhere re) xs) later e in
      let r = match_loop_sound re xs both.1 in (x ∷ r.0, r.1, ap (λ l. x ∷ l) r.2, r.3)
]

match_loop_complete :
    (re before after : List ℕ) → Here re after → match_loop (matchhere re) (before ++ after) ≡ true
unfolding match_loop
match_loop_complete re [] [] h = matchhere_complete re [] h
match_loop_complete re [] (x ∷ xs) h = rw (matchhere_complete re (x ∷ xs) h) refl
match_loop_complete re (x ∷ before) after h =
    round_true (matchhere re (x ∷ (before ++ after))) true _ refl
      (match_loop_complete re before after h)

match_loop_iff : (re text : List ℕ) → (match_loop (matchhere re) text ≡ true) ↔ Somewhere re text
match_loop_iff re text = (
  match_loop_sound re text,
  λ h. ap (match_loop (matchhere re)) h.2 ∙ match_loop_complete re h.0 h.1 h.3,
)

-- match() finds exactly what the pattern means.
pub match_iff : (re text : List ℕ) → (match re text ≡ true) ↔ Means re text
unfolding match
match_iff [] text = match_loop_iff [] text
match_iff (c ∷ re) text = elim (Bool-cases (c == b'^')) [
  | inl caret ↦
      let q = (==_iff c b'^').0 caret in
      rw caret (
        λ e. inl (q, matchhere_sound re text e),
        λ h. elim h [
          | inl (_, here) ↦ matchhere_complete re text here
          | inr (ne, _) ↦ absurd (ne q)
        ],
      )
  | inr other ↦
      let ne : c ≢ b'^' = λ q. ground (arith, other, q) in
      rw other (
        λ e. inr (ne, match_loop_sound (c ∷ re) text e),
        λ h. elim h [
          | inl (q, _) ↦ absurd (ne q)
          | inr (_, place) ↦ (match_loop_iff (c ∷ re) text).1 place
        ],
      )
]
