-- ===== src/Grep.antt =====
-- The pattern matcher of xv6-public/grep.c: match(), matchhere() and matchstar(). A string is the list of
-- its characters before the terminating 0.
pub mod Pattern
mod Tests
use os_11740_assignment.Base.{ℕ, Bool, true, false, ◌||◌, ◌&&◌, ◌==◌, List, [], ◌∷◌, if◌then◌else◌}

abbrev pub is_nil : List ℕ → Bool
is_nil [] = true
is_nil (c ∷ cs) = false

-- re[0]=='.' || re[0]==*text
abbrev pub accepts : ℕ → ℕ → Bool
accepts c x = (c == b'.') || (c == x)

-- matchstar(), with `here` for matchhere() of the rest of the pattern.
unfoldable pub matchstar : ℕ → (List ℕ → Bool) → List ℕ → Bool
matchstar c here [] = here []
matchstar c here (x ∷ xs) =
    let rest = matchstar c here xs in
    if here (x ∷ xs) then true else (if (x == c) || (c == b'.') then rest else false)

-- One character of the text, and `here` for the rest.
abbrev pub match_one : ℕ → (List ℕ → Bool) → List ℕ → Bool
match_one c here [] = false
match_one c here (x ∷ xs) = if accepts c x then here xs else false

unfoldable pub matchhere : List ℕ → List ℕ → Bool
unfolding matchstar
matchhere [] text = true
matchhere (c ∷ []) text = if c == b'$' then is_nil text else match_one c (λ after. true) text
matchhere (c ∷ d ∷ re) text =
    if d == b'*' then matchstar c (matchhere re) text else match_one c (matchhere (d ∷ re)) text

-- The loop of match() over the places in the text.
unfoldable pub match_loop : (List ℕ → Bool) → List ℕ → Bool
match_loop here [] = here []
match_loop here (x ∷ xs) = let rest = match_loop here xs in if here (x ∷ xs) then true else rest

unfoldable pub match : List ℕ → List ℕ → Bool
unfolding matchhere match_loop
match [] text = match_loop (matchhere []) text
match (c ∷ re) text = if c == b'^' then matchhere re text else match_loop (matchhere (c ∷ re)) text
