-- ===== src/Grep/Tests.antt =====
-- The matcher on the pattern "b.*d$" and the text "abcd".
use os_11740_assignment.Base.{ℕ, ◌≡◌, ◌↔◌, refl, true, false, List, [], ◌∷◌}
use os_11740_assignment.Grep.{matchstar, matchhere, match_loop, match}
use os_11740_assignment.Grep.Pattern.{Means, match_iff}

abbrev pattern_text : List ℕ
pattern_text = b'b' ∷ b'.' ∷ b'*' ∷ b'd' ∷ b'$' ∷ []

abbrev line : List ℕ
line = b'a' ∷ b'b' ∷ b'c' ∷ b'd' ∷ []

match_iff_example : (match pattern_text line ≡ true) ↔ Means pattern_text line
match_iff_example = match_iff pattern_text line

matches : match pattern_text line ≡ true
unfolding match match_loop matchhere matchstar
matches = refl

caret_fails : match (b'^' ∷ pattern_text) line ≡ false
unfolding match match_loop matchhere matchstar
caret_fails = refl
