-- ===== src/Shell/Ends.antt =====
-- The parser of xv6-public/sh.c ends.
use os_11740_assignment.Base.{
  ℕ, zero, suc, ◌+◌, ◌*◌, ◌≤◌, ◌<◌, ◌≡◌, ◌≢◌, refl, ap, arith, true, inl, inr, ◌⊎◌, leb, List, [],
  ◌∷◌, length,
}
use os_11740_assignment.Base.Run.{Cmd, pure, panics, out_of_fuel}
use os_11740_assignment.Base.Ends.{
  Ends, returns, panicked, Ends-bind, Ends-map, Ends-test, Ends-ne-out_of_fuel,
}
use os_11740_assignment.Shell.{
  maxargs, Command, backcmd, skip_space, Token, end_token, symbol, append_token, word, peek,
  file_word, redirs_loop, parseredirs, Args, take_word, args_loop, parseblock, parseexec, parsepipe,
  back_loop, parseline, Rule, line_rule, pipe_rule, exec_rule, block_rule, parse, is_empty,
  parsecmd,
}
use os_11740_assignment.Shell.Tokens.{after_token, after_peek}

-- No more characters are left than before.
abbrev Within : List ℕ → List ℕ → Type 0
Within s t = length t ≤ length s

file_word_same : (tok : Token) (s : List ℕ) → Ends (λ t. t ≡ s) (file_word tok s)
file_word_same end_token s = panicked
file_word_same (symbol c) s = panicked
file_word_same append_token s = panicked
file_word_same (word w) s = returns refl

-- Where something is left, a token takes characters off.
moved :
    (tok : Token) (u t : List ℕ)
    → ((tok ≡ end_token) × (skip_space u ≡ [])) ⊎ (length t < length u)
    → skip_space u ≢ []
    → length t < length u
moved tok u t (inl (_, e)) ne = absurd (ne e)
moved tok u t (inr lt) ne = lt

redirs_loop_ends : (k : ℕ) (s : List ℕ) → length s < k → Ends (Within s) (redirs_loop k s)
unfolding redirs_loop
redirs_loop_ends zero s lt = absurd (omega arith)
redirs_loop_ends (suc k) s lt =
    after_peek (b'<' ∷ b'>' ∷ []) s _ (pure [])
      (λ u le some. after_token u _ (λ tok t le1 st1. after_token t _ (λ name t2 le2 st2.
        Ends-bind (file_word_same name t2) (λ file t3 same.
          let shorter : length t3 < length s =
            omega (arith, le, le2, moved tok u t st1 some, ap (λ v. length v) same) in
          Ends-bind (redirs_loop_ends k t3 (omega (arith, shorter)))
            (λ later t4 le4. returns (omega (arith, shorter, le4)))))))
      (λ u le. returns le)

parseredirs_ends : (s : List ℕ) → Ends (Within s) (parseredirs s)
unfolding parseredirs
parseredirs_ends s = redirs_loop_ends (length s + 1) s (omega arith)

take_word_ends :
    (argc : ℕ) (rest : Cmd (List ℕ) Args) (tok : Token) (u t : List ℕ)
    → length t ≤ length u
    → ((tok ≡ end_token) × (skip_space u ≡ [])) ⊎ (length t < length u)
    → ((v : List ℕ) → length v < length u → Ends (Within v) (rest v))
    → Ends (Within u) (take_word argc rest tok t)
take_word_ends argc rest end_token u t le st h = returns le
take_word_ends argc rest (symbol c) u t le st h = panicked
take_word_ends argc rest append_token u t le st h = panicked
take_word_ends argc rest (word w) u t le st h =
    Ends-test (leb maxargs (argc + 1)) panics _ t (λ _. panicked)
      (λ _. Ends-bind (parseredirs_ends t) (λ redirs t2 le2.
        Ends-bind (h t2 (omega (arith, le2, taken st)))
          (λ more t3 le3. returns (omega (arith, le2, le3, le)))))
  where
    taken :
        ((word w ≡ end_token) × (skip_space u ≡ [])) ⊎ (length t < length u) → length t < length u
    taken (inl (e, _)) = absurd cc
    taken (inr lt) = lt

args_loop_ends : (k argc : ℕ) (s : List ℕ) → length s < k → Ends (Within s) (args_loop k argc s)
unfolding args_loop
args_loop_ends zero argc s lt = absurd (omega arith)
args_loop_ends (suc k) argc s lt =
    after_peek (b'|' ∷ b')' ∷ b'&' ∷ b';' ∷ []) s (pure ([], [])) _ (λ u le some. returns le)
      (λ u le.
        Ends-map
          (after_token u (take_word argc (args_loop k (argc + 1))) (λ tok t le1 st.
            take_word_ends argc (args_loop k (argc + 1)) tok u t le1 st
              (λ v shorter. args_loop_ends k (argc + 1) v (omega (arith, shorter, le)))))
          (λ t le1. omega (arith, le, le1)))

back_loop_ends :
    (k : ℕ) (cmd : Command) (s : List ℕ) → length s < k → Ends (Within s) (back_loop k cmd s)
unfolding back_loop
back_loop_ends zero cmd s lt = absurd (omega arith)
back_loop_ends (suc k) cmd s lt =
    after_peek (b'&' ∷ []) s _ (pure cmd)
      (λ u le some. after_token u _ (λ tok t le1 st.
        let shorter = moved tok u t st some in
        Ends-map (back_loop_ends k (backcmd cmd) t (omega (arith, shorter, le)))
          (λ v le2. omega (arith, le, le1, le2))))
      (λ u le. returns le)

-- The depth of the calls that a rule needs for `n` characters.
need : Rule → ℕ → ℕ
need line_rule n = 4 * n + 4
need pipe_rule n = 4 * n + 3
need exec_rule n = 4 * n + 2
need block_rule n = 4 * n + 1

-- Where enough depth is given, each of the functions ends, and leaves no more characters than there were.
parse_ends :
    (k : ℕ) (rule : Rule) (s : List ℕ) → need rule (length s) ≤ k → Ends (Within s) (parse k rule s)
unfolding parse need parseline parsepipe parseexec parseblock
parse_ends zero line_rule s le = absurd (omega arith)
parse_ends zero pipe_rule s le = absurd (omega arith)
parse_ends zero exec_rule s le = absurd (omega arith)
parse_ends zero block_rule s le = absurd (omega arith)
parse_ends (suc k) line_rule s deep =
    Ends-bind (parse_ends k pipe_rule s (omega arith)) (λ first t le.
      Ends-bind (back_loop_ends (length t + 1) first t (omega arith)) (λ left t2 le2.
        after_peek (b';' ∷ []) t2 _ (pure left)
          (λ u le3 some. after_token u _ (λ tok t3 le4 st.
            let shorter = moved tok u t3 st some in
            Ends-bind (parse_ends k line_rule t3 (omega (arith, shorter, le, le2, le3)))
              (λ right t4 le5. returns (omega (arith, le, le2, le3, le4, le5)))))
          (λ u le3. returns (omega (arith, le, le2, le3)))))
parse_ends (suc k) pipe_rule s deep =
    Ends-bind (parse_ends k exec_rule s (omega arith)) (λ left t le.
      after_peek (b'|' ∷ []) t _ (pure left)
        (λ u le2 some. after_token u _ (λ tok t2 le3 st.
          let shorter = moved tok u t2 st some in
          Ends-bind (parse_ends k pipe_rule t2 (omega (arith, shorter, le, le2)))
            (λ right t3 le4. returns (omega (arith, le, le2, le3, le4)))))
        (λ u le2. returns (omega (arith, le, le2))))
parse_ends (suc k) exec_rule s deep =
    after_peek (b'(' ∷ []) s _ _
      (λ u le some.
        Ends-map (parse_ends k block_rule u (omega (arith, le))) (λ t le1. omega (arith, le, le1)))
      (λ u le. Ends-bind (parseredirs_ends u) (λ redirs t le1.
        Ends-bind (args_loop_ends (length t + 1) 0 t (omega arith))
          (λ args t2 le2. returns (omega (arith, le, le1, le2)))))
parse_ends (suc k) block_rule s deep =
    after_peek (b'(' ∷ []) s _ panics
      (λ u le some. after_token u _ (λ tok t le1 st.
        let shorter = moved tok u t st some in
        Ends-bind (parse_ends k line_rule t (omega (arith, shorter, le))) (λ cmd t2 le2.
          after_peek (b')' ∷ []) t2 _ panics
            (λ v le3 closes. after_token v _ (λ tok2 t3 le4 st2.
              Ends-bind (parseredirs_ends t3)
                (λ redirs t4 le5. returns (omega (arith, le, le1, le2, le3, le4, le5)))))
            (λ v le3. panicked))))
      (λ u le. panicked)

all_taken : (s : List ℕ) → is_empty s ≡ true → s ≡ []
all_taken [] e = refl
all_taken (c ∷ cs) e = absurd cc

-- parsecmd() ends on every line, since no loop or recursion of the parser goes on for ever; where it
-- returns a command, it has read the whole line.
pub parsecmd_ends : (s : List ℕ) → Ends (λ t. t ≡ []) (parsecmd s) × (parsecmd s ≢ out_of_fuel)
unfolding parsecmd peek need
parsecmd_ends s = (ended, Ends-ne-out_of_fuel ended)
  where
    ended : Ends (λ t. t ≡ []) (parsecmd s)
    ended = Ends-bind (parse_ends (4 * length s + 4) line_rule s (omega arith)) (λ cmd t le.
        Ends-test (is_empty (skip_space t)) (pure cmd) panics (skip_space t)
          (λ e. returns (all_taken (skip_space t) e)) (λ _. panicked))
