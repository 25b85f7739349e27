-- ===== src/Shell/Bounded.antt =====
-- parseexec() of xv6-public/sh.c stays within the arrays of its command.
use os_11740_assignment.Base.{
  ℕ, zero, suc, ◌+◌, ◌*◌, ◌<◌, ◌≡◌, refl, subst, arith, Bool, true, false, leb, List, [], ◌∷◌, ◌++◌,
  length, if◌then◌else◌,
}
use os_11740_assignment.Base.Run.{
  Cmd, Run, ok, panic, fault, waits, out_of_fuel, pure, panics, and_then, ◌>>=◌,
}
use os_11740_assignment.Shell.{
  maxargs, Redir, Command, execcmd, redircmd, pipecmd, listcmd, backcmd, Token, end_token, symbol,
  append_token, word, begins, skip_space, gettoken, peek, redirect, parseredirs, Args, take_word,
  args_loop, parseblock, parseexec, parsepipe, back_loop, parseline, Rule, line_rule, pipe_rule,
  exec_rule, block_rule, parse, is_empty, parsecmd,
}

-- Each command that is executed has room for its arguments and the null pointer behind them.
unfoldable pub IsBounded : Command → Type 0
IsBounded (execcmd args) = length args < maxargs
IsBounded (redircmd c r) = IsBounded c
IsBounded (pipecmd c d) = IsBounded c × IsBounded d
IsBounded (listcmd c d) = IsBounded c × IsBounded d
IsBounded (backcmd c) = IsBounded c

-- What is returned satisfies `Q`.
pub data Gives {κ} {A : Type κ} (Q : A → Type 0) : Run (List ℕ) A → Type κ where
  gives : {a : A} {s : List ℕ} → Q a → Gives Q (ok a s)
  gives_panic : Gives Q panic
  gives_fault : Gives Q fault
  gives_waits : Gives Q waits
  gives_out_of_fuel : Gives Q out_of_fuel

Gives-bind :
    {A B : Type 0} {P : A → Type 0} {Q : B → Type 0} {r : Run (List ℕ) A} {k : A → Cmd (List ℕ) B}
    → Gives P r
    → ((a : A) (s : List ℕ) → P a → Gives Q (k a s))
    → Gives Q (and_then r k)
Gives-bind (gives h) f = f _ _ h
Gives-bind gives_panic f = gives_panic
Gives-bind gives_fault f = gives_fault
Gives-bind gives_waits f = gives_waits
Gives-bind gives_out_of_fuel f = gives_out_of_fuel

Gives-any : {A : Type 0} (r : Run (List ℕ) A) → Gives (λ a. Unit) r
Gives-any (ok a s) = gives tt
Gives-any panic = gives_panic
Gives-any fault = gives_fault
Gives-any waits = gives_waits
Gives-any out_of_fuel = gives_out_of_fuel

module _ {A : Type 0} {Q : A → Type 0} where
  Gives-if :
      (b : Bool) (m n : Cmd (List ℕ) A) (s : List ℕ)
      → (b ≡ true → Gives Q (m s))
      → (b ≡ false → Gives Q (n s))
      → Gives Q ((if b then m else n) s)
  Gives-if true m n s h g = h refl
  Gives-if false m n s h g = g refl

  Gives-peek :
      (toks s : List ℕ) (m n : Cmd (List ℕ) A)
      → ((u : List ℕ) → Gives Q (m u))
      → ((u : List ℕ) → Gives Q (n u))
      → Gives Q ((do more ← peek toks; if more then m else n) s)
  unfolding peek
  Gives-peek toks s m n h g =
      Gives-if (begins toks (skip_space s)) m n (skip_space s) (λ _. h (skip_space s))
        (λ _. g (skip_space s))

redirect-IsBounded : (c : Command) (rs : List Redir) → IsBounded c → IsBounded (redirect c rs)
unfolding redirect IsBounded
redirect-IsBounded c [] h = h
redirect-IsBounded c (r ∷ rs) h = redirect-IsBounded (redircmd c r) rs h

-- Room for `argc` arguments and these.
abbrev HasRoom : ℕ → Args → Type 0
HasRoom argc a = argc + length a.0 < maxargs

take_word-HasRoom :
    (argc : ℕ) (rest : Cmd (List ℕ) Args) (tok : Token) (s : List ℕ)
    → argc < maxargs
    → (argc + 1 < maxargs → (t : List ℕ) → Gives (HasRoom (argc + 1)) (rest t))
    → Gives (HasRoom argc) (take_word argc rest tok s)
take_word-HasRoom argc rest end_token s lt h = gives (omega arith)
take_word-HasRoom argc rest (symbol c) s lt h = gives_panic
take_word-HasRoom argc rest append_token s lt h = gives_panic
take_word-HasRoom argc rest (word w) s lt h =
    Gives-if (leb maxargs (argc + 1)) panics _ s (λ _. gives_panic)
      (λ e. Gives-bind (Gives-any (parseredirs s)) (λ redirs t _.
        Gives-bind (h (ground (arith, e)) t) (λ more u room. gives (omega (arith, room)))))

args_loop-HasRoom :
    (k argc : ℕ) (s : List ℕ) → argc < maxargs → Gives (HasRoom argc) (args_loop k argc s)
unfolding args_loop
args_loop-HasRoom zero argc s lt = gives_out_of_fuel
args_loop-HasRoom (suc k) argc s lt =
    Gives-peek (b'|' ∷ b')' ∷ b'&' ∷ b';' ∷ []) s (pure ([], [])) _ (λ u. gives (omega arith))
      (λ u. Gives-bind (Gives-any (gettoken u)) (λ tok t _.
        take_word-HasRoom argc (args_loop k (argc + 1)) tok t lt
          (λ room v. args_loop-HasRoom k (argc + 1) v room)))

back_loop-IsBounded :
    (k : ℕ) (c : Command) (s : List ℕ) → IsBounded c → Gives IsBounded (back_loop k c s)
unfolding back_loop IsBounded
back_loop-IsBounded zero c s h = gives_out_of_fuel
back_loop-IsBounded (suc k) c s h =
    Gives-peek (b'&' ∷ []) s _ (pure c)
      (λ u. Gives-bind (Gives-any (gettoken u)) (λ tok t _. back_loop-IsBounded k (backcmd c) t h))
      (λ u. gives h)

parse-IsBounded : (k : ℕ) (rule : Rule) (s : List ℕ) → Gives IsBounded (parse k rule s)
unfolding parse parseline parsepipe parseexec parseblock IsBounded
parse-IsBounded zero rule s = gives_out_of_fuel
parse-IsBounded (suc k) line_rule s = Gives-bind (parse-IsBounded k pipe_rule s) (λ first t h.
    Gives-bind (back_loop-IsBounded (length t + 1) first t h) (λ left u g.
      Gives-peek (b';' ∷ []) u _ (pure left)
        (λ v.
          Gives-bind (Gives-any (gettoken v))
            (λ tok w _. Gives-bind (parse-IsBounded k line_rule w) (λ right x f. gives (g, f))))
        (λ v. gives g)))
parse-IsBounded (suc k) pipe_rule s = Gives-bind (parse-IsBounded k exec_rule s) (λ left t h.
    Gives-peek (b'|' ∷ []) t _ (pure left)
      (λ v.
        Gives-bind (Gives-any (gettoken v))
          (λ tok w _. Gives-bind (parse-IsBounded k pipe_rule w) (λ right x f. gives (h, f))))
      (λ v. gives h))
parse-IsBounded (suc k) exec_rule s =
    Gives-peek (b'(' ∷ []) s _ _ (λ u. parse-IsBounded k block_rule u)
      (λ u. Gives-bind (Gives-any (parseredirs u)) (λ redirs t _.
        Gives-bind (args_loop-HasRoom (length t + 1) 0 t (omega arith)) (λ args v room.
          gives (redirect-IsBounded (execcmd args.0) (redirs ++ args.1) (omega (arith, room))))))
parse-IsBounded (suc k) block_rule s =
    Gives-peek (b'(' ∷ []) s _ panics
      (λ u. Gives-bind (Gives-any (gettoken u)) (λ tok t _.
        Gives-bind (parse-IsBounded k line_rule t) (λ cmd v h.
          Gives-peek (b')' ∷ []) v _ panics
            (λ w. Gives-bind (Gives-any (gettoken w)) (λ tok2 x _.
              Gives-bind (Gives-any (parseredirs x))
                (λ redirs y _. gives (redirect-IsBounded cmd redirs h))))
            (λ w. gives_panic))))
      (λ u. gives_panic)

-- Each command to execute in what parsecmd() returns has fewer than MAXARGS arguments, so that they and
-- the null pointer behind them fit in its arrays.
pub parsecmd-IsBounded : (s t : List ℕ) (c : Command) → parsecmd s ≡ ok c t → IsBounded c
unfolding parsecmd
parsecmd-IsBounded s t c e = bounded (subst (Gives IsBounded) e all)
  where
    bounded : Gives IsBounded (ok c t) → IsBounded c
    bounded (gives h) = h

    all : Gives IsBounded (parsecmd s)
    all = Gives-bind (parse-IsBounded (4 * length s + 4) line_rule s) (λ cmd t h.
        Gives-bind (Gives-any (peek [] t))
          (λ more u _. Gives-if (is_empty u) (pure cmd) panics u (λ _. gives h) (λ _. gives_panic)))
