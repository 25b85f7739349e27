-- ===== src/Shell/Tests.antt =====
-- Lines for the shell.
use os_11740_assignment.Base.{ℕ, ◌≡◌, ◌≢◌, refl, List, [], ◌∷◌}
use os_11740_assignment.Base.Run.{ok, panic, out_of_fuel}
use os_11740_assignment.Base.Ends.{Ends}
use os_11740_assignment.Shell.Ends.{parsecmd_ends}
use os_11740_assignment.Shell.Bounded.{IsBounded, parsecmd-IsBounded}
use os_11740_assignment.Shell.{
  Command, execcmd, redircmd, pipecmd, listcmd, backcmd, strchr, skip_space, split_word, gettoken,
  peek, redirect, redirs_loop, parseredirs, args_loop, parseblock, parseexec, parsepipe, back_loop,
  parseline, parse, parsecmd, o_rdonly,
}

-- "a<f b|c"
abbrev piped : List ℕ
piped = b'a' ∷ b'<' ∷ b'f' ∷ b' ' ∷ b'b' ∷ b'|' ∷ b'c' ∷ []

-- The redirection stands around the whole command, although an argument comes behind it.
piped_parsed :
    parsecmd piped
    ≡ ok
        (pipecmd
          (redircmd
            (execcmd ((b'a' ∷ []) ∷ (b'b' ∷ []) ∷ []))
            (record { file = b'f' ∷ []; mode = o_rdonly; fd = 0 }))
          (execcmd ((b'c' ∷ []) ∷ [])))
        []
unfolding parsecmd parse parseline parsepipe parseexec parseblock back_loop args_loop redirs_loop
    parseredirs redirect peek gettoken split_word skip_space strchr
piped_parsed = refl

-- "(a;b)&"
block_parsed :
    parsecmd (b'(' ∷ b'a' ∷ b';' ∷ b'b' ∷ b')' ∷ b'&' ∷ [])
    ≡ ok (backcmd (listcmd (execcmd ((b'a' ∷ []) ∷ [])) (execcmd ((b'b' ∷ []) ∷ [])))) []
unfolding parsecmd parse parseline parsepipe parseexec parseblock back_loop args_loop redirs_loop
    parseredirs redirect peek gettoken split_word skip_space strchr
block_parsed = refl

-- "a)" has leftovers.
leftovers : parsecmd (b'a' ∷ b')' ∷ []) ≡ panic
unfolding parsecmd parse parseline parsepipe parseexec parseblock back_loop args_loop redirs_loop
    parseredirs redirect peek gettoken split_word skip_space strchr
leftovers = refl

parsecmd_ends_example : Ends (λ t. t ≡ []) (parsecmd piped) × (parsecmd piped ≢ out_of_fuel)
parsecmd_ends_example = parsecmd_ends piped

-- "a b"
abbrev two_words : List ℕ
two_words = b'a' ∷ b' ' ∷ b'b' ∷ []

abbrev two_words_command : Command
two_words_command = execcmd ((b'a' ∷ []) ∷ (b'b' ∷ []) ∷ [])

two_words_parsed : parsecmd two_words ≡ ok two_words_command []
unfolding parsecmd parse parseline parsepipe parseexec parseblock back_loop args_loop redirs_loop
    parseredirs redirect peek gettoken split_word skip_space strchr
two_words_parsed = refl

parsecmd-IsBounded_example : IsBounded two_words_command
parsecmd-IsBounded_example = parsecmd-IsBounded two_words [] two_words_command two_words_parsed
