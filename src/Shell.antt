-- ===== src/Shell.antt =====
-- The parser of xv6-public/sh.c. The state is what is left of the line, `*ps` up to `es`, behind which is a
-- 0; no character of the line is 0. A word is the text from `q` to `eq`, which nulterminate() cuts off, and
-- panic() of the shell, which prints and exits, is a panic.
pub mod Tokens
pub mod Ends
pub mod Bounded
mod Tests
use os_11740_assignment.Base.{
  ℕ, zero, suc, ◌+◌, ◌*◌, Bool, true, false, not, ◌&&◌, ◌||◌, ◌==◌, leb, List, [], ◌∷◌, ◌++◌,
  length, if◌then◌else◌,
}
use os_11740_assignment.Base.Run.{Cmd, ok, pure, panics, spins, get, ◌>>=◌, ◌>>◌}

-- MAXARGS
abbrev pub maxargs : ℕ
maxargs = 10

-- O_RDONLY, and O_WRONLY|O_CREATE
abbrev pub o_rdonly : ℕ
o_rdonly = 0

abbrev pub o_wronly_create : ℕ
o_wronly_create = 0x201

-- A redirection: its file, mode and descriptor.
pub record Redir : Type 0 where
  pub file : List ℕ
  pub mode : ℕ
  pub fd : ℕ

-- struct cmd, with the arguments of an execcmd as a list.
pub data Command : Type 0 where
  execcmd : List (List ℕ) → Command
  redircmd : Command → Redir → Command
  pipecmd : Command → Command → Command
  listcmd : Command → Command → Command
  backcmd : Command → Command

-- strchr(), for a character that is not 0
unfoldable pub strchr : List ℕ → ℕ → Bool
strchr [] c = false
strchr (t ∷ ts) c = (t == c) || strchr ts c

-- " \t\r\n\v" and "<|>&;()"
abbrev pub whitespace : List ℕ
whitespace = b' ' ∷ 9 ∷ 13 ∷ 10 ∷ 11 ∷ []

abbrev pub symbols : List ℕ
symbols = b'<' ∷ b'|' ∷ b'>' ∷ b'&' ∷ b';' ∷ b'(' ∷ b')' ∷ []

-- while(s < es && strchr(whitespace, *s)) s++
unfoldable pub skip_space : List ℕ → List ℕ
skip_space [] = []
skip_space (c ∷ cs) = let rest = skip_space cs in if strchr whitespace c then rest else c ∷ cs

abbrev pub in_word : ℕ → Bool
in_word c = not (strchr whitespace c) && not (strchr symbols c)

-- The characters up to the first that is white space or a symbol, and what is behind them.
unfoldable pub split_word : List ℕ → List ℕ × List ℕ
split_word [] = ([], [])
split_word (c ∷ cs) =
    let rest = split_word cs in if in_word c then (c ∷ rest.0, rest.1) else ([], c ∷ cs)

-- What gettoken() returns, with the word for 'a'.
pub data Token : Type 0 where
  end_token : Token
  symbol : ℕ → Token
  append_token : Token
  word : List ℕ → Token

-- The token that begins with > and what is behind it.
abbrev pub greater : List ℕ → Token × List ℕ
greater [] = (symbol b'>', [])
greater (c ∷ cs) = if c == b'>' then (append_token, cs) else (symbol b'>', c ∷ cs)

-- The token at the beginning of the text, and what is behind it.
abbrev pub token_at : List ℕ → Token × List ℕ
token_at [] = (end_token, [])
token_at (c ∷ cs) =
    if c == b'>'
    then greater cs
    else (if strchr symbols c
        then (symbol c, cs)
        else (word (split_word (c ∷ cs)).0, (split_word (c ∷ cs)).1))

unfoldable pub gettoken : Cmd (List ℕ) Token
gettoken s = let found = token_at (skip_space s) in ok found.0 (skip_space found.1)

abbrev pub begins : List ℕ → List ℕ → Bool
begins toks [] = false
begins toks (c ∷ cs) = strchr toks c

unfoldable pub peek : List ℕ → Cmd (List ℕ) Bool
peek toks s = ok (begins toks (skip_space s)) (skip_space s)

-- The redirections, the first one first, around a command.
unfoldable pub redirect : Command → List Redir → Command
redirect cmd [] = cmd
redirect cmd (r ∷ rs) = redirect (redircmd cmd r) rs

-- The redirection of a token to a file. A token that is none of them adds nothing.
abbrev pub redir_of : Token → List ℕ → List Redir
redir_of (symbol c) file =
    if c == b'<'
    then record { file = file; mode = o_rdonly; fd = 0 } ∷ []
    else (if c == b'>' then record { file = file; mode = o_wronly_create; fd = 1 } ∷ [] else [])
redir_of append_token file = record { file = file; mode = o_wronly_create; fd = 1 } ∷ []
redir_of end_token file = []
redir_of (word w) file = []

abbrev pub file_word : Token → Cmd (List ℕ) (List ℕ)
file_word (word w) = pure w
file_word end_token = panics
file_word (symbol c) = panics
file_word append_token = panics

-- The loop of parseredirs(), with a bound on its rounds: the redirections that it puts around the command.
unfoldable pub redirs_loop : ℕ → Cmd (List ℕ) (List Redir)
redirs_loop zero = spins
redirs_loop (suc k) =
    let rest = redirs_loop k in
    do
      more ← peek (b'<' ∷ b'>' ∷ [])
      if more
          then (do
            tok ← gettoken
            name ← gettoken
            file ← file_word name
            later ← rest
            pure (redir_of tok file ++ later))
          else pure []

unfoldable pub parseredirs : Cmd (List ℕ) (List Redir)
parseredirs = do s ← get; redirs_loop (length s + 1)

-- The arguments and the redirections that parseexec() collects. The command that the redirections stand
-- around is filled while they are read.
abbrev pub Args : Type 0
Args = List (List ℕ) × List Redir

-- One argument more, behind `argc` others.
abbrev pub take_word : ℕ → Cmd (List ℕ) Args → Token → Cmd (List ℕ) Args
take_word argc rest end_token = pure ([], [])
take_word argc rest (symbol c) = panics
take_word argc rest append_token = panics
take_word argc rest (word w) =
    if leb maxargs (argc + 1)
    then panics
    else (do redirs ← parseredirs; more ← rest; pure (w ∷ more.0, redirs ++ more.1))

-- The loop of parseexec(), with a bound on its rounds and the number of arguments so far.
unfoldable pub args_loop : ℕ → ℕ → Cmd (List ℕ) Args
args_loop zero argc = spins
args_loop (suc k) argc =
    let rest = args_loop k (argc + 1) in
    do
      ends ← peek (b'|' ∷ b')' ∷ b'&' ∷ b';' ∷ [])
      if ends then pure ([], []) else (do tok ← gettoken; take_word argc rest tok)

-- The calls that a function makes of the others are its arguments; parse() below closes the circle.
unfoldable pub parseblock : Cmd (List ℕ) Command → Cmd (List ℕ) Command
parseblock parseline = do
  opens ← peek (b'(' ∷ [])
  if opens
      then (do
        gettoken
        cmd ← parseline
        closes ← peek (b')' ∷ [])
        if closes then (do gettoken; redirs ← parseredirs; pure (redirect cmd redirs)) else panics)
      else panics

unfoldable pub parseexec : Cmd (List ℕ) Command → Cmd (List ℕ) Command
parseexec block = do
  opens ← peek (b'(' ∷ [])
  if opens then block else (do
    redirs ← parseredirs
    s ← get
    args ← args_loop (length s + 1) 0
    pure (redirect (execcmd args.0) (redirs ++ args.1)))

unfoldable pub parsepipe : Cmd (List ℕ) Command → Cmd (List ℕ) Command → Cmd (List ℕ) Command
parsepipe exec pipe = do
  left ← exec
  more ← peek (b'|' ∷ [])
  if more then (do gettoken; right ← pipe; pure (pipecmd left right)) else pure left

-- The loop of parseline() over the &, with a bound on its rounds.
unfoldable pub back_loop : ℕ → Command → Cmd (List ℕ) Command
back_loop zero cmd = spins
back_loop (suc k) cmd =
    let rest = back_loop k (backcmd cmd) in
    do more ← peek (b'&' ∷ []); if more then (do gettoken; rest) else pure cmd

unfoldable pub parseline : Cmd (List ℕ) Command → Cmd (List ℕ) Command → Cmd (List ℕ) Command
parseline pipe line = do
  first ← pipe
  s ← get
  left ← back_loop (length s + 1) first
  more ← peek (b';' ∷ [])
  if more then (do gettoken; right ← line; pure (listcmd left right)) else pure left

-- What is parsed.
pub data Rule : Type 0 where
  line_rule pipe_rule exec_rule block_rule : Rule

-- The four functions, with a bound on the depth of their calls.
unfoldable pub parse : ℕ → Rule → Cmd (List ℕ) Command
parse zero rule = spins
parse (suc k) line_rule = parseline (parse k pipe_rule) (parse k line_rule)
parse (suc k) pipe_rule = parsepipe (parse k exec_rule) (parse k pipe_rule)
parse (suc k) exec_rule = parseexec (parse k block_rule)
parse (suc k) block_rule = parseblock (parse k line_rule)

abbrev pub is_empty : List ℕ → Bool
is_empty [] = true
is_empty (c ∷ cs) = false

-- Leftovers are a syntax error.
unfoldable pub parsecmd : Cmd (List ℕ) Command
parsecmd = do
  s ← get
  cmd ← parse (4 * length s + 4) line_rule
  peek []
  rest ← get
  if is_empty rest then pure cmd else panics
