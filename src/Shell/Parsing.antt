-- ===== src/Shell/Parsing.antt =====
-- shell/parsing.c. `none` is an access outside of an array: a twenty-first argument, or the byte before
-- the line's start.
use sistemas_operativos.Prelude.{
  ℕ, zero, suc, ◌==◌, Bool, true, false, not, Option, none, some, List, [], ◌∷◌, ◌++◌, ltb,
  if◌then◌else◌, length, drop, take, get_or,
}
use mathlib.Core.Option
use sistemas_operativos.Shell.Text.{split_line, c_string, block_contains, get_token}
use sistemas_operativos.Shell.Command.{
  ExecCmd, redir, Cmd, null_cmd, exec_cmd, exec_cmd_create, back_cmd_create, pipe_cmd_create,
}

-- `getenv`, and the digits that `sprintf` writes for `status`.
pub record Host : Type 0 where
  pub getenv : List ℕ → Option (List ℕ)
  pub status_digits : List ℕ

abbrev pub maxargs : ℕ
maxargs = 20

abbrev redir_out : ℕ → List ℕ → ExecCmd → ExecCmd
redir_out zero arg c = record c { out_file = drop 1 arg; type = redir }
redir_out (suc zero) arg c = record c { err_file = drop 2 arg; type = redir }
redir_out (suc (suc n)) arg c = record c { type = redir }

-- `none` where the token redirects nothing.
unfoldable pub parse_redir_flow : ExecCmd → List ℕ → Option ExecCmd
parse_redir_flow c arg = elim (block_contains arg b'>') [
  | some out_idx ↦ some (redir_out out_idx arg c)
  | none ↦ elim (block_contains arg b'<') [
    | some _ ↦ some (record c { in_file = drop 1 arg; type = redir })
    | none ↦ none
  ]
]

-- Whether the token is of the form KEY=VALUE.
unfoldable pub is_environ_var : List ℕ → Bool
is_environ_var arg = elim (block_contains arg b'=') [
  | none ↦ false
  | some zero ↦ false
  | some (suc _) ↦ elim (block_contains arg b'-') [ none ↦ true | some _ ↦ false ]
]

unfoldable pub expand_environ_var : Host → List ℕ → List ℕ
expand_environ_var host [] = []
expand_environ_var host (x ∷ []) = x ∷ []
expand_environ_var host (x ∷ y ∷ ys) =
    if not (x == b'$')
    then x ∷ y ∷ ys
    else if y == b'?'
    then host.status_digits
    else elim (host.getenv (y ∷ ys)) [ none ↦ [] | some v ↦ v ]

-- `argv[argc++] = tok`, where the array also needs room for the null pointer behind the arguments.
abbrev add_arg : ExecCmd → List ℕ → Option ExecCmd
add_arg c [] = some c
add_arg c (x ∷ xs) =
    if ltb (suc (length c.argv)) maxargs
    then some (record c { argv = c.argv ++ (x ∷ xs) ∷ [] })
    else none

abbrev add_environ : ExecCmd → List ℕ → Option ExecCmd
add_environ c tok =
    if ltb (length c.eargv) maxargs then some (record c { eargv = c.eargv ++ tok ∷ [] }) else none

-- The body of the loop of `parse_exec` behind `get_token`.
unfoldable pub parse_token : Host → ExecCmd → List ℕ → Option ExecCmd
parse_token host c tok = elim (parse_redir_flow c tok) [
  | some c' ↦ some c'
  | none ↦ if is_environ_var tok then add_environ c tok else add_arg c (expand_environ_var host tok)
]

-- The loop of `parse_exec`, with a round for each byte of the string at most.
unfoldable pub parse_tokens : ℕ → Host → ExecCmd → List ℕ → Option ExecCmd
parse_tokens fuel host c [] = some c
parse_tokens zero host c (x ∷ xs) = none
parse_tokens (suc fuel) host c (x ∷ xs) = elim (get_token (x ∷ xs)) [
  | none ↦ none
  | some (tok, rest) ↦ elim (parse_token host c tok) [
    | none ↦ none
    | some c' ↦ parse_tokens fuel host c' (drop 1 rest)
  ]
]

unfoldable pub parse_exec : Host → List ℕ → Option ExecCmd
parse_exec host buf_cmd = parse_tokens (length buf_cmd) host (exec_cmd_create buf_cmd) buf_cmd

-- The command with the `&` at index `i`.
unfoldable pub parse_back : Host → List ℕ → ℕ → Option Cmd
parse_back host buf_cmd i = elim (parse_exec host (take i buf_cmd)) [
  | none ↦ none
  | some e ↦ some (back_cmd_create e)
]

-- `first` says that the command starts the line's array: the byte before any other command is a NUL or
-- a space. An empty command is a null pointer.
unfoldable pub parse_cmd : Host → Bool → List ℕ → Option Cmd
parse_cmd host first [] = some null_cmd
parse_cmd host first (x ∷ xs) = elim (block_contains (x ∷ xs) b'&') [
  | none ↦ Option.map exec_cmd (parse_exec host (x ∷ xs))
  | some zero ↦ if first then none else parse_back host (x ∷ xs) 0
  | some (suc i) ↦
      if get_or (x ∷ xs) i 0 == b'>'
      then Option.map exec_cmd (parse_exec host (x ∷ xs))
      else parse_back host (x ∷ xs) (suc i)
]

abbrev pub join_pipe : Option Cmd → Option Cmd → Option Cmd
join_pipe none r = none
join_pipe (some l) none = none
join_pipe (some l) (some r) = some (pipe_cmd_create l r)

-- Each round takes a `|` off the array at `buf`.
unfoldable pub parse_line : ℕ → Host → Bool → List ℕ → Option Cmd
parse_line zero host first buf = none
parse_line (suc fuel) host first buf = elim (split_line buf b'|') [
  | none ↦ none
  | some (left, right) ↦ elim (c_string right) [
    | none ↦ none
    | some s ↦ join_pipe (parse_cmd host first left) (elim (block_contains s b'|') [
      | none ↦ parse_cmd host false s
      | some _ ↦ parse_line fuel host false right
    ])
  ]
]
