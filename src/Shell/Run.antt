-- ===== src/Shell/Run.antt =====
-- shell/runcmd.c, readline.c, printstatus.c and the loop of sh.c. What is printed is left out, and so are
-- the signals of children in the background.
use sistemas_operativos.Prelude.{
  ℕ, zero, suc, Bool, true, false, ◌&&◌, Option, none, some, List, [], ◌∷◌, ◌++◌, ltb, ◌==◌,
  if◌then◌else◌, length,
}
use sistemas_operativos.Shell.Text.{block_contains}
use sistemas_operativos.Shell.Command.{Cmd, null_cmd, exec_cmd, back_cmd, pipe_cmd}
use sistemas_operativos.Shell.Parsing.{Host, parse_line}
use sistemas_operativos.Shell.Builtin.{
  Dirs, Builtin, exits, faults, answers, cd, pwd, exit_shell, history, prompt_of,
}

-- What `run_cmd` does: it returns 0 with nothing started, returns EXIT_SHELL, starts a command and waits
-- for it or not; or the shell ends in a built-in, or by an access through a null pointer or outside of
-- an array.
pub data Ran (D : Type 0) : Type 0 where
  goes_on : List ℕ → D → Ran D
  leaves : Ran D
  starts : Cmd → (waits : Bool) → List ℕ → D → Ran D
  exited : Ran D
  crashed : Ran D

-- The parent behind `fork`: `parsed->type` of a null pointer is a crash.
unfoldable pub launch : {D : Type 0} → Cmd → List ℕ → D → Ran D
launch null_cmd prompt d = crashed
launch (exec_cmd c) prompt d = starts (exec_cmd c) true prompt d
launch (back_cmd s c) prompt d = starts (back_cmd s c) false prompt d
launch (pipe_cmd l r) prompt d = starts (pipe_cmd l r) true prompt d

module _ {D : Type 0} (sys : Dirs D) where
  unfoldable pub parse_and_launch : Host → List ℕ → List ℕ → D → Ran D
  parse_and_launch host cmd prompt d =
      elim (parse_line (suc (length cmd)) host true (cmd ++ 0 ∷ 0 ∷ [])) [
        | none ↦ crashed
        | some parsed ↦ launch parsed prompt d
      ]

  -- Behind `cd`.
  unfoldable pub after_cd : Host → List ℕ → Builtin D → Ran D
  after_cd host cmd exits = exited
  after_cd host cmd faults = crashed
  after_cd host cmd (answers true prompt d) = goes_on prompt d
  after_cd host cmd (answers false prompt d) =
      if exit_shell cmd
      then leaves
      else if pwd sys cmd d
      then goes_on prompt d
      else parse_and_launch host cmd prompt d

  unfoldable pub run_cmd : Host → List ℕ → List ℕ → D → Ran D
  run_cmd host [] prompt d = goes_on prompt d
  run_cmd host (x ∷ cmd) prompt d =
      if history (x ∷ cmd)
      then goes_on prompt d
      else after_cd host (x ∷ cmd) (cd sys (x ∷ cmd) prompt d)

-- How a child ended, as the macros of <sys/wait.h> tell.
pub data Wait : Type 0 where
  exited_with : ℕ → Wait
  killed_by : ℕ → Wait
  stopped_by : ℕ → Wait

-- The global `status`: as `waitpid` left it, an exit code, or the negative of a signal.
pub data LastStatus : Type 0 where
  as_waited : Wait → LastStatus
  code : ℕ → LastStatus
  minus : ℕ → LastStatus

unfoldable pub classified : Wait → LastStatus
classified (exited_with n) = code n
classified (killed_by s) = minus s
classified (stopped_by s) = minus s

-- `print_status_info` after `waitpid(p, &status, 0)`.
unfoldable pub print_status_info : Cmd → Wait → LastStatus
print_status_info null_cmd w = as_waited w
print_status_info (exec_cmd c) w = if length c.scmd == 0 then as_waited w else classified w
print_status_info (back_cmd scmd c) w = if length scmd == 0 then as_waited w else classified w
print_status_info (pipe_cmd l r) w = as_waited w

abbrev pub buflen : ℕ
buflen = 1024

-- The loop of `read_line`: the bytes up to the end of the line and the input behind it; `none` is the end of
-- the input, also where a last line has no end.
unfoldable pub read_bytes : List ℕ → Option (List ℕ × List ℕ)
read_bytes [] = none
read_bytes (c ∷ input) =
    let rest = read_bytes input in
    if c == 10 then some ([], input) else elim rest [ none ↦ none | some (l, r) ↦ some (c ∷ l, r) ]

-- A line that leaves no room for its NUL, or has one inside, is outside of the model.
pub data Line : Type 0 where
  end_of_input : Line
  line : List ℕ → List ℕ → Line
  outside : Line

abbrev pub fits : List ℕ → Bool
fits l = ltb (length l) buflen && (elim (block_contains l 0) [ none ↦ true | some _ ↦ false ])

unfoldable pub read_line : List ℕ → Line
read_line input = elim (read_bytes input) [
  | none ↦ end_of_input
  | some (l, rest) ↦ if fits l then line l rest else outside
]

-- How the loop of `run_shell` ends, with the commands that were started, in order, each with whether the
-- shell waited for it.
pub data Session : Type 0 where
  over : List (Cmd × Bool) → Session
  aborted : List (Cmd × Bool) → Session
  unmodelled : Session
  still_runs : Session

-- How a child ends that the shell waits for, and the digits of a status that `sprintf` gives.
pub record Children (D : Type 0) : Type 0 where
  pub ends : Cmd → D → Wait
  pub digits : LastStatus → List ℕ

-- `$?` behind a command: it changes where the shell waited.
unfoldable pub with_status : {D : Type 0} → Children D → Cmd → Bool → D → Host → Host
with_status children c true d host = record host {
  status_digits = children.digits (print_status_info c (children.ends c d));
}
with_status children c false d host = host

module _ {D : Type 0} (sys : Dirs D) (children : Children D) where
  -- What the shell does behind `run_cmd`, where `go_on` is the rest of the loop.
  unfoldable pub after_line :
      (List (Cmd × Bool) → Host → List ℕ → D → Session) → List (Cmd × Bool) → Host → Ran D → Session
  after_line go_on done host (goes_on prompt d) = go_on done host prompt d
  after_line go_on done host leaves = over done
  after_line go_on done host (starts c waits prompt d) =
      go_on (done ++ (c, waits) ∷ []) (with_status children c waits d host) prompt d
  after_line go_on done host exited = aborted done
  after_line go_on done host crashed = aborted done

  -- The loop, with a round for each line at most.
  unfoldable pub run_shell : ℕ → List ℕ → List (Cmd × Bool) → Host → List ℕ → D → Session
  run_shell zero input done host prompt d = still_runs
  run_shell (suc fuel) input done host prompt d = elim (read_line input) [
    | end_of_input ↦ over done
    | outside ↦ unmodelled
    | line cmd rest ↦ after_line (run_shell fuel rest) done host (run_cmd sys host cmd prompt d)
  ]

  -- The prompt of $HOME, where `chdir` reaches it.
  unfoldable pub init_shell : D → List ℕ × D
  init_shell d = elim (sys.home) [
    | none ↦ ([], d)
    | some home ↦ elim (sys.chdir home d) [ none ↦ ([], d) | some d' ↦ (prompt_of home, d') ]
  ]

  unfoldable pub shell_main : ℕ → List ℕ → Host → D → Session
  shell_main fuel input host d =
      let (prompt, d') = init_shell d in run_shell fuel input [] host prompt d'
