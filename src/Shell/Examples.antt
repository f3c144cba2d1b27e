-- ===== src/Shell/Examples.antt =====
-- The theorems on shell/parsing.c and shell/exec.c at concrete inputs.
use sistemas_operativos.Prelude.{ℕ, ◌≡◌, refl, true, none, some, List, [], ◌∷◌, arith}
use sistemas_operativos.Shell.Text.{block_contains, split_line, split_at, skip_spaces, c_string}
use sistemas_operativos.Shell.Command.{exec_cmd_create, ExecCmd, redir, pipe_cmd_create}
use sistemas_operativos.Shell.Parsing.{Host, is_environ_var, parse_exec, parse_line, parse_cmd}
use sistemas_operativos.Shell.Words.{words, run_words, parse_exec-run_words}
use sistemas_operativos.Shell.Execute.{Os}
use sistemas_operativos.Shell.Pipes.{Segment}
use sistemas_operativos.Shell.Builtin.{
  Dirs, answers, prompt_of, cd, go_home, history, exit_shell, pwd,
}
use sistemas_operativos.Shell.Run.{
  crashed, run_cmd, after_cd, parse_and_launch, launch, run_shell, Children, exited_with,
}
use sistemas_operativos.Shell.Loop.{AllLines, typed, run_lines, run_shell-lines}

abbrev host : Host
host = record { getenv = λ _. none; status_digits = b'0' ∷ [] }

-- "ls -l"
abbrev ls_l : List ℕ
ls_l = b'l' ∷ b's' ∷ b' ' ∷ b'-' ∷ b'l' ∷ []

parse_exec_example : parse_exec host ls_l ≡ run_words host (exec_cmd_create ls_l) (words ls_l)
parse_exec_example = parse_exec-run_words host ls_l (omega arith)

-- "K=v"
abbrev variable : List ℕ
variable = b'K' ∷ b'=' ∷ b'v' ∷ []

variable_is_variable : is_environ_var variable ≡ true
unfolding is_environ_var block_contains
variable_is_variable = refl

-- "ls -l" and "wc"
abbrev ls_segment : Segment
ls_segment = record {
  head = b'l';
  tail = b's' ∷ b' ' ∷ b'-' ∷ b'l' ∷ [];
  solid = λ e. omega (arith, e);
  plain = (
    λ e. omega (arith, e),
    λ e. omega (arith, e),
    (
      λ e. omega (arith, e),
      λ e. omega (arith, e),
      (
        λ e. omega (arith, e),
        λ e. omega (arith, e),
        (
          λ e. omega (arith, e),
          λ e. omega (arith, e),
          (λ e. omega (arith, e), λ e. omega (arith, e), tt),
        ),
      ),
    ),
  );
}

abbrev wc_segment : Segment
wc_segment = record {
  head = b'w';
  tail = b'c' ∷ [];
  solid = λ e. omega (arith, e);
  plain = (
    λ e. omega (arith, e),
    λ e. omega (arith, e),
    (λ e. omega (arith, e), λ e. omega (arith, e), tt),
  );
}

-- A system that opens every file as descriptor 3, and "ls > f 2>&1".
abbrev os : Os (List (List ℕ × List ℕ))
os = record {
  open_file = λ t file flags. some 3;
  dup2_works = λ t from to. true;
  pipe = λ t. some (3, 4);
  fork_works = λ t n. true;
  setenv = λ key value env. (key, value) ∷ env;
}

abbrev ls_to_file : ExecCmd
ls_to_file = record (exec_cmd_create ls_l) {
  type = redir;
  argv = (b'l' ∷ b's' ∷ []) ∷ [];
  out_file = b'f' ∷ [];
  err_file = b'&' ∷ b'1' ∷ [];
}

-- Every directory is there, and the current one is in the state.
abbrev dirs : Dirs (List ℕ)
dirs = record { chdir = λ path d. some path; getcwd = λ d. some d; home = some (b'/' ∷ b'h' ∷ []) }

abbrev at_root : List ℕ
at_root = b'/' ∷ []

-- `cd x` goes to $HOME.
one_letter :
    cd dirs (b'c' ∷ b'd' ∷ b' ' ∷ b'x' ∷ []) [] at_root
    ≡ answers true (prompt_of (b'/' ∷ b'h' ∷ [])) (b'/' ∷ b'h' ∷ [])
unfolding cd go_home
one_letter = refl

-- A pipe with nothing on its sides.
only_pipe : run_cmd dirs host (b'|' ∷ []) [] at_root ≡ crashed
unfolding run_cmd history after_cd cd exit_shell pwd parse_and_launch launch parse_line split_line
    split_at skip_spaces c_string block_contains parse_cmd pipe_cmd_create
only_pipe = refl

abbrev two_lines : List (List ℕ)
two_lines = ls_l ∷ (b'e' ∷ b'x' ∷ b'i' ∷ b't' ∷ []) ∷ []

two_lines-AllLines : AllLines two_lines
two_lines-AllLines = (
  (
    omega arith,
    (
      omega arith,
      (
        omega arith,
        (
          omega arith,
          (
            omega arith,
            (
              omega arith,
              (omega arith, (omega arith, (omega arith, (omega arith, (omega arith, tt))))),
            ),
          ),
        ),
      ),
    ),
  ),
  (
    (
      omega arith,
      (
        omega arith,
        (
          omega arith,
          (
            omega arith,
            (omega arith, (omega arith, (omega arith, (omega arith, (omega arith, tt))))),
          ),
        ),
      ),
    ),
    tt,
  ),
)

abbrev children : Children (List ℕ)
children = record { ends = λ c d. exited_with 1; digits = λ s. b'1' ∷ [] }

run_shell-lines_example :
    run_shell dirs children 3 (typed two_lines) [] host [] at_root
    ≡ run_lines dirs children two_lines [] host [] at_root
run_shell-lines_example =
    run_shell-lines dirs children two_lines 3 [] host [] at_root two_lines-AllLines (omega arith)
