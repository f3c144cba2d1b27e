-- ===== src/Shell/Execute.antt =====
-- `open_redir_fd` and `exec_cmd` of shell/exec.c as one process runs them: the table of its open files,
-- its environment, and how it ends. What the system answers is in the record `Os`.
use sistemas_operativos.Prelude.{
  ℕ, Bool, Option, none, some, List, [], ◌∷◌, if◌then◌else◌, update, bytes_eq,
}
use sistemas_operativos.Shell.Command.{
  ExecType, exec, redir, ExecCmd, Cmd, null_cmd, exec_cmd, back_cmd, pipe_cmd,
}
use sistemas_operativos.Shell.Environ.{set_environ_vars}

-- The flags that `exec_cmd` opens files with: O_RDONLY, or O_TRUNC | O_CREAT | O_RDWR.
pub data Flags : Type 0 where
  read_only truncated : Flags

pub data Target : Type 0 where
  closed : Target
  inherited : ℕ → Target
  opened : List ℕ → Flags → Target
  pipe_end : ℕ → Target

-- What a file descriptor stands for.
abbrev pub Table : Type 0
Table = ℕ → Target

-- `open`, `dup2`, `pipe`, `fork` and `setenv`. `none` and `false` are a failure; of `fork` it is the
-- answer to the n-th call of a pipe.
pub record Os (E : Type 0) : Type 0 where
  pub open_file : Table → List ℕ → Flags → Option ℕ
  pub dup2_works : Table → ℕ → ℕ → Bool
  pub pipe : Table → Option (ℕ × ℕ)
  pub fork_works : Table → ℕ → Bool
  pub setenv : List ℕ → List ℕ → E → E

-- How the process ends: it runs a program (and exits with -1 if `execvp` fails), it exits with -1, it
-- starts the left child alone and exits with -1, it waits for two children and exits with 0, or it
-- reads through a null pointer or outside of an array.
pub data Ending (E : Type 0) : Type 0 where
  runs : List (List ℕ) → Table → E → Ending E
  exits : Ending E
  forks_left : Ending E → Ending E
  forks : Ending E → Ending E → Ending E
  faults : Ending E

-- One of the three blocks of the case REDIR; an empty name redirects nothing. `none` is an exit.
unfoldable pub redirect : {E : Type 0} → Os E → List ℕ → Flags → ℕ → Table → Option Table
redirect os [] flags std t = some t
redirect os (x ∷ xs) flags std t = elim (os.open_file t (x ∷ xs) flags) [
  | none ↦ none
  | some fd ↦
      let t' = update t fd (opened (x ∷ xs) flags) in
      if os.dup2_works t' fd std
      then some (update (update t' std (opened (x ∷ xs) flags)) fd closed)
      else none
]

abbrev pub to_stdout : List ℕ
to_stdout = b'&' ∷ b'1' ∷ []

-- The result of `dup2` for `2>&1` is not looked at.
unfoldable pub redirect_err : {E : Type 0} → Os E → List ℕ → Table → Option Table
redirect_err os file t =
    if bytes_eq file to_stdout
    then (if os.dup2_works t 1 2 then some (update t 2 (t 1)) else some t)
    else redirect os file truncated 2 t

unfoldable pub redirect_all : {E : Type 0} → Os E → ExecCmd → Table → Option Table
redirect_all os c t = elim (redirect os c.out_file truncated 1 t) [
  | none ↦ none
  | some t1 ↦ elim (redirect os c.in_file read_only 0 t1) [
    | none ↦ none
    | some t2 ↦ redirect_err os c.err_file t2
  ]
]

abbrev pub run_program : {E : Type 0} → List (List ℕ) → Option Table → E → Ending E
run_program argv none env = exits
run_program argv (some t) env = runs argv t env

abbrev pub with_files : {E : Type 0} → Os E → ExecType → ExecCmd → Table → Option Table
with_files os exec c t = some t
with_files os redir c t = redirect_all os c t

abbrev pub exec_simple : {E : Type 0} → Os E → ExecType → ExecCmd → Table → E → Ending E
exec_simple os type c t env = elim (set_environ_vars (os.setenv) (c.eargv) env) [
  | none ↦ faults
  | some env' ↦ run_program c.argv (with_files os type c t) env'
]

-- The descriptors of a child: one end of the pipe is its standard input or output.
abbrev child_table : ℕ → ℕ → ℕ → ℕ → Table → Table
child_table std fd read write t =
    update (update (update t std (pipe_end fd)) write closed) read closed

-- A command in the background runs as one without redirections, whatever its `type`.
unfoldable pub execute : {E : Type 0} → Os E → Cmd → Table → E → Ending E
execute os null_cmd t env = faults
execute os (exec_cmd c) t env = exec_simple os c.type c t env
execute os (back_cmd s c) t env = exec_simple os exec c t env
execute os (pipe_cmd l r) t env =
    let left = λ (t' : Table). execute os l t' env in
    let right = λ (t' : Table). execute os r t' env in
    elim (os.pipe t) [
      | none ↦ exits
      | some (read, write) ↦
          let t' = update (update t read (pipe_end 0)) write (pipe_end 1) in
          if os.fork_works t' 0
          then (if os.fork_works t' 1
              then forks (left (child_table 1 1 read write t'))
                  (right (child_table 0 0 read write t'))
              else forks_left (left (child_table 1 1 read write t')))
          else exits
    ]
