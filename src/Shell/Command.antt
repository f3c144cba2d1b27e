-- ===== src/Shell/Command.antt =====
-- shell/types.h and shell/createcmd.c, without the `pid` of a command, which parsing does not set.
use sistemas_operativos.Prelude.{ℕ, List, []}

pub data ExecType : Type 0 where
  exec redir : ExecType

-- `struct execcmd`. `argc` and `eargc` are the lengths of the lists, and an empty name is a file that
-- was not set.
pub record ExecCmd : Type 0 where
  pub type : ExecType
  pub scmd : List ℕ
  pub argv : List (List ℕ)
  pub eargv : List (List ℕ)
  pub out_file : List ℕ
  pub in_file : List ℕ
  pub err_file : List ℕ

-- A pointer to a `struct cmd`, by the `type` there.
pub data Cmd : Type 0 where
  null_cmd : Cmd
  exec_cmd : ExecCmd → Cmd
  back_cmd : (scmd : List ℕ) (c : ExecCmd) → Cmd
  pipe_cmd : (leftcmd rightcmd : Cmd) → Cmd

abbrev pub exec_cmd_create : List ℕ → ExecCmd
exec_cmd_create buf_cmd = record {
  type = exec;
  scmd = buf_cmd;
  argv = [];
  eargv = [];
  out_file = [];
  in_file = [];
  err_file = [];
}

abbrev pub back_cmd_create : ExecCmd → Cmd
back_cmd_create c = back_cmd c.scmd c

unfoldable pub pipe_cmd_create : Cmd → Cmd → Cmd
pipe_cmd_create left null_cmd = left
pipe_cmd_create left (exec_cmd c) = pipe_cmd left (exec_cmd c)
pipe_cmd_create left (back_cmd s c) = pipe_cmd left (back_cmd s c)
pipe_cmd_create left (pipe_cmd l r) = pipe_cmd left (pipe_cmd l r)
