-- ===== src/Shell/Builtin.antt =====
-- shell/builtin.c. The calls of the operating system are in the record `Dirs`; `D` is what they change.
use sistemas_operativos.Prelude.{
  ℕ, ◌-◌, Bool, true, false, not, ◌&&◌, ◌||◌, Option, none, some, List, [], ◌∷◌, ◌++◌, ltb, ◌==◌,
  if◌then◌else◌, length, take, get_or, bytes_eq,
}
use sistemas_operativos.Shell.Text.{split_line, c_string}

-- `chdir`, `none` where it fails; `getcwd`, `none` where it gives NULL; and `getenv("HOME")`.
pub record Dirs (D : Type 0) : Type 0 where
  pub chdir : List ℕ → D → Option D
  pub getcwd : D → Option (List ℕ)
  pub home : Option (List ℕ)

-- What a built-in does: it ends the shell by `exit(-1)`, it reads outside of an array, or it returns,
-- with the prompt and the directory after it.
pub data Builtin (D : Type 0) : Type 0 where
  exits : Builtin D
  faults : Builtin D
  answers : Bool → List ℕ → D → Builtin D

abbrev pub prmtlen : ℕ
prmtlen = 1024

-- `snprintf(prompt, sizeof prompt, "(%s)", dir)`
abbrev pub prompt_of : List ℕ → List ℕ
prompt_of dir = take (prmtlen - 1) (b'(' ∷ (dir ++ b')' ∷ []))

abbrev pub text_exit : List ℕ
text_exit = b'e' ∷ b'x' ∷ b'i' ∷ b't' ∷ []

abbrev pub text_pwd : List ℕ
text_pwd = b'p' ∷ b'w' ∷ b'd' ∷ []

unfoldable pub exit_shell : List ℕ → Bool
exit_shell cmd = bytes_eq cmd text_exit

unfoldable pub history : List ℕ → Bool
history cmd = false

-- A byte of the string, with the NUL behind it.
abbrev pub byte_at : List ℕ → ℕ → ℕ
byte_at cmd i = get_or cmd i 0

module _ {D : Type 0} (sys : Dirs D) where
  -- To $HOME: `chdir` of a null pointer fails.
  unfoldable pub go_home : D → Builtin D
  go_home d = elim (sys.home) [
    | none ↦ exits
    | some home ↦ elim (sys.chdir home d) [
      | none ↦ exits
      | some d' ↦ answers true (prompt_of home) d'
    ]
  ]

  unfoldable pub go_to : List ℕ → List ℕ → D → Builtin D
  go_to der prompt d = elim (sys.chdir der d) [
    | none ↦ answers false prompt d
    | some d' ↦ elim (sys.getcwd d') [ none ↦ exits | some path ↦ answers true (prompt_of path) d' ]
  ]

  -- `izq` is a copy of the line, with its NUL.
  unfoldable pub cd_argument : List ℕ → List ℕ → D → Builtin D
  cd_argument cmd prompt d = elim (split_line (cmd ++ 0 ∷ []) b' ') [
    | none ↦ faults
    | some (_, right) ↦ elim (c_string right) [ none ↦ faults | some der ↦ go_to der prompt d ]
  ]

  unfoldable pub cd : List ℕ → List ℕ → D → Builtin D
  cd cmd prompt d =
      if not (byte_at cmd 0 == b'c') || not (byte_at cmd 1 == b'd')
      then answers false prompt d
      else if byte_at cmd 2 == 0 || byte_at cmd 2 == b' ' && length cmd == 4
      then go_home d
      else if byte_at cmd 2 == b' ' && ltb 4 (length cmd)
      then cd_argument cmd prompt d
      else answers false prompt d

  -- Whether `pwd` was done; the directory is printed.
  unfoldable pub pwd : List ℕ → D → Bool
  pwd cmd d = bytes_eq cmd text_pwd && (elim (sys.getcwd d) [ none ↦ false | some path ↦ true ])
