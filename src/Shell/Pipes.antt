-- ===== src/Shell/Pipes.antt =====
-- `parse_line` of shell/parsing.c on a line of segments between pipes.
use sistemas_operativos.Prelude.{ℕ, ◌≢◌, Bool, false, Option, none, some, List, [], ◌∷◌, ◌++◌}
use sistemas_operativos.Shell.Command.{Cmd, null_cmd, exec_cmd, back_cmd, pipe_cmd}
use sistemas_operativos.Shell.Parsing.{Host, parse_cmd, parse_line}

-- A text without a NUL and without a pipe.
abbrev pub Plain : List ℕ → Type 0
Plain [] = Unit
Plain (x ∷ xs) = (x ≢ 0) × (x ≢ b'|') × Plain xs

-- A segment of a line: plain, not empty, and with no space at its start.
pub record Segment : Type 0 where
  pub head : ℕ
  pub tail : List ℕ
  pub solid : head ≢ b' '
  pub plain : Plain (head ∷ tail)

abbrev pub text : Segment → List ℕ
text s = s.head ∷ s.tail

-- The line's array: the segments with a pipe between two, the NUL, and another one behind it.
abbrev pub render : Segment → List Segment → List ℕ → List ℕ
render s [] pad = text s ++ 0 ∷ 0 ∷ pad
render s (t ∷ ts) pad = text s ++ b'|' ∷ render t ts pad

-- Two commands in a pipe, the first one on the left; a right one that is NULL makes no pipe.
abbrev pub in_pipe : Option Cmd → Option Cmd → Option Cmd
in_pipe none r = none
in_pipe (some l) none = none
in_pipe (some l) (some null_cmd) = some l
in_pipe (some l) (some (exec_cmd c)) = some (pipe_cmd l (exec_cmd c))
in_pipe (some l) (some (back_cmd s c)) = some (pipe_cmd l (back_cmd s c))
in_pipe (some l) (some (pipe_cmd r r')) = some (pipe_cmd l (pipe_cmd r r'))

-- The commands of the segments, the pipes nested to the right.
abbrev pub pipeline : Host → Bool → Segment → List Segment → Option Cmd
pipeline host first s [] = parse_cmd host first (text s)
pipeline host first s (t ∷ ts) = in_pipe (parse_cmd host first (text s)) (pipeline host false t ts)

-- The string of the array.
abbrev line : Segment → List Segment → List ℕ
line s [] = text s
line s (t ∷ ts) = text s ++ b'|' ∷ line t ts

-- The rest of a line after a pipe: one command, or again a line.
abbrev rest_of_line : ℕ → Host → Segment → List Segment → List ℕ → Option Cmd
rest_of_line fuel host t [] pad = parse_cmd host false (text t)
rest_of_line fuel host t (u ∷ us) pad = parse_line fuel host false (render t (u ∷ us) pad)
