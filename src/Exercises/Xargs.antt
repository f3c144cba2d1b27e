-- ===== src/Exercises/Xargs.antt =====
-- fork/xargs.c: the command of the first argument, run on the lines of the standard input, NARGS at a time. The
-- input is the list of its bytes; no call of the operating system fails.
use mathlib.Core.Option
use sistemas_operativos.Prelude.{
  ℕ, zero, suc, ◌-◌, Bool, true, false, Option, none, some, List, [], ◌∷◌, ◌==◌, if◌then◌else◌,
}

abbrev pub nargs : ℕ
nargs = 4

-- `getline`: the bytes of the next line without its end, and what stands behind it; `none` is the end of the
-- input.
unfoldable pub getline : List ℕ → Option (List ℕ × List ℕ)
getline [] = none
getline (c ∷ input) =
    let rest = getline input in
    if c == 10
    then some ([], input)
    else elim rest [ none ↦ some (c ∷ [], []) | some (line, behind) ↦ some (c ∷ line, behind) ]

-- `strdup` copies up to the NUL.
abbrev pub strdup : List ℕ → List ℕ
strdup [] = []
strdup (c ∷ s) = if c == 0 then [] else c ∷ strdup s

-- What a round of the `while` reads: nothing before the end of the input, or the texts from `rutas[1]` on, what
-- stands behind them, and `terminado`.
pub data Batch : Type 0 where
  no_lines : Batch
  lines : List (List ℕ) → List ℕ → Bool → Batch

abbrev pub with_line : List ℕ → Batch → Batch
with_line l no_lines = no_lines
with_line l (lines ls behind ended) = lines (l ∷ ls) behind ended

-- The `for` with `left` rounds to go behind the first.
unfoldable pub more_lines : ℕ → List ℕ → Batch
more_lines zero input = lines [] input false
more_lines (suc left) input = elim (getline input) [
  | none ↦ lines [] input true
  | some (line, behind) ↦ with_line (strdup line) (more_lines left behind)
]

unfoldable pub read_batch : List ℕ → Batch
read_batch input = elim (getline input) [
  | none ↦ no_lines
  | some (line, behind) ↦ with_line (strdup line) (more_lines (nargs - 1) behind)
]

-- The argument lists that are executed, in order, each by a child that the parent waits for; `none` is a loop
-- that goes on.
unfoldable pub run_batches : ℕ → List ℕ → List ℕ → Option (List (List (List ℕ)))
run_batches zero command input = none
run_batches (suc fuel) command input = elim (read_batch input) [
  | no_lines ↦ some []
  | lines ls behind true ↦ some ((command ∷ ls) ∷ [])
  | lines ls behind false ↦
      Option.map (λ runs. (command ∷ ls) ∷ runs) (run_batches fuel command behind)
]
