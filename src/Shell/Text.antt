-- ===== src/Shell/Text.antt =====
-- shell/utils.c, and `get_token` of shell/parsing.c. A pointer into an array is the list of the bytes
-- from it to the array's end; a string is the list of its bytes before the NUL. `none` is an access
-- behind the array's end.
use sistemas_operativos.Prelude.{
  ℕ, suc, ◌||◌, Option, none, some, List, [], ◌∷◌, ltb, ◌==◌, if◌then◌else◌, length,
}

abbrev pub argsize : ℕ
argsize = 1024

-- The first loop of `split_line`: the bytes before the splitter or the NUL, and those behind it.
unfoldable pub split_at : List ℕ → ℕ → Option (List ℕ × List ℕ)
split_at [] splitter = none
split_at (x ∷ xs) splitter =
    let rest = split_at xs splitter in
    if x == splitter || x == 0
    then some ([], xs)
    else elim rest [ none ↦ none | some (l, r) ↦ some (x ∷ l, r) ]

unfoldable pub skip_spaces : List ℕ → Option (List ℕ)
skip_spaces [] = none
skip_spaces (x ∷ xs) = if x == b' ' then skip_spaces xs else some (x ∷ xs)

-- The string that is left in `buf`, and the pointer that is returned.
unfoldable pub split_line : List ℕ → ℕ → Option (List ℕ × List ℕ)
split_line buf splitter = elim (split_at buf splitter) [
  | none ↦ none
  | some (l, rest) ↦ elim (skip_spaces rest) [ none ↦ none | some r ↦ some (l, r) ]
]

-- The string at a pointer.
unfoldable pub c_string : List ℕ → Option (List ℕ)
c_string [] = none
c_string (x ∷ xs) =
    let rest = c_string xs in
    if x == 0 then some [] else elim rest [ none ↦ none | some s ↦ some (x ∷ s) ]

-- `none` is the index -1.
unfoldable pub block_contains : List ℕ → ℕ → Option ℕ
block_contains [] c = none
block_contains (x ∷ xs) c =
    let rest = block_contains xs c in
    if x == c then some 0 else elim rest [ none ↦ none | some n ↦ some (suc n) ]

-- The token at the start of a string, and the string behind it.
unfoldable pub token_at : List ℕ → List ℕ × List ℕ
token_at [] = ([], [])
token_at (x ∷ xs) = if x == b' ' then ([], x ∷ xs) else (x ∷ (token_at xs).0, (token_at xs).1)

-- The token's array holds `argsize` bytes.
unfoldable pub get_token : List ℕ → Option (List ℕ × List ℕ)
get_token s = if ltb (length (token_at s).0) argsize then some (token_at s) else none
