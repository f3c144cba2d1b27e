-- ===== src/Sched/Strings.antt =====
-- sched/lib/string.c, which the kernel and the user programs share, without the copying of memory in
-- assembly. A pointer is the list of the bytes from it to the end of its array, a pointer into a
-- string an index, and a difference of two bytes is that pair of bytes. `none` is an access behind the
-- array's end.
pub mod Convert
pub mod Compare
mod Examples
use sistemas_operativos.Prelude.{
  ℕ, zero, suc, ◌+◌, ◌-◌, ◌*◌, ◌%◌, ◌^◌, Bool, true, false, not, ◌&&◌, ◌||◌, Option, none, some,
  List, [], ◌∷◌, ◌++◌, ltb, leb, ◌==◌, if◌then◌else◌, length, drop, get_or,
}
use mathlib.Core.Option

unfoldable pub strlen : List ℕ → Option ℕ
strlen [] = none
strlen (x ∷ xs) = let n = strlen xs in if x == 0 then some 0 else Option.map suc n

unfoldable pub strnlen : List ℕ → ℕ → Option ℕ
strnlen s zero = some 0
strnlen [] (suc size) = none
strnlen (x ∷ xs) (suc size) = let n = strnlen xs size in if x == 0 then some 0 else Option.map suc n

-- The bytes that are written to `dst`, with the NUL.
unfoldable pub strcpy : List ℕ → Option (List ℕ)
strcpy [] = none
strcpy (x ∷ xs) =
    let rest = strcpy xs in
    if x == 0 then some (0 ∷ []) else Option.map (λ (ys : List ℕ). x ∷ ys) rest

-- The index in `dst` from which on bytes are written, and these.
unfoldable pub strcat : List ℕ → List ℕ → Option (ℕ × List ℕ)
strcat dst src = elim (strlen dst) [
  | none ↦ none
  | some len ↦ Option.map (λ (ys : List ℕ). (len, ys)) (strcpy src)
]

unfoldable pub strncpy : List ℕ → ℕ → Option (List ℕ)
strncpy src zero = some []
strncpy [] (suc size) = none
strncpy (x ∷ xs) (suc size) =
    let rest = (if x == 0 then strncpy (x ∷ xs) size else strncpy xs size) in
    Option.map (λ (ys : List ℕ). x ∷ ys) rest

-- The loop of `strlcpy`, behind the first `--size`.
unfoldable pub copy_string : List ℕ → ℕ → Option (List ℕ)
copy_string src zero = some []
copy_string [] (suc size) = none
copy_string (x ∷ xs) (suc size) =
    let rest = copy_string xs size in
    if x == 0 then some [] else Option.map (λ (ys : List ℕ). x ∷ ys) rest

-- The bytes that are written, and the result.
unfoldable pub strlcpy : List ℕ → ℕ → Option (List ℕ × ℕ)
strlcpy src zero = some ([], 0)
strlcpy src (suc size) =
    Option.map (λ (ys : List ℕ). (ys ++ 0 ∷ [], length ys)) (copy_string src size)

unfoldable pub strcmp : List ℕ → List ℕ → Option (ℕ × ℕ)
strcmp [] q = none
strcmp (x ∷ xs) [] = none
strcmp (x ∷ xs) (y ∷ ys) =
    let rest = strcmp xs ys in if not (x == 0) && x == y then rest else some (x, y)

unfoldable pub strncmp : List ℕ → List ℕ → ℕ → Option (ℕ × ℕ)
strncmp p q zero = some (0, 0)
strncmp [] q (suc n) = none
strncmp (x ∷ xs) [] (suc n) = none
strncmp (x ∷ xs) (y ∷ ys) (suc n) =
    let rest = strncmp xs ys n in if not (x == 0) && x == y then rest else some (x, y)

-- The inner `none` is the null pointer.
unfoldable pub strchr : List ℕ → ℕ → Option (Option ℕ)
strchr [] c = none
strchr (x ∷ xs) c =
    let rest = strchr xs c in
    if x == 0 then some none else if x == c then some (some 0) else Option.map (Option.map suc) rest

unfoldable pub strfind : List ℕ → ℕ → Option ℕ
strfind [] c = none
strfind (x ∷ xs) c =
    let rest = strfind xs c in if x == 0 || x == c then some 0 else Option.map suc rest

unfoldable pub memcmp : List ℕ → List ℕ → ℕ → Option (ℕ × ℕ)
memcmp p q zero = some (0, 0)
memcmp [] q (suc n) = none
memcmp (x ∷ xs) [] (suc n) = none
memcmp (x ∷ xs) (y ∷ ys) (suc n) = let rest = memcmp xs ys n in if x == y then rest else some (x, y)

unfoldable pub memfind : List ℕ → ℕ → ℕ → Option ℕ
memfind s c zero = some 0
memfind [] c (suc n) = none
memfind (x ∷ xs) c (suc n) =
    let rest = memfind xs c n in if x == c % 256 then some 0 else Option.map suc rest
