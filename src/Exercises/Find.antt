-- ===== src/Exercises/Find.antt =====
-- fork/challenges/find.c. A directory is the list of its entries, in the order of `readdir`, without "." and "..",
-- which the code skips; no call of the operating system fails.
use sistemas_operativos.Prelude.{
  ℕ, ◌+◌, ◌-◌, Bool, true, false, ◌&&◌, ◌||◌, List, [], ◌∷◌, ◌++◌, ◌==◌, leb, if◌then◌else◌, take,
  bytes_eq, Option, none, some,
}

-- The entries, with their `d_type`: DT_REG, DT_DIR, or another.
pub data Dir : Type 0 where
  no_entry : Dir
  regular : (d_name : List ℕ) → (others : Dir) → Dir
  directory : (d_name : List ℕ) → (inside : Dir) → (others : Dir) → Dir
  other : (d_name : List ℕ) → (others : Dir) → Dir

abbrev pub path_max : ℕ
path_max = 4096

-- `snprintf(ruta_nueva_completa, PATH_MAX, "%s/%s", ruta_completa, d_name)`
abbrev pub ruta_nueva : List ℕ → List ℕ → List ℕ
ruta_nueva ruta name = take (path_max - 1) (ruta ++ b'/' ∷ name)

abbrev pub print_if : Bool → List ℕ → List (List ℕ)
print_if b path = if b then path ∷ [] else []

-- The lines printed, where `found` is the test of a name.
unfoldable pub leer_directorio : (List ℕ → Bool) → List ℕ → Dir → List (List ℕ)
leer_directorio found ruta no_entry = []
leer_directorio found ruta (regular name d) =
    print_if (found name) (ruta_nueva ruta name) ++ leer_directorio found ruta d
leer_directorio found ruta (directory name below d) =
    print_if (found name) (ruta_nueva ruta name)
    ++ (leer_directorio found (ruta_nueva ruta name) below ++ leer_directorio found ruta d)
leer_directorio found ruta (other name d) = leer_directorio found ruta d

-- The loop of `main`, in the directory ".".
unfoldable pub leer_actual : (List ℕ → Bool) → Dir → List (List ℕ)
leer_actual found no_entry = []
leer_actual found (regular name d) = print_if (found name) name ++ leer_actual found d
leer_actual found (directory name below d) =
    print_if (found name) name ++ (leer_directorio found name below ++ leer_actual found d)
leer_actual found (other name d) = leer_actual found d

abbrev pub is_prefix : List ℕ → List ℕ → Bool
is_prefix [] s = true
is_prefix (c ∷ p) [] = false
is_prefix (c ∷ p) (d ∷ s) = c == d && is_prefix p s

-- `strstr(cadena, subcadena) != NULL`
unfoldable pub caso_sensitivo : List ℕ → List ℕ → Bool
caso_sensitivo sub [] = is_prefix sub []
caso_sensitivo sub (c ∷ s) = is_prefix sub (c ∷ s) || caso_sensitivo sub s

abbrev pub to_lower : ℕ → ℕ
to_lower c = if leb b'A' c && leb c b'Z' then c + 32 else c

abbrev pub lower : List ℕ → List ℕ
lower [] = []
lower (c ∷ s) = to_lower c ∷ lower s

-- `strcasestr(cadena, subcadena) != NULL`
unfoldable pub caso_insensitivo : List ℕ → List ℕ → Bool
caso_insensitivo sub s = caso_sensitivo (lower sub) (lower s)

abbrev pub text_i : List ℕ
text_i = b'-' ∷ b'i' ∷ []

-- `main` on the arguments from `argv[1]` on: `none` is exit(-1). The option needs `argc > 3`.
unfoldable pub find : List (List ℕ) → Dir → Option (List (List ℕ))
find [] d = none
find (a ∷ []) d = some (leer_actual (caso_sensitivo a) d)
find (a ∷ b ∷ []) d = some (leer_actual (caso_sensitivo a) d)
find (a ∷ b ∷ c ∷ more) d =
    if bytes_eq a text_i
    then some (leer_actual (caso_insensitivo b) d)
    else some (leer_actual (caso_sensitivo a) d)
