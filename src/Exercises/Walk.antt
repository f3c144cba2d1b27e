-- ===== src/Exercises/Walk.antt =====
-- What fork/challenges/find.c prints of a tree.
use sistemas_operativos.Prelude.{
  ℕ, zero, suc, take, append-nil, append_assoc, ◌≡◌, refl, sym, ap, ap₂, ◌∙◌, Bool, true, false,
  List, [], ◌∷◌, ◌++◌, if◌then◌else◌, Bool-cases, inl, inr,
}
use sistemas_operativos.Exercises.Find.{
  Dir, no_entry, regular, directory, other, ruta_nueva, print_if, leer_directorio, leer_actual,
}

-- A name with the names of the directories above it, the outermost first.
pub record Place : Type 0 where
  pub above : List (List ℕ)
  pub name : List ℕ

-- The regular files and directories of a tree, a directory before what it holds.
abbrev pub walk : List (List ℕ) → Dir → List Place
walk above no_entry = []
walk above (regular name d) = record { above = above; name = name } ∷ walk above d
walk above (directory name below d) =
    record { above = above; name = name } ∷ (walk (above ++ name ∷ []) below ++ walk above d)
walk above (other name d) = walk above d

abbrev pub join : List ℕ → List (List ℕ) → List ℕ
join ruta [] = ruta
join ruta (name ∷ names) = join (ruta_nueva ruta name) names

-- The names, each behind a slash.
abbrev pub slashed : List (List ℕ) → List ℕ
slashed [] = []
slashed (name ∷ names) = b'/' ∷ (name ++ slashed names)

-- The path of a place below ".": its name where nothing is above it, and else the names from the outermost
-- directory on with a slash between two, of which 4095 bytes are kept.
abbrev pub path_of : List (List ℕ) → List ℕ → List ℕ
path_of [] name = name
path_of (a ∷ above) name = take 4095 (a ++ slashed (above ++ name ∷ []))

take_again : (n : ℕ) (xs ys : List ℕ) → take n (take n xs ++ ys) ≡ take n (xs ++ ys)
take_again zero xs ys = refl
take_again (suc n) [] ys = refl
take_again (suc n) (x ∷ xs) ys = ap (λ l. x ∷ l) (take_again n xs ys)

join-take :
    (ruta : List ℕ) (names : List (List ℕ))
    → join (take 4095 ruta) names ≡ take 4095 (ruta ++ slashed names)
join-take ruta [] = ap (take 4095) (sym (append-nil ruta))
join-take ruta (name ∷ names) =
    ap (λ r. join r names) (take_again 4095 ruta (b'/' ∷ name))
    ∙ join-take (ruta ++ b'/' ∷ name) names
    ∙ ap (take 4095) (append_assoc ruta (b'/' ∷ name) (slashed names))

join-path_of :
    (a : List ℕ) (above : List (List ℕ)) (name : List ℕ)
    → join a (above ++ name ∷ []) ≡ path_of (a ∷ above) name
join-path_of a [] name = ap (λ l. take 4095 (a ++ b'/' ∷ l)) (sym (append-nil name))
join-path_of a (b ∷ above) name =
    join-take (a ++ b'/' ∷ b) (above ++ name ∷ [])
    ∙ ap (take 4095) (append_assoc a (b'/' ∷ b) (slashed (above ++ name ∷ [])))

-- The paths of the places whose name is found.
abbrev pub found_paths : (List ℕ → Bool) → List Place → List (List ℕ)
found_paths found [] = []
found_paths found (p ∷ ps) =
    if found p.name then path_of p.above p.name ∷ found_paths found ps else found_paths found ps

found_paths-append :
    (found : List ℕ → Bool) (ps qs : List Place)
    → found_paths found (ps ++ qs) ≡ found_paths found ps ++ found_paths found qs
found_paths-append found [] qs = refl
found_paths-append found (p ∷ ps) qs = elim (Bool-cases (found p.name)) [
  | inl e ↦ rw e (ap (λ l. path_of p.above p.name ∷ l) (found_paths-append found ps qs))
  | inr e ↦ rw e (found_paths-append found ps qs)
]

print_if-found_paths :
    (b : Bool) (path : List ℕ) (l : List (List ℕ))
    → print_if b path ++ l ≡ (if b then path ∷ l else l)
print_if-found_paths true path l = refl
print_if-found_paths false path l = refl

join-append :
    (ruta : List ℕ) (names : List (List ℕ)) (n : List ℕ)
    → join ruta (names ++ n ∷ []) ≡ ruta_nueva (join ruta names) n
join-append ruta [] n = refl
join-append ruta (a ∷ names) n = join-append (ruta_nueva ruta a) names n

leer_directorio-walk :
    (found : List ℕ → Bool) (a : List ℕ) (above : List (List ℕ)) (d : Dir)
    → leer_directorio found (join a above) d ≡ found_paths found (walk (a ∷ above) d)
unfolding leer_directorio
leer_directorio-walk found a above no_entry = refl
leer_directorio-walk found a above (regular name d) =
    print_if-found_paths (found name) (ruta_nueva (join a above) name) _
    ∙ ap₂ (λ (p : List ℕ) (l : List (List ℕ)). if found name then p ∷ l else l)
        (sym (join-append a above name) ∙ join-path_of a above name)
        (leer_directorio-walk found a above d)
leer_directorio-walk found a above (directory name below d) =
    print_if-found_paths (found name) (ruta_nueva (join a above) name) _
    ∙ ap₂ (λ (p : List ℕ) (l : List (List ℕ)). if found name then p ∷ l else l)
        (sym (join-append a above name) ∙ join-path_of a above name)
        (ap₂ (λ (u v : List (List ℕ)). u ++ v)
            (ap (λ r. leer_directorio found r below) (sym (join-append a above name))
              ∙ leer_directorio-walk found a (above ++ name ∷ []) below)
            (leer_directorio-walk found a above d)
          ∙ sym
              (found_paths-append found (walk (a ∷ above ++ name ∷ []) below) (walk (a ∷ above) d)))
leer_directorio-walk found a above (other name d) = leer_directorio-walk found a above d

-- `find` prints the paths of the regular files and directories of the tree whose name passes the test, each
-- once, a directory before what it holds: a name in "." as it is, and any other with the names of the directories
-- above it, a slash between two, cut to 4095 bytes.
pub leer_actual-walk :
    (found : List ℕ → Bool) (d : Dir) → leer_actual found d ≡ found_paths found (walk [] d)
unfolding leer_actual
leer_actual-walk found no_entry = refl
leer_actual-walk found (regular name d) =
    print_if-found_paths (found name) name _
    ∙ ap (λ (l : List (List ℕ)). if found name then name ∷ l else l) (leer_actual-walk found d)
leer_actual-walk found (directory name below d) =
    print_if-found_paths (found name) name _
    ∙ ap (λ (l : List (List ℕ)). if found name then name ∷ l else l)
        (ap₂ (λ (u v : List (List ℕ)). u ++ v) (leer_directorio-walk found name [] below)
            (leer_actual-walk found d)
          ∙ sym (found_paths-append found (walk (name ∷ []) below) (walk [] d)))
leer_actual-walk found (other name d) = leer_actual-walk found d
