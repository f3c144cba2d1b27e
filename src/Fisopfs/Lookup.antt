-- ===== src/Fisopfs/Lookup.antt =====
-- `find_pos` of fisopfs/fisopfs.c against the cells that a scan from the start visits.
use sistemas_operativos.Prelude.{
  ℕ, zero, suc, ◌+◌, ◌<◌, ◌≡◌, refl, sym, inl, inr, false, Option, none, some, List, arith,
  if◌then◌else◌, bytes_eq, bytes_eq→eq, Bool-cases, Option-cases, none≢some, subst,
}
use sistemas_operativos.Fisopfs.Structs.{File, FileSystem, is_free, find_col, find_row, find_pos}

pub find_col-stop : (j : ℕ) (row : ℕ → File) (path : List ℕ) → find_col zero j row path ≡ none
unfolding find_col
find_col-stop j row path = refl

-- One column.
pub find_col-step :
    (left j : ℕ) (row : ℕ → File) (path : List ℕ)
    → find_col (suc left) j row path ≡ (
        if is_free (row j).cell_status
        then none
        else if bytes_eq (row j).path path
        then some j
        else find_col left (j + 1) row path)
unfolding find_col
find_col-step left j row path = refl

-- A row that the scan enters.
abbrev pub row_search : (ℕ → File) → List ℕ → Option ℕ
row_search row path = if bytes_eq (row 0).path path then some 0 else find_col 19 1 row path

abbrev pub from_row : ℕ → Option ℕ → Option (ℕ × ℕ) → Option (ℕ × ℕ)
from_row i none rest = rest
from_row i (some j) rest = some (i, j)

pub find_row-stop : (i : ℕ) (fs : FileSystem) (path : List ℕ) → find_row zero i fs path ≡ none
unfolding find_row
find_row-stop i fs path = refl

pub find_row-step :
    (left i : ℕ) (fs : FileSystem) (path : List ℕ)
    → find_row (suc left) i fs path ≡ (
        if is_free (fs i 0).cell_status
        then none
        else from_row i (row_search (fs i) path) (find_row left (i + 1) fs path))
unfolding find_row
find_row-step left i fs path = elim (Bool-cases (bytes_eq (fs i 0).path path)) [
  | inl e ↦ rw e
  | inr e ↦ elim (Option-cases (find_col 19 1 (fs i) path)) [
    | inl f ↦ rw (e, f)
    | inr (j, f) ↦ rw (e, f)
  ]
]

-- A cell that is in use, with the path.
pub record Holds (c : File) (path : List ℕ) : Type 0 where
  pub used : is_free c.cell_status ≡ false
  pub named : c.path ≡ path

abbrev FoundCol : ℕ → (ℕ → File) → List ℕ → ℕ → Type 0
FoundCol n row path j = (j < n) × Holds (row j) path

find_col-FoundCol :
    (left j : ℕ) (row : ℕ → File) (path : List ℕ) (k : ℕ)
    → find_col left j row path ≡ some k
    → FoundCol (j + left) row path k
find_col-FoundCol zero j row path k h = absurd (none≢some k (rw find_col-stop at h))
find_col-FoundCol (suc left) j row path k h = elim (Bool-cases (is_free (row j).cell_status)) [
  | inl f ↦ absurd (none≢some k (rw (find_col-step, f) at h))
  | inr f ↦ elim (Bool-cases (bytes_eq (row j).path path)) [
    | inl e ↦
        let here' : some j ≡ some k = rw (find_col-step, f, e) at h in
        let here : j ≡ k = cc in
        subst (FoundCol (j + suc left) row path) here
          (omega arith, record { used = f; named = bytes_eq→eq (row j).path path e })
    | inr e ↦
        let rest = find_col-FoundCol left (j + 1) row path k (rw (find_col-step, f, e) at h) in
        (omega (arith, rest.0), rest.1)
  ]
]

-- The position that a search hands out: in the grid, of a cell in use with the path.
abbrev pub Found : ℕ → FileSystem → List ℕ → ℕ → ℕ → Type 0
Found n fs path i j = (i < n) × (j < 20) × Holds (fs i j) path

row_search-FoundCol :
    (row : ℕ → File) (path : List ℕ) (j : ℕ)
    → is_free (row 0).cell_status ≡ false
    → row_search row path ≡ some j
    → FoundCol 20 row path j
row_search-FoundCol row path j f h = elim (Bool-cases (bytes_eq (row 0).path path)) [
  | inl e ↦
      let here' : some 0 ≡ some j = rw e at h in
      let here : 0 ≡ j = cc in
      subst (FoundCol 20 row path) here
        (omega arith, record { used = f; named = bytes_eq→eq (row 0).path path e })
  | inr e ↦ find_col-FoundCol 19 1 row path j (rw e at h)
]

some_pair : (i j a b : ℕ) → ◌≡◌ {A = Option (ℕ × ℕ)} (some (i, j)) (some (a, b)) → (i ≡ a) × (j ≡ b)
some_pair i j a b h = (cc, cc)

find_row-Found :
    (left i : ℕ) (fs : FileSystem) (path : List ℕ) (a b : ℕ)
    → find_row left i fs path ≡ some (a, b)
    → Found (i + left) fs path a b
find_row-Found zero i fs path a b h = absurd (none≢some (a, b) (rw find_row-stop at h))
find_row-Found (suc left) i fs path a b h = elim (Bool-cases (is_free (fs i 0).cell_status)) [
  | inl f ↦ absurd (none≢some (a, b) (rw (find_row-step, f) at h))
  | inr f ↦ elim (Option-cases (row_search (fs i) path)) [
    | inl e ↦
        let rest = find_row-Found left (i + 1) fs path a b (rw (find_row-step, f, e) at h) in
        (omega (arith, rest.0), rest.1, rest.2)
    | inr (j, e) ↦
        let pos = some_pair i j a b (rw (find_row-step, f, e) at h) in
        let found = row_search-FoundCol (fs i) path j f e in
        rw (sym (pos.0), sym (pos.1)) (omega arith, found.0, found.1)
  ]
]

-- What `find_pos` answers is the position of a cell of the grid that is not FREE and has the path.
pub find_pos-Found :
    (fs : FileSystem) (path : List ℕ) (i j : ℕ)
    → find_pos fs path ≡ some (i, j)
    → Found 20 fs path i j
unfolding find_pos
find_pos-Found fs path i j h = find_row-Found 20 0 fs path i j h
