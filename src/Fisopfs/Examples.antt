-- ===== src/Fisopfs/Examples.antt =====
-- A file system with a file at the root and an empty directory: the theorems on fisopfs/fisopfs.c at
-- concrete inputs.
use sistemas_operativos.Prelude.{
  inl, ℕ, zero, suc, ◌-◌, ◌≡◌, refl, false, none, some, List, [], ◌∷◌, arith, min, replicate, Bool,
  true, ◌==◌, ltb, ◌&&◌, if◌then◌else◌, Bool-cases, inr,
}
use sistemas_operativos.Fisopfs.Structs.{
  File, FileMetadata, FileSystem, CellStatus, free_t, taken_t, FileType, nothing_t, file_t, dir_t,
  lado_mapa, largo_contenido, put_cell, find_pos, find_row, find_col, strlen, done,
}
use sistemas_operativos.Fisopfs.Update.{Caller, find_free_row, fisopfs_write}
use sistemas_operativos.Fisopfs.Room.{Room}
use sistemas_operativos.Fisopfs.Contents.{Written, fisopfs_write-Written}
use sistemas_operativos.Fisopfs.Backup.{
  Loading, write_metadata, loaded, save_fs, load_fs, save_cell,
}
use sistemas_operativos.Fisopfs.Reload.{OneLine, AllSave, load_fs-save_fs}

abbrev attributes : FileMetadata
attributes = record {
  fecha_modificacion = record { tv_sec = 0; tv_nsec = 0 };
  fecha_acceso = record { tv_sec = 0; tv_nsec = 0 };
  propietario = 0;
  mode = 0;
  gid = 0;
}

abbrev cell_with : List ℕ → CellStatus → FileType → List ℕ → File
cell_with path status type bytes = record {
  path = path;
  cell_status = status;
  type = type;
  metadata = attributes;
  contenido = bytes;
}

-- "/a", with the contents "xyz", and the directory "/d".
abbrev path_a : List ℕ
path_a = b'/' ∷ b'a' ∷ []

abbrev path_d : List ℕ
path_d = b'/' ∷ b'd' ∷ []

abbrev path_new : List ℕ
path_new = b'/' ∷ b'd' ∷ b'/' ∷ b'n' ∷ []

abbrev cells : FileSystem
cells zero zero = cell_with path_a taken_t file_t (b'x' ∷ b'y' ∷ b'z' ∷ replicate 397 0)
cells (suc zero) zero = cell_with path_d taken_t dir_t (replicate 400 0)
cells i j = cell_with [] free_t nothing_t (replicate 400 0)

abbrev me : Caller
me = record { uid = 1000; gid = 100 }

find_a : find_pos cells path_a ≡ some (0, 0)
unfolding find_pos find_row find_col
find_a = refl

abbrev path_e : List ℕ
path_e = b'/' ∷ b'e' ∷ []

find_e : find_pos cells path_e ≡ none
unfolding find_pos find_row find_col
find_e = refl

row_two : find_free_row 20 0 cells ≡ some 2
unfolding find_free_row
row_two = refl

three_bytes : strlen (cells 0 0).contenido ≡ some 3
unfolding strlen
three_bytes = refl

abbrev content : List ℕ
content = b'w' ∷ b'v' ∷ []

fisopfs_write_example :
    (c : File) × (fisopfs_write cells path_a content 2 3
      ≡ some (done (min 2 (400 - 3)), put_cell 0 0 c cells))
    × Written (cells 0 0) c content (min 3 3) (min 2 (400 - 3))
fisopfs_write_example =
    fisopfs_write-Written cells path_a content 2 3 0 0 3 find_a refl three_bytes refl (omega arith)

-- A file "/a" of zeros in every cell.
abbrev saved_cell : File
saved_cell = record {
  path = b'/' ∷ b'a' ∷ [];
  cell_status = taken_t;
  type = file_t;
  metadata = attributes;
  contenido = replicate largo_contenido 0;
}

abbrev saved_grid : FileSystem
saved_grid i j = saved_cell

abbrev backup : Loading
backup = record { cells = λ i j. saved_cell; input = save_fs saved_grid; buffer = [] }

abbrev is_one_line : List ℕ → Bool
is_one_line [] = true
is_one_line (b ∷ l) = if b == 10 then false else is_one_line l

is_one_line-OneLine : (l : List ℕ) → is_one_line l ≡ true → OneLine l
is_one_line-OneLine [] h = tt
is_one_line-OneLine (b ∷ l) h = elim (Bool-cases (b == 10)) [
  | inl same ↦ absurd (ground arith)
  | inr other ↦ (ground arith, is_one_line-OneLine l (rw other at (h)))
]

saved_one_line : is_one_line (save_cell saved_cell) ≡ true
unfolding save_cell write_metadata
saved_one_line = refl

saved_grid-AllSave : AllSave saved_grid
saved_grid-AllSave i j a b = (
  (
    omega arith,
    (
      (omega arith, (omega arith, tt)),
      (((refl, refl), ((refl, refl), (refl, (refl, refl)))), refl),
    ),
  ),
  is_one_line-OneLine (save_cell saved_cell) saved_one_line,
)

load_fs-save_fs_example :
    (s' : Loading) × ((load_fs backup ≡ loaded s')
      × ((s'.input ≡ [])
          × ((r c : ℕ)
              → s'.cells r c
                ≡ (if ltb r lado_mapa && ltb c lado_mapa then saved_grid r c else saved_cell))))
load_fs-save_fs_example = load_fs-save_fs saved_grid backup saved_grid-AllSave refl
