-- ===== src/Fisopfs/Structs.antt =====
-- fisopfs/structs.h, and `find_pos`, `clear_cell`, `get_directory` of fisopfs/fisopfs.c. A path is
-- the list of its bytes up to the NUL; a null path, which FUSE never passes, is left out.
use sistemas_operativos.Prelude.{
  ℕ, zero, suc, ◌+◌, Bool, true, false, Option, none, some, List, [], ◌∷◌, ◌==◌, if◌then◌else◌,
  update, set, take, bytes_eq,
}
use mathlib.Core.Option

abbrev pub lado_mapa : ℕ
lado_mapa = 20

abbrev pub largo_path : ℕ
largo_path = 42

abbrev pub largo_contenido : ℕ
largo_contenido = 400

pub data CellStatus : Type 0 where
  free_t taken_t deleted_t : CellStatus

pub data FileType : Type 0 where
  nothing_t file_t dir_t : FileType

-- `struct timespec`
pub record Timespec : Type 0 where
  pub tv_sec : ℕ
  pub tv_nsec : ℕ

-- `struct File_Metadata`, without `nombre`, `tipo` and `fecha_creacion`, which no operation uses.
pub record FileMetadata : Type 0 where
  pub fecha_modificacion : Timespec
  pub fecha_acceso : Timespec
  pub propietario : ℕ
  pub mode : ℕ
  pub gid : ℕ

-- `struct File`. `contenido` is the whole array of bytes.
pub record File : Type 0 where
  pub path : List ℕ
  pub cell_status : CellStatus
  pub type : FileType
  pub metadata : FileMetadata
  pub contenido : List ℕ

-- `fs.map`
abbrev pub FileSystem : Type 0
FileSystem = ℕ → ℕ → File

abbrev pub is_free : CellStatus → Bool
is_free free_t = true
is_free _ = false

abbrev pub is_taken : CellStatus → Bool
is_taken taken_t = true
is_taken _ = false

abbrev pub is_dir : FileType → Bool
is_dir dir_t = true
is_dir _ = false

abbrev pub is_file : FileType → Bool
is_file file_t = true
is_file _ = false

abbrev pub put_cell : ℕ → ℕ → File → FileSystem → FileSystem
put_cell i j c fs = update fs i (update (fs i) j c)

-- The inner loop of `find_pos`, from column `j`.
unfoldable pub find_col : ℕ → ℕ → (ℕ → File) → List ℕ → Option ℕ
find_col zero j row path = none
find_col (suc left) j row path =
    let rest = find_col left (j + 1) row path in
    if is_free (row j).cell_status
    then none
    else if bytes_eq (row j).path path
    then some j
    else rest

-- The outer loop, from row `i`. `none` is the position (-1, -1).
unfoldable pub find_row : ℕ → ℕ → FileSystem → List ℕ → Option (ℕ × ℕ)
find_row zero i fs path = none
find_row (suc left) i fs path =
    let rest = find_row left (i + 1) fs path in
    if is_free (fs i 0).cell_status
    then none
    else if bytes_eq (fs i 0).path path
    then some (i, 0)
    else elim (find_col 19 1 (fs i) path) [ none ↦ rest | some j ↦ some (i, j) ]

unfoldable pub find_pos : FileSystem → List ℕ → Option (ℕ × ℕ)
find_pos fs path = find_row lado_mapa 0 fs path

-- The path is overwritten by zeros; of the contents `strcpy` clears the first byte.
abbrev pub cleared : File → File
cleared c = record c {
  cell_status = deleted_t;
  type = nothing_t;
  path = [];
  metadata = record (c.metadata) { gid = 0; propietario = 0; mode = 0 };
  contenido = set c.contenido 0 0;
}

abbrev pub clear_cell : ℕ → ℕ → FileSystem → FileSystem
clear_cell i j fs = put_cell i j (cleared (fs i j)) fs

-- `strrchr(path, '/')`, as the number of bytes before it.
unfoldable pub strrchr : ℕ → List ℕ → Option ℕ
strrchr c [] = none
strrchr c (x ∷ xs) = elim (strrchr c xs) [
  | some n ↦ some (suc n)
  | none ↦ if x == c then some 0 else none
]

unfoldable pub get_directory : List ℕ → List ℕ
get_directory path = elim (strrchr b'/' path) [ none ↦ b'/' ∷ [] | some n ↦ take n path ]

-- `strlen` of an array: `none` where no byte is 0, so that it would read behind the array.
unfoldable pub strlen : List ℕ → Option ℕ
strlen [] = none
strlen (x ∷ xs) = if x == 0 then some 0 else Option.map suc (strlen xs)

-- What an operation returns in `int`: a value that is not negative, or a negative error.
pub data Errno : Type 0 where
  eperm enoent eexist enotdir eisdir enomem enotempty : Errno

pub data Code : Type 0 where
  done : ℕ → Code
  fails : Errno → Code
