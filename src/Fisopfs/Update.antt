-- ===== src/Fisopfs/Update.antt =====
-- The operations of fisopfs/fisopfs.c that change the cells. `none` is an access outside of an array.
-- `getuid()` and `getgid()` are those of the record `Caller`.
use sistemas_operativos.Prelude.{
  ℕ, zero, suc, ◌+◌, ◌-◌, Bool, true, false, not, ◌&&◌, Option, none, some, List, [], ◌∷◌, ltb,
  if◌then◌else◌, set, length, bytes_eq,
}
use sistemas_operativos.Fisopfs.Structs.{
  lado_mapa, largo_path, largo_contenido, taken_t, FileType, file_t, dir_t, Timespec, File,
  FileSystem, is_free, is_taken, is_dir, is_file, put_cell, find_pos, clear_cell, get_directory,
  strlen, enoent, eexist, enotdir, eisdir, enomem, enotempty, Code, done, fails,
}

pub record Caller : Type 0 where
  pub uid : ℕ
  pub gid : ℕ

-- The assignments with which a cell is taken. `strcpy` writes the path and its NUL.
abbrev pub taken_as : FileType → List ℕ → ℕ → Caller → File → File
taken_as type path mode who c = record c {
  cell_status = taken_t;
  type = type;
  path = path;
  metadata = record (c.metadata) { gid = who.gid; propietario = who.uid; mode = mode };
}

abbrev pub take_cell :
    ℕ → ℕ → FileType → List ℕ → ℕ → Caller → FileSystem → Option (Code × FileSystem)
take_cell i j type path mode who fs =
    if ltb (length path) largo_path
    then some (done 0, put_cell i j (taken_as type path mode who (fs i j)) fs)
    else none

-- The row whose first cell has the directory's path, before the first FREE row.
unfoldable pub find_dir : ℕ → ℕ → FileSystem → List ℕ → Option ℕ
find_dir zero t fs directory = none
find_dir (suc left) t fs directory =
    let rest = find_dir left (t + 1) fs directory in
    if is_free (fs t 0).cell_status
    then none
    else if bytes_eq (fs t 0).path directory
    then some t
    else rest

-- The first row that is not TAKEN.
unfoldable pub find_root_cell : ℕ → ℕ → FileSystem → Option ℕ
find_root_cell zero t fs = none
find_root_cell (suc left) t fs =
    let rest = find_root_cell left (t + 1) fs in
    if not (is_taken (fs t 0).cell_status) then some t else rest

-- The first cell of a directory's row, from column `i`, that is not TAKEN.
unfoldable pub find_dir_cell : ℕ → ℕ → (ℕ → File) → Option ℕ
find_dir_cell zero i row = none
find_dir_cell (suc left) i row =
    let rest = find_dir_cell left (i + 1) row in
    if not (is_taken (row i).cell_status) && is_dir (row 0).type then some i else rest

-- Behind the loop over the rows the outer `t` is still -1, and `fs.map[-1]` is read.
abbrev pub mknod_in_root : List ℕ → ℕ → Caller → FileSystem → Option (Code × FileSystem)
mknod_in_root path mode who fs = elim (find_root_cell lado_mapa 0 fs) [
  | none ↦ none
  | some t ↦ take_cell t 0 file_t path mode who fs
]

abbrev pub mknod_in_dir : ℕ → List ℕ → ℕ → Caller → FileSystem → Option (Code × FileSystem)
mknod_in_dir t path mode who fs = elim (find_dir_cell 19 1 (fs t)) [
  | none ↦ some (fails enomem, fs)
  | some i ↦ take_cell t i file_t path mode who fs
]

-- `directory` holds 41 bytes.
abbrev pub mknod_new : List ℕ → ℕ → Caller → FileSystem → Option (Code × FileSystem)
mknod_new path mode who fs =
    let directory = get_directory path in
    if ltb (length directory) 41
    then elim (find_dir lado_mapa 0 fs directory) [
      | none ↦ mknod_in_root path mode who fs
      | some t ↦ mknod_in_dir t path mode who fs
    ]
    else none

unfoldable pub fisops_mknod : FileSystem → List ℕ → ℕ → Caller → Option (Code × FileSystem)
fisops_mknod fs path mode who = elim (find_pos fs path) [
  | some _ ↦ some (fails eexist, fs)
  | none ↦ mknod_new path mode who fs
]

unfoldable pub fisopfs_utimens : FileSystem → List ℕ → Timespec → Timespec → Code × FileSystem
fisopfs_utimens fs path acceso modificacion = elim (find_pos fs path) [
  | none ↦ (fails enoent, fs)
  | some (i, j) ↦
      let c = fs i j in
      (
        done 0,
        put_cell i j
            (record c {
              metadata = record (c.metadata) {
                fecha_acceso = acceso;
                fecha_modificacion = modificacion;
              };
            })
            fs,
      )
]

-- The loop of `fisopfs_write`: bytes of `content` into the array from index `at` on.
unfoldable pub write_bytes : ℕ → ℕ → List ℕ → List ℕ → List ℕ
write_bytes zero at content array = array
write_bytes (suc left) at [] array = array
write_bytes (suc left) at (x ∷ xs) array = write_bytes left (at + 1) xs (set array at x)

abbrev pub write_offset : ℕ → ℕ → ℕ
write_offset n offset = if ltb n offset then n else offset

-- `size + strlen` is not wrapped: FUSE hands over `size` bytes.
abbrev pub write_size : ℕ → ℕ → ℕ
write_size n size = if ltb largo_contenido (size + n) then largo_contenido - n else size

abbrev pub write_cell : File → List ℕ → ℕ → ℕ → Option (ℕ × File)
write_cell c content size offset = elim (strlen c.contenido) [
  | none ↦ none
  | some n ↦
      let size' = write_size n size in
      some (
        size',
        record c { contenido = write_bytes size' (write_offset n offset) content c.contenido },
      )
]

-- `content` holds at least `size` bytes.
unfoldable pub fisopfs_write : FileSystem → List ℕ → List ℕ → ℕ → ℕ → Option (Code × FileSystem)
fisopfs_write fs path content size offset = elim (find_pos fs path) [
  | none ↦ some (fails enoent, fs)
  | some (i, j) ↦
      if is_dir (fs i j).type
      then some (fails eisdir, fs)
      else elim (write_cell (fs i j) content size offset) [
        | none ↦ none
        | some (n, c) ↦ some (done n, put_cell i j c fs)
      ]
]

-- The first FREE row.
unfoldable pub find_free_row : ℕ → ℕ → FileSystem → Option ℕ
find_free_row zero t fs = none
find_free_row (suc left) t fs =
    let rest = find_free_row left (t + 1) fs in
    if is_free (fs t 0).cell_status then some t else rest

unfoldable pub fisopfs_mkdir : FileSystem → List ℕ → ℕ → Caller → Option (Code × FileSystem)
fisopfs_mkdir fs path mode who = elim (find_free_row lado_mapa 0 fs) [
  | none ↦ some (fails enomem, fs)
  | some t ↦ take_cell t 0 dir_t path mode who fs
]

-- A TAKEN cell of the row before the first FREE one.
unfoldable pub has_taken : ℕ → ℕ → (ℕ → File) → Bool
has_taken zero j row = false
has_taken (suc left) j row =
    let rest = has_taken left (j + 1) row in
    if is_free (row j).cell_status
    then false
    else if is_taken (row j).cell_status
    then true
    else rest

unfoldable pub fisopfs_rmdir : FileSystem → List ℕ → Code × FileSystem
fisopfs_rmdir fs path = elim (find_pos fs path) [
  | none ↦ (fails enoent, fs)
  | some (i, j) ↦
      if is_file (fs i j).type
      then (fails enotdir, fs)
      else if has_taken 19 1 (fs i)
      then (fails enotempty, fs)
      else (done 0, clear_cell i j fs)
]

unfoldable pub fisopfs_unlink : FileSystem → List ℕ → Code × FileSystem
fisopfs_unlink fs path = elim (find_pos fs path) [
  | none ↦ (fails enoent, fs)
  | some (i, j) ↦ if is_dir (fs i j).type then (fails eisdir, fs) else (done 0, clear_cell i j fs)
]

-- It does nothing.
unfoldable pub fisopfs_truncate : FileSystem → List ℕ → ℕ → Code × FileSystem
fisopfs_truncate fs path size = (done 0, fs)
