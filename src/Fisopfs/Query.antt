-- ===== src/Fisopfs/Query.antt =====
-- The operations of fisopfs/fisopfs.c that leave the cells alone. `none` is an access outside of an
-- array.
use sistemas_operativos.Prelude.{
  ℕ, zero, suc, ◌+◌, ◌-◌, ◌%◌, ◌^◌, ◌++◌, Option, none, some, List, [], ◌∷◌, ltb, ◌==◌,
  if◌then◌else◌, drop, replicate, length, bytes_eq,
}
use sistemas_operativos.Fisopfs.Structs.{
  lado_mapa, File, FileSystem, is_free, is_taken, is_dir, is_file, find_pos, strlen, eperm, enoent,
  eisdir, Code, done, fails,
}

-- The fields of `struct stat` that `fisopfs_getattr` sets.
pub record Stat : Type 0 where
  pub st_uid : ℕ
  pub st_mode : ℕ
  pub st_nlink : ℕ
  pub st_size : ℕ
  pub st_atime : ℕ
  pub st_mtime : ℕ

abbrev pub mode_dir : ℕ
mode_dir = 0o40755

abbrev pub mode_file : ℕ
mode_file = 0o100644

abbrev stat_cell : File → Stat → Option Stat
stat_cell c st =
    let st' = record st {
      st_uid = c.metadata.propietario;
      st_atime = c.metadata.fecha_acceso.tv_sec;
      st_mtime = c.metadata.fecha_modificacion.tv_sec;
    } in
    if is_file c.type
    then elim (strlen c.contenido) [
      | none ↦ none
      | some n ↦ some (record st' { st_mode = mode_file; st_nlink = 1; st_size = n })
    ]
    else some (record st' { st_mode = mode_dir; st_nlink = 2 })

unfoldable pub fisopfs_getattr : FileSystem → List ℕ → Stat → Option (Code × Stat)
fisopfs_getattr fs path st =
    if bytes_eq path (b'/' ∷ [])
    then some (done 0, record st { st_uid = 1717; st_mode = mode_dir; st_nlink = 2 })
    else elim (find_pos fs path) [
      | none ↦ some (fails enoent, st)
      | some (i, j) ↦ elim (stat_cell (fs i j) st) [ none ↦ none | some st' ↦ some (done 0, st') ]
    ]

abbrev dots : List (List ℕ)
dots = (b'.' ∷ []) ∷ (b'.' ∷ b'.' ∷ []) ∷ []

-- The loops of `fisopfs_readdir`, over the cells that `cell` numbers, each name without its first
-- `skip` bytes.
unfoldable pub list_names : ℕ → ℕ → ℕ → (ℕ → File) → List (List ℕ)
list_names zero i skip cell = []
list_names (suc left) i skip cell =
    let rest = list_names left (i + 1) skip cell in
    if is_free (cell i).cell_status
    then []
    else if is_taken (cell i).cell_status
    then drop skip (cell i).path ∷ rest
    else rest

-- The result with the names that are handed to `filler`.
unfoldable pub fisopfs_readdir : FileSystem → List ℕ → Code × List (List ℕ)
fisopfs_readdir fs path =
    if bytes_eq path (b'/' ∷ [])
    then (done 0, dots ++ list_names lado_mapa 0 1 (λ i. fs i 0))
    else elim (find_pos fs path) [
      | none ↦ (fails eperm, dots)
      | some (i, j) ↦
          if is_file (fs i j).type
          then (fails eperm, dots)
          else (done 0, dots ++ list_names 19 1 (length path + 1) (fs i))
    ]

-- `strncpy(buffer, s, size)`: the string at `s`, padded with zeros.
abbrev pub strncpy : ℕ → List ℕ → List ℕ
strncpy zero s = []
strncpy (suc size) [] = 0 ∷ strncpy size []
strncpy (suc size) (x ∷ xs) = if x == 0 then replicate (suc size) 0 else x ∷ strncpy size xs

-- `size` as `fisopfs_read` corrects it, in a `size_t`.
abbrev pub read_size : ℕ → ℕ → ℕ → ℕ
read_size n size offset =
    if ltb n ((offset + size) % 2 ^ 64) then (n + 2 ^ 64 - offset) % 2 ^ 64 else size

abbrev pub read_cell : File → ℕ → ℕ → Option (Code × List ℕ)
read_cell c size offset = elim (strlen c.contenido) [
  | none ↦ none
  | some n ↦
      let size' = read_size n size offset in
      if ltb size size' then none else some (done size', strncpy size' (drop offset c.contenido))
]

-- The result with the bytes that go to `buffer`, which holds `size` bytes.
unfoldable pub fisopfs_read : FileSystem → List ℕ → ℕ → ℕ → Option (Code × List ℕ)
fisopfs_read fs path size offset = elim (find_pos fs path) [
  | none ↦ some (fails enoent, [])
  | some (i, j) ↦
      if is_dir (fs i j).type then some (fails eisdir, []) else read_cell (fs i j) size offset
]

unfoldable pub fisopfs_open : FileSystem → List ℕ → Code
fisopfs_open fs path =
    if bytes_eq path []
    then done 0
    else elim (find_pos fs path) [ none ↦ fails enoent | some _ ↦ done 0 ]
