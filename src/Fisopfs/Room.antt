-- ===== src/Fisopfs/Room.antt =====
-- When `fisops_mknod` and `fisopfs_mkdir` of fisopfs/fisopfs.c succeed.
use sistemas_operativos.Prelude.{ℕ, ◌<◌, ◌≡◌, ◌⊎◌, refl, none, some, List, length, lt→ltb}
use sistemas_operativos.Fisopfs.Structs.{
  FileSystem, FileType, dir_t, put_cell, find_pos, get_directory, done, lado_mapa,
}
use sistemas_operativos.Fisopfs.Update.{
  Caller, taken_as, take_cell, find_dir, find_root_cell, find_dir_cell, find_free_row,
  fisopfs_mkdir,
}
use sistemas_operativos.Fisopfs.Create.{Created, fisopfs_mkdir-Created}

-- A cell for a path: one that is not TAKEN in the directory's row, or, where no row is the directory's,
-- a row that is not TAKEN.
abbrev pub Room : FileSystem → List ℕ → Type 0
Room fs path =
    ((t : ℕ) × (j : ℕ) × (find_dir lado_mapa 0 fs (get_directory path) ≡ some t)
      × (find_dir_cell 19 1 (fs t) ≡ some j))
    ⊎ ((t : ℕ) × (find_dir lado_mapa 0 fs (get_directory path) ≡ none)
        × (find_root_cell lado_mapa 0 fs ≡ some t))

take_cell-done :
    (fs : FileSystem) (i j : ℕ) (type : FileType) (path : List ℕ) (mode : ℕ) (who : Caller)
    → length path < 42
    → take_cell i j type path mode who fs
      ≡ some (done 0, put_cell i j (taken_as type path mode who (fs i j)) fs)
take_cell-done fs i j type path mode who short = rw (take_cell, lt→ltb (length path) 42 short) refl

-- `fisopfs_mkdir` of a path of fewer than 42 bytes that no cell in use has, where a row is FREE,
-- returns 0 and takes one cell for a directory of the path, with the mode and the caller's ids;
-- `find_pos` then finds that cell, and no other cell changed.
pub fisopfs_mkdir_lem :
    (fs : FileSystem) (path : List ℕ) (mode : ℕ) (who : Caller) (t : ℕ)
    → find_pos fs path ≡ none
    → length path < 42
    → find_free_row lado_mapa 0 fs ≡ some t
    → (fs' : FileSystem) × (fisopfs_mkdir fs path mode who ≡ some (done 0, fs'))
      × Created fs fs' dir_t path mode who
unfolding fisopfs_mkdir
fisopfs_mkdir_lem fs path mode who t absent short row = (
  put_cell t 0 (taken_as dir_t path mode who (fs t 0)) fs,
  made,
  fisopfs_mkdir-Created fs (put_cell t 0 (taken_as dir_t path mode who (fs t 0)) fs) path mode who
      absent made,
)
  where
    made :
        fisopfs_mkdir fs path mode who
        ≡ some (done 0, put_cell t 0 (taken_as dir_t path mode who (fs t 0)) fs)
    made = rw (fisopfs_mkdir, row) (take_cell-done fs t 0 dir_t path mode who short)
