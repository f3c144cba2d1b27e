-- ===== src/Fisopfs/Create.antt =====
-- `fisops_mknod` and `fisopfs_mkdir` of fisopfs/fisopfs.c against `find_pos`.
use sistemas_operativos.Prelude.{
  ℕ, ◌≡◌, ◌≢◌, ◌⊎◌, refl, sym, ap, inl, inr, false, Option, none, some, List, arith, bytes_eq,
  bytes_eq_refl, update, update_ne, Bool-cases, Option-cases, none≢some, length, ltb, subst,
}
use sistemas_operativos.Fisopfs.Structs.{
  File, FileSystem, FileType, taken_t, file_t, dir_t, is_free, is_dir, put_cell, find_pos,
  get_directory, Code, done, fails, eexist, enomem, largo_path, lado_mapa,
}
use sistemas_operativos.Fisopfs.Update.{
  Caller, taken_as, take_cell, find_dir, find_root_cell, find_dir_cell, mknod_in_root, mknod_in_dir,
  mknod_new, fisops_mknod, find_free_row, fisopfs_mkdir,
}
use sistemas_operativos.Fisopfs.Lookup.{row_search, Holds}
use sistemas_operativos.Fisopfs.Slots.{
  Slot, find_col-put, find_row-put, find_row-passed, find_root_cell-Slot, find_free_row-Slot,
  find_dir_cell-Slot, find_dir_cell-not_dir, find_dir-Slot,
}

-- One cell is taken with the path, the type and the attributes, a lookup finds it, and every other
-- cell is what it was.
pub record Created (fs fs' : FileSystem) (type : FileType) (path : List ℕ) (mode : ℕ) (who : Caller)
    : Type 0 where
  pub row : ℕ
  pub column : ℕ
  pub found : find_pos fs' path ≡ some (row, column)
  pub used : (fs' row column).cell_status ≡ taken_t
  pub kind : (fs' row column).type ≡ type
  pub named : (fs' row column).path ≡ path
  pub permissions : (fs' row column).metadata.mode ≡ mode
  pub owner : (fs' row column).metadata.propietario ≡ who.uid
  pub group : (fs' row column).metadata.gid ≡ who.gid
  pub contents : (fs' row column).contenido ≡ (fs row column).contenido
  pub others : (i j : ℕ) → (i ≢ row) ⊎ (j ≢ column) → fs' i j ≡ fs i j

put_cell_self : (fs : FileSystem) (i j : ℕ) (c : File) → put_cell i j c fs i j ≡ c
put_cell_self fs i j c = ground arith

put_cell_ne :
    (fs : FileSystem) (i j : ℕ) (c : File) (a b : ℕ)
    → (a ≢ i) ⊎ (b ≢ j)
    → put_cell i j c fs a b ≡ fs a b
put_cell_ne fs i j c a b (inl h) = ground arith
put_cell_ne fs i j c a b (inr h) = ground arith

-- From the lookup in the new cells.
Created-put :
    (fs : FileSystem) (i j : ℕ) (type : FileType) (path : List ℕ) (mode : ℕ) (who : Caller)
    → find_pos (put_cell i j (taken_as type path mode who (fs i j)) fs) path ≡ some (i, j)
    → Created fs (put_cell i j (taken_as type path mode who (fs i j)) fs) type path mode who
Created-put fs i j type path mode who h = record {
  row = i;
  column = j;
  found = h;
  used =
      ap (λ (c : File). c.cell_status)
        (put_cell_self fs i j (taken_as type path mode who (fs i j)));
  kind = ap (λ (c : File). c.type) (put_cell_self fs i j (taken_as type path mode who (fs i j)));
  named = ap (λ (c : File). c.path) (put_cell_self fs i j (taken_as type path mode who (fs i j)));
  permissions =
      ap (λ (c : File). c.metadata.mode)
        (put_cell_self fs i j (taken_as type path mode who (fs i j)));
  owner =
      ap (λ (c : File). c.metadata.propietario)
        (put_cell_self fs i j (taken_as type path mode who (fs i j)));
  group =
      ap (λ (c : File). c.metadata.gid)
        (put_cell_self fs i j (taken_as type path mode who (fs i j)));
  contents =
      ap (λ (c : File). c.contenido) (put_cell_self fs i j (taken_as type path mode who (fs i j)));
  others = put_cell_ne fs i j (taken_as type path mode who (fs i j));
}

taken_as-Holds :
    (type : FileType) (path : List ℕ) (mode : ℕ) (who : Caller) (c : File)
    → Holds (taken_as type path mode who c) path
taken_as-Holds type path mode who c = record { used = refl; named = refl }

-- Of a cell that is taken successfully the lookup decides.
take_cell-Created :
    (fs fs' : FileSystem) (i j : ℕ) (type : FileType) (path : List ℕ) (mode : ℕ) (who : Caller)
    → find_pos (put_cell i j (taken_as type path mode who (fs i j)) fs) path ≡ some (i, j)
    → take_cell i j type path mode who fs ≡ some (done 0, fs')
    → Created fs fs' type path mode who
take_cell-Created fs fs' i j type path mode who found h =
    elim (Bool-cases (ltb (length path) largo_path)) [
      | inr e ↦ absurd (none≢some (done 0, fs') (rw e at h))
      | inl e ↦
          subst (λ s. Created fs s type path mode who)
            (same (put_cell i j (taken_as type path mode who (fs i j)) fs) (rw e at h))
            (Created-put fs i j type path mode who found)
    ]
  where
    same :
        (s : FileSystem)
        → ◌≡◌ {A = Option (Code × FileSystem)} (some (done 0, s)) (some (done 0, fs'))
        → s ≡ fs'
    same s e = cc

-- The first cell of a row behind rows in use.
find_pos-row :
    (fs : FileSystem) (t : ℕ) (c : File) (path : List ℕ)
    → find_pos fs path ≡ none
    → Slot (λ m. fs m 0) 0 20 t
    → Holds c path
    → find_pos (put_cell t 0 c fs) path ≡ some (t, 0)
unfolding find_pos
find_pos-row fs t c path none_found slot holds =
    find_row-put 20 0 t 0 fs path (update (fs t) 0 c) none_found slot.low slot.high slot.before
      holds.used (rw (holds.named, bytes_eq_refl) refl)

-- A later cell of a directory's row.
find_pos-column :
    (fs : FileSystem) (t j : ℕ) (c : File) (path : List ℕ)
    → find_pos fs path ≡ none
    → Slot (λ m. fs m 0) 0 20 t
    → is_free (fs t 0).cell_status ≡ false
    → Slot (fs t) 1 20 j
    → Holds c path
    → find_pos (put_cell t j c fs) path ≡ some (t, j)
unfolding find_pos
find_pos-column fs t j c path none_found slot f col holds =
    find_row-put 20 0 t j fs path (update (fs t) j c) none_found slot.low slot.high slot.before
      (rw first f)
      (elim (Bool-cases (bytes_eq (fs t 0).path path)) [
        | inl e ↦ absurd (none≢some 0 (sym (rw e at passed)))
        | inr e ↦
            rw (first, e)
              (find_col-put 19 1 j (fs t) path c (rw e at passed) col.low col.high col.before holds)
      ])
  where
    passed : row_search (fs t) path ≡ none
    passed = find_row-passed 20 0 t fs path none_found slot.low slot.high slot.before f

    first : update (fs t) j c 0 ≡ fs t 0
    first = update_ne (fs t) j 0 c (λ e. absurd (omega (arith, col.low, e)))

mknod_in_row :
    (fs fs' : FileSystem) (t : ℕ) (path : List ℕ) (mode : ℕ) (who : Caller)
    → find_pos fs path ≡ none
    → Slot (λ m. fs m 0) 0 20 t × (is_free (fs t 0).cell_status ≡ false)
    → mknod_in_dir t path mode who fs ≡ some (done 0, fs')
    → Created fs fs' file_t path mode who
mknod_in_row fs fs' t path mode who absent (slot, f) h = elim (Bool-cases (is_dir (fs t 0).type)) [
  | inr d ↦ absurd (not_done (rw (mknod_in_dir, find_dir_cell-not_dir 19 1 (fs t) d) at h))
  | inl d ↦ elim (Option-cases (find_dir_cell 19 1 (fs t))) [
    | inl e ↦ absurd (not_done (rw (mknod_in_dir, e) at h))
    | inr (j, e) ↦
        take_cell-Created fs fs' t j file_t path mode who
          (find_pos-column fs t j (taken_as file_t path mode who (fs t j)) path absent slot f
            (find_dir_cell-Slot 19 1 (fs t) j d e) (taken_as-Holds file_t path mode who (fs t j)))
          (rw (mknod_in_dir, e) at h)
  ]
]
  where
    not_done :
        ◌≡◌ {A = Option (Code × FileSystem)} (some (fails enomem, fs)) (some (done 0, fs')) → ⊥
    not_done e = cc

-- A call of `fisops_mknod` that returns 0 takes one cell for a regular file of the path, with the mode
-- and the caller's ids; `find_pos` then finds that cell, and no other cell changed.
pub fisops_mknod-Created :
    (fs fs' : FileSystem) (path : List ℕ) (mode : ℕ) (who : Caller)
    → fisops_mknod fs path mode who ≡ some (done 0, fs')
    → Created fs fs' file_t path mode who
unfolding fisops_mknod
fisops_mknod-Created fs fs' path mode who h = elim (Option-cases (find_pos fs path)) [
  | inr (p, e) ↦ absurd (not_done (rw (fisops_mknod, e) at h))
  | inl absent ↦ elim (Bool-cases (ltb (length (get_directory path)) 41)) [
    | inr e ↦ absurd (none≢some (done 0, fs') (rw (fisops_mknod, absent, e) at h))
    | inl short ↦ elim (Option-cases (find_dir lado_mapa 0 fs (get_directory path))) [
      | inr (t, e) ↦
          mknod_in_row fs fs' t path mode who absent
            (find_dir-Slot 20 0 fs (get_directory path) t e)
            (rw (fisops_mknod, absent, short, e) at h)
      | inl e ↦ elim (Option-cases (find_root_cell lado_mapa 0 fs)) [
        | inl r ↦ absurd (
            none≢some (done 0, fs')
              (rw (mknod_in_root, r) at (rw (fisops_mknod, absent, mknod_new, short, e) at h)))
        | inr (t, r) ↦
            take_cell-Created fs fs' t 0 file_t path mode who
              (find_pos-row fs t (taken_as file_t path mode who (fs t 0)) path absent
                (find_root_cell-Slot 20 0 fs t r) (taken_as-Holds file_t path mode who (fs t 0)))
              (rw (mknod_in_root, r) at (rw (fisops_mknod, absent, mknod_new, short, e) at h))
      ]
    ]
  ]
]
  where
    not_done :
        ◌≡◌ {A = Option (Code × FileSystem)} (some (fails eexist, fs)) (some (done 0, fs')) → ⊥
    not_done e = cc

-- A call of `fisopfs_mkdir` that returns 0, on a path that no cell in use has, takes one cell for a
-- directory of the path, with the mode and the caller's ids; `find_pos` then finds that cell, and no
-- other cell changed.
pub fisopfs_mkdir-Created :
    (fs fs' : FileSystem) (path : List ℕ) (mode : ℕ) (who : Caller)
    → find_pos fs path ≡ none
    → fisopfs_mkdir fs path mode who ≡ some (done 0, fs')
    → Created fs fs' dir_t path mode who
unfolding fisopfs_mkdir
fisopfs_mkdir-Created fs fs' path mode who absent h =
    elim (Option-cases (find_free_row lado_mapa 0 fs)) [
      | inl e ↦ absurd (not_done (rw (fisopfs_mkdir, e) at h))
      | inr (t, e) ↦
          take_cell-Created fs fs' t 0 dir_t path mode who
            (find_pos-row fs t (taken_as dir_t path mode who (fs t 0)) path absent
              (find_free_row-Slot 20 0 fs t e) (taken_as-Holds dir_t path mode who (fs t 0)))
            (rw (fisopfs_mkdir, e) at h)
    ]
  where
    not_done :
        ◌≡◌ {A = Option (Code × FileSystem)} (some (fails enomem, fs)) (some (done 0, fs')) → ⊥
    not_done e = cc
