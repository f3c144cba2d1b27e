-- ===== src/Fisopfs/Remove.antt =====
-- `fisopfs_unlink` and `fisopfs_rmdir` of fisopfs/fisopfs.c against `find_pos`.
use sistemas_operativos.Prelude.{
  ℕ, zero, suc, ◌+◌, ◌≤◌, ◌<◌, ◌≡◌, ◌≢◌, ◌⊎◌, refl, ap, sym, ◌∙◌, inl, inr, true, false, some, List,
  [], arith, Bool-cases, Option-cases, ℕ_discrete,
}
use sistemas_operativos.Fisopfs.Structs.{
  File, FileSystem, is_free, is_taken, is_dir, is_file, CellStatus, free_t, taken_t, deleted_t,
  cleared, clear_cell, find_pos, done, fails, enoent, eisdir, enotdir, enotempty,
}
use sistemas_operativos.Fisopfs.Update.{has_taken, fisopfs_rmdir, fisopfs_unlink}
use sistemas_operativos.Fisopfs.Lookup.{find_pos-Found}

-- The cell that the path led to is cleared, the path leads there no more, and every other cell is what
-- it was.
pub record Removed (fs fs' : FileSystem) (path : List ℕ) (row column : ℕ) : Type 0 where
  pub found : find_pos fs path ≡ some (row, column)
  pub gone : find_pos fs' path ≢ some (row, column)
  pub cell : fs' row column ≡ cleared (fs row column)
  pub others : (i j : ℕ) → (i ≢ row) ⊎ (j ≢ column) → fs' i j ≡ fs i j

clear_cell_self : (fs : FileSystem) (i j : ℕ) → clear_cell i j fs i j ≡ cleared (fs i j)
clear_cell_self fs i j = ground arith

clear_cell_ne : (fs : FileSystem) (i j a b : ℕ) → (a ≢ i) ⊎ (b ≢ j) → clear_cell i j fs a b ≡ fs a b
clear_cell_ne fs i j a b (inl h) = ground arith
clear_cell_ne fs i j a b (inr h) = ground arith

clear_cell-gone :
    (fs : FileSystem) (path : List ℕ) (i j : ℕ)
    → path ≢ []
    → find_pos (clear_cell i j fs) path ≢ some (i, j)
clear_cell-gone fs path i j named h =
    let held = (find_pos-Found (clear_cell i j fs) path i j h).2.named in
    named (sym (sym (ap (λ (c : File). c.path) (clear_cell_self fs i j)) ∙ held))

clear_cell-Removed :
    (fs : FileSystem) (path : List ℕ) (i j : ℕ)
    → path ≢ []
    → find_pos fs path ≡ some (i, j)
    → Removed fs (clear_cell i j fs) path i j
clear_cell-Removed fs path i j named found = record {
  found = found;
  gone = clear_cell-gone fs path i j named;
  cell = clear_cell_self fs i j;
  others = clear_cell_ne fs i j;
}

-- `fisopfs_unlink` of a path either fails and changes no cell, or finds a cell that is no directory's
-- and removes it.
pub fisopfs_unlink_lem :
    (fs : FileSystem) (path : List ℕ)
    → path ≢ []
    → (fisopfs_unlink fs path ≡ (fails enoent, fs))
      ⊎ (fisopfs_unlink fs path ≡ (fails eisdir, fs))
      ⊎ (fs' : FileSystem) × (i : ℕ) × (j : ℕ) × (fisopfs_unlink fs path ≡ (done 0, fs'))
        × Removed fs fs' path i j
        × (is_dir (fs i j).type ≡ false)
unfolding fisopfs_unlink
fisopfs_unlink_lem fs path named = elim (Option-cases (find_pos fs path)) [
  | inl e ↦ inl (rw (fisopfs_unlink, e) refl)
  | inr ((i, j), e) ↦ elim (Bool-cases (is_dir (fs i j).type)) [
    | inl d ↦ inr (inl (rw (fisopfs_unlink, e, d) refl))
    | inr d ↦ inr (
        inr (
          clear_cell i j fs,
          i,
          j,
          rw (fisopfs_unlink, e, d) refl,
          clear_cell-Removed fs path i j named e,
          d,
        ))
  ]
]

-- No cell of the row from column `j` on is TAKEN, before the first that is FREE.
abbrev pub Untaken : (ℕ → File) → ℕ → ℕ → Type 0
Untaken row j n =
    (m : ℕ)
    → j ≤ m
    → m < n
    → ((k : ℕ) → j ≤ k → k < m → is_free (row k).cell_status ≡ false)
    → is_taken (row m).cell_status ≡ false

free_not_taken : (s : CellStatus) → is_free s ≡ true → is_taken s ≡ false
free_not_taken free_t h = refl
free_not_taken taken_t h = cc
free_not_taken deleted_t h = refl

has_taken-Untaken :
    (left j : ℕ) (row : ℕ → File) → has_taken left j row ≡ false → Untaken row j (j + left)
unfolding has_taken
has_taken-Untaken zero j row h m l u used = absurd (omega arith)
has_taken-Untaken (suc left) j row h m l u used = elim (Bool-cases (is_taken (row j).cell_status)) [
  | inl t ↦ elim (Bool-cases (is_free (row j).cell_status)) [
    | inl f ↦ absurd (clash (sym t ∙ free_not_taken (row j).cell_status f))
    | inr f ↦ absurd (clash (rw (f, t) at h))
  ]
  | inr t ↦ elim (ℕ_discrete j m) [
    | yes here ↦ rw (sym here) t
    | no later ↦
        let f = used j (omega arith) (omega arith) in
        has_taken-Untaken left (j + 1) row (rw (f, t) at h) m (omega arith) (omega arith)
          (λ k lo hi. used k (omega arith) hi)
  ]
]
  where
    clash : true ≡ false → ⊥
    clash e = cc

-- `fisopfs_rmdir` of a path either fails and changes no cell, or finds a cell that is no file's, in a
-- row with no TAKEN cell between the first and the first FREE one, and removes it.
pub fisopfs_rmdir_lem :
    (fs : FileSystem) (path : List ℕ)
    → path ≢ []
    → (fisopfs_rmdir fs path ≡ (fails enoent, fs))
      ⊎ (fisopfs_rmdir fs path ≡ (fails enotdir, fs))
      ⊎ (fisopfs_rmdir fs path ≡ (fails enotempty, fs))
      ⊎ (fs' : FileSystem) × (i : ℕ) × (j : ℕ) × (fisopfs_rmdir fs path ≡ (done 0, fs'))
        × Removed fs fs' path i j
        × (is_file (fs i j).type ≡ false)
        × Untaken (fs i) 1 20
unfolding fisopfs_rmdir
fisopfs_rmdir_lem fs path named = elim (Option-cases (find_pos fs path)) [
  | inl e ↦ inl (rw (fisopfs_rmdir, e) refl)
  | inr ((i, j), e) ↦ elim (Bool-cases (is_file (fs i j).type)) [
    | inl d ↦ inr (inl (rw (fisopfs_rmdir, e, d) refl))
    | inr d ↦ elim (Bool-cases (has_taken 19 1 (fs i))) [
      | inl t ↦ inr (inr (inl (rw (fisopfs_rmdir, e, d, t) refl)))
      | inr t ↦ inr (
          inr (
            inr (
              clear_cell i j fs,
              i,
              j,
              rw (fisopfs_rmdir, e, d, t) refl,
              clear_cell-Removed fs path i j named e,
              d,
              has_taken-Untaken 19 1 (fs i) t,
            )))
    ]
  ]
]
