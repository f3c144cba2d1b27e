-- ===== src/Fisopfs/Slots.antt =====
-- The loops with which fisopfs/fisopfs.c chooses a cell, and the searches that find what is put there.
use sistemas_operativos.Prelude.{
  ℕ, zero, suc, ◌+◌, ◌≤◌, ◌<◌, ◌≡◌, refl, sym, inl, inr, true, false, none, some, List, arith,
  bytes_eq, bytes_eq_refl, update, update_self, update_ne, Bool-cases, Option-cases, ℕ_discrete,
  none≢some, subst,
}
use sistemas_operativos.Fisopfs.Structs.{
  File, FileSystem, CellStatus, free_t, taken_t, deleted_t, is_free, is_taken, is_dir, find_col,
  find_row,
}
use sistemas_operativos.Fisopfs.Update.{find_dir, find_root_cell, find_dir_cell, find_free_row}
use sistemas_operativos.Fisopfs.Lookup.{find_col-step, find_row-step, row_search, Holds}

-- Every cell from `lo` up to `hi` is in use.
abbrev pub Used : (ℕ → File) → ℕ → ℕ → Type 0
Used cell lo hi = (m : ℕ) → lo ≤ m → m < hi → is_free (cell m).cell_status ≡ false

-- A search of the columns that failed finds a cell that is put behind cells in use.
pub find_col-put :
    (left j k : ℕ) (row : ℕ → File) (path : List ℕ) (c : File)
    → find_col left j row path ≡ none
    → j ≤ k
    → k < j + left
    → Used row j k
    → Holds c path
    → find_col left j (update row k c) path ≡ some k
find_col-put zero j k row path c h lo hi used holds = absurd (omega arith)
find_col-put (suc left) j k row path c h lo hi used holds = elim (ℕ_discrete j k) [
  | yes here ↦
      rw here (rw (find_col-step, update_self row k c, holds.used, holds.named, bytes_eq_refl))
  | no later ↦
      let other : update row k c j ≡ row j = update_ne row k j c (λ e. later (sym e)) in
      let f : is_free (row j).cell_status ≡ false = used j (omega arith) (omega arith) in
      elim (Bool-cases (bytes_eq (row j).path path)) [
        | inl e ↦ absurd (none≢some j (sym (rw (find_col-step, f, e) at h)))
        | inr e ↦
            rw (find_col-step, other, f, e)
              (find_col-put left (j + 1) k row path c (rw (find_col-step, f, e) at h) (omega arith)
                (omega arith) (λ m l u. used m (omega arith) u) holds)
      ]
]

-- The same of the rows, for a row in which the search hits a cell.
pub find_row-put :
    (left i t j : ℕ) (fs : FileSystem) (path : List ℕ) (row : ℕ → File)
    → find_row left i fs path ≡ none
    → i ≤ t
    → t < i + left
    → Used (λ m. fs m 0) i t
    → is_free (row 0).cell_status ≡ false
    → row_search row path ≡ some j
    → find_row left i (update fs t row) path ≡ some (t, j)
find_row-put zero i t j fs path row h lo hi used f hit = absurd (omega arith)
find_row-put (suc left) i t j fs path row h lo hi used f hit = elim (ℕ_discrete i t) [
  | yes here ↦ rw here (rw (find_row-step, update_self fs t row, f, hit))
  | no later ↦
      let other : update fs t row i ≡ fs i = update_ne fs t i row (λ e. later (sym e)) in
      let used_i : is_free (fs i 0).cell_status ≡ false = used i (omega arith) (omega arith) in
      elim (Option-cases (row_search (fs i) path)) [
        | inr (k, e) ↦ absurd (none≢some (i, k) (sym (rw (find_row-step, used_i, e) at h)))
        | inl e ↦
            rw (find_row-step, other, used_i, e)
              (find_row-put left (i + 1) t j fs path row (rw (find_row-step, used_i, e) at h)
                (omega arith) (omega arith) (λ m l u. used m (omega arith) u) f hit)
      ]
]

-- The first row that is not TAKEN, and the rows before it.
pub record Slot (cell : ℕ → File) (lo hi k : ℕ) : Type 0 where
  pub low : lo ≤ k
  pub high : k < hi
  pub before : Used cell lo k

pub taken_used : (s : CellStatus) → is_taken s ≡ true → is_free s ≡ false
taken_used free_t h = cc
taken_used taken_t h = refl
taken_used deleted_t h = cc

Slot-later :
    (cell : ℕ → File) (lo hi hi' k : ℕ)
    → is_free (cell lo).cell_status ≡ false
    → hi ≡ hi'
    → Slot cell (lo + 1) hi k
    → Slot cell lo hi' k
Slot-later cell lo hi hi' k f e s = record {
  low = omega (arith, s.low);
  high = omega (arith, s.high);
  before = λ m l u. elim (ℕ_discrete lo m) [
    | yes here ↦ rw (sym here) f
    | no above ↦ s.before m (omega arith) u
  ];
}

Slot-here : (cell : ℕ → File) (lo hi : ℕ) → lo < hi → Slot cell lo hi lo
Slot-here cell lo hi h = record {
  low = omega arith;
  high = h;
  before = λ m l u. absurd (omega arith);
}

pub find_root_cell-Slot :
    (left t : ℕ) (fs : FileSystem) (k : ℕ)
    → find_root_cell left t fs ≡ some k
    → Slot (λ m. fs m 0) t (t + left) k
unfolding find_root_cell
find_root_cell-Slot zero t fs k h = absurd (none≢some k h)
find_root_cell-Slot (suc left) t fs k h = elim (Bool-cases (is_taken (fs t 0).cell_status)) [
  | inl e ↦
      Slot-later (λ m. fs m 0) t (t + 1 + left) (t + suc left) k (taken_used (fs t 0).cell_status e)
        (omega arith) (find_root_cell-Slot left (t + 1) fs k (rw e at h))
  | inr e ↦
      let here' : some t ≡ some k = rw e at h in
      let here : t ≡ k = cc in
      subst (Slot (λ m. fs m 0) t (t + suc left)) here
        (Slot-here (λ m. fs m 0) t (t + suc left) (omega arith))
]

pub find_free_row-Slot :
    (left t : ℕ) (fs : FileSystem) (k : ℕ)
    → find_free_row left t fs ≡ some k
    → Slot (λ m. fs m 0) t (t + left) k
unfolding find_free_row
find_free_row-Slot zero t fs k h = absurd (none≢some k h)
find_free_row-Slot (suc left) t fs k h = elim (Bool-cases (is_free (fs t 0).cell_status)) [
  | inr e ↦
      Slot-later (λ m. fs m 0) t (t + 1 + left) (t + suc left) k e (omega arith)
        (find_free_row-Slot left (t + 1) fs k (rw e at h))
  | inl e ↦
      let here' : some t ≡ some k = rw e at h in
      let here : t ≡ k = cc in
      subst (Slot (λ m. fs m 0) t (t + suc left)) here
        (Slot-here (λ m. fs m 0) t (t + suc left) (omega arith))
]

-- In a row that is no directory's no cell is chosen.
pub find_dir_cell-not_dir :
    (left j : ℕ) (row : ℕ → File) → is_dir (row 0).type ≡ false → find_dir_cell left j row ≡ none
unfolding find_dir_cell
find_dir_cell-not_dir zero j row d = refl
find_dir_cell-not_dir (suc left) j row d =
    ground (arith, d, find_dir_cell-not_dir left (j + 1) row d)

pub find_dir_cell-Slot :
    (left j : ℕ) (row : ℕ → File) (k : ℕ)
    → is_dir (row 0).type ≡ true
    → find_dir_cell left j row ≡ some k
    → Slot row j (j + left) k
unfolding find_dir_cell
find_dir_cell-Slot zero j row k d h = absurd (none≢some k h)
find_dir_cell-Slot (suc left) j row k d h = elim (Bool-cases (is_taken (row j).cell_status)) [
  | inr e ↦
      let here' : some j ≡ some k = rw (d, e) at h in
      let here : j ≡ k = cc in
      subst (Slot row j (j + suc left)) here (Slot-here row j (j + suc left) (omega arith))
  | inl e ↦
      Slot-later row j (j + 1 + left) (j + suc left) k (taken_used (row j).cell_status e)
        (omega arith) (find_dir_cell-Slot left (j + 1) row k d (rw (d, e) at h))
]

-- The directory's row: its first cell is in use, and so are those of the rows before it.
pub find_dir-Slot :
    (left t : ℕ) (fs : FileSystem) (directory : List ℕ) (k : ℕ)
    → find_dir left t fs directory ≡ some k
    → Slot (λ m. fs m 0) t (t + left) k × (is_free (fs k 0).cell_status ≡ false)
unfolding find_dir
find_dir-Slot zero t fs directory k h = absurd (none≢some k h)
find_dir-Slot (suc left) t fs directory k h = elim (Bool-cases (is_free (fs t 0).cell_status)) [
  | inl f ↦ absurd (none≢some k (rw f at h))
  | inr f ↦ elim (Bool-cases (bytes_eq (fs t 0).path directory)) [
    | inl e ↦
        let here' : some t ≡ some k = rw (f, e) at h in
        let here : t ≡ k = cc in
        subst (λ n. Slot (λ m. fs m 0) t (t + suc left) n × (is_free (fs n 0).cell_status ≡ false))
          here (Slot-here (λ m. fs m 0) t (t + suc left) (omega arith), f)
    | inr e ↦
        let rest = find_dir-Slot left (t + 1) fs directory k (rw (f, e) at h) in
        (
          Slot-later (λ m. fs m 0) t (t + 1 + left) (t + suc left) k f (omega arith) (rest.0),
          rest.1,
        )
  ]
]

-- A row that a failed search went through.
pub find_row-passed :
    (left i t : ℕ) (fs : FileSystem) (path : List ℕ)
    → find_row left i fs path ≡ none
    → i ≤ t
    → t < i + left
    → Used (λ m. fs m 0) i t
    → is_free (fs t 0).cell_status ≡ false
    → row_search (fs t) path ≡ none
find_row-passed zero i t fs path h lo hi used f = absurd (omega arith)
find_row-passed (suc left) i t fs path h lo hi used f = elim (ℕ_discrete i t) [
  | yes here ↦ elim (Option-cases (row_search (fs t) path)) [
    | inl e ↦ e
    | inr (k, e) ↦ absurd (none≢some (t, k) (sym (rw (here, find_row-step, f, e) at h)))
  ]
  | no later ↦
      let used_i : is_free (fs i 0).cell_status ≡ false = used i (omega arith) (omega arith) in
      elim (Option-cases (row_search (fs i) path)) [
        | inr (k, e) ↦ absurd (none≢some (i, k) (sym (rw (find_row-step, used_i, e) at h)))
        | inl e ↦
            find_row-passed left (i + 1) t fs path (rw (find_row-step, used_i, e) at h)
              (omega arith) (omega arith) (λ m l u. used m (omega arith) u) f
      ]
]
