-- ===== src/Fisopfs/Reload.antt =====
-- `load_fs` of fisopfs/persistence.c reads back what `save_fs` wrote.
use sistemas_operativos.Prelude.{
  ℕ, zero, suc, ◌+◌, ◌-◌, ◌≡◌, ◌≢◌, ◌<◌, refl, sym, ap, ◌∙◌, false, some, List, [], ◌∷◌, ◌++◌, ltb,
  leb, ◌&&◌, ◌==◌, if◌then◌else◌, length, Bool-cases, inl, inr, drop, arith, append_assoc,
  length-append,
}
use sistemas_operativos.Fisopfs.Structs.{lado_mapa, File, FileSystem, put_cell}
use sistemas_operativos.Fisopfs.Backup.{
  largo_file, le, status_number, type_number, path_bytes, write_metadata, save_cell, save_row,
  save_rows, save_fs, fgets, filled, load_cell, Loading, Load, loaded, load_record, and_load,
  load_row, load_rows, load_fs,
}
use sistemas_operativos.Fisopfs.Record.{CellFits, length-path_bytes, load_cell-save_cell}

-- Bytes with no end of line.
abbrev pub OneLine : List ℕ → Type 0
OneLine [] = Unit
OneLine (b ∷ l) = (b ≢ 10) × OneLine l

fgets-line :
    (n : ℕ) (l rest : List ℕ)
    → OneLine l
    → length l < n
    → fgets n (l ++ (10 ∷ rest)) ≡ (l ++ (10 ∷ []), rest)
unfolding fgets
fgets-line zero l rest h lt = elim lt [ ]
fgets-line (suc n) [] rest h lt = refl
fgets-line (suc n) (b ∷ l) rest (a, h) lt =
    let other : (b == 10) ≡ false = ground arith in
    rw (fgets, other, fgets-line n l rest h (omega (arith, lt))) refl

-- The cells that a record can hold, on one line.
abbrev pub Saves : File → Type 0
Saves c = CellFits c × OneLine (save_cell c)

length-save_cell : (c : File) → CellFits c → length (save_cell c) ≡ 536
unfolding save_cell write_metadata
length-save_cell c (short, (solid, (meta, size))) = omega (
  arith,
  size,
  length-path_bytes c.path short,
  length-append (path_bytes c.path) (
      le 4 (status_number c.cell_status)
      ++ (le 4 (type_number c.type) ++ (write_metadata c.metadata ++ c.contenido))),
)

load_record-cons :
    (l rest : List ℕ) (i j : ℕ) (f : File) (s : Loading)
    → 0 < length l
    → load_cell (filled l s.buffer) ≡ some f
    → load_record i j (l, rest) s
      ≡ loaded (record { cells = put_cell i j f s.cells; input = rest; buffer = filled l s.buffer })
unfolding load_record
load_record-cons [] rest i j f s h e = elim h [ ]
load_record-cons (c ∷ l) rest i j f s h e = rw (load_record, e) refl

abbrev buffer_behind : File → List ℕ → List ℕ
buffer_behind c buffer = filled (save_cell c ++ (10 ∷ [])) buffer

abbrev after_cell : ℕ → ℕ → File → List ℕ → Loading → Loading
after_cell i j c rest s = record {
  cells = put_cell i j c s.cells;
  input = rest;
  buffer = buffer_behind c s.buffer;
}

load_record-save_cell :
    (c : File) (i j : ℕ) (rest : List ℕ) (s : Loading)
    → Saves c
    → s.input ≡ save_cell c ++ (10 ∷ rest)
    → load_record i j (fgets (largo_file - 1) s.input) s ≡ loaded (after_cell i j c rest s)
load_record-save_cell c i j rest s (fits, one) e =
    let size = length-save_cell c fits in
    ap (λ (input : List ℕ). load_record i j (fgets (largo_file - 1) input) s) e
    ∙ ap (λ (r : List ℕ × List ℕ). load_record i j r s)
        (fgets-line (largo_file - 1) (save_cell c) rest one (omega (arith, size)))
    ∙ load_record-cons (save_cell c ++ (10 ∷ [])) rest i j c s
        (omega (arith, length-append (save_cell c) (10 ∷ [])))
        (ap load_cell (
            append_assoc (save_cell c) (10 ∷ [])
              (0 ∷ drop (suc (length (save_cell c ++ (10 ∷ [])))) s.buffer))
          ∙ load_cell-save_cell c _ fits)

-- A record can hold each cell of the grid.
abbrev pub AllSave : FileSystem → Type 0
AllSave fs = (i j : ℕ) → i < lado_mapa → j < lado_mapa → Saves (fs i j)

-- The cells of a row from column `j` on, once the first of them is in its place.
row_cell :
    (left i j : ℕ) (fs old : FileSystem) (r c : ℕ)
    → (if r == i && (leb (j + 1) c && ltb c (j + 1 + left))
        then fs i c
        else put_cell i j (fs i j) old r c)
      ≡ (if r == i && (leb j c && ltb c (j + suc left)) then fs i c else old r c)
row_cell left i j fs old r c = elim (Bool-cases (c == j)) [
  | inl same ↦
      let e : c ≡ j = ground arith in
      let first : fs i j ≡ fs i c = ap (fs i) (sym e) in rw first (ground arith)
  | inr other ↦ ground arith
]

-- A row that was read: from column `j` on it is the saved one.
load_row-save_row :
    (left i j : ℕ) (fs : FileSystem) (rest : List ℕ) (s : Loading)
    → ((c : ℕ) → c < j + left → Saves (fs i c))
    → s.input ≡ save_row left i j fs ++ rest
    → (s' : Loading) × ((load_row left i j s ≡ loaded s')
        × ((s'.input ≡ rest)
            × ((r c : ℕ)
                → s'.cells r c
                  ≡ (if r == i && (leb j c && ltb c (j + left)) then fs i c else s.cells r c))))
unfolding load_row save_row
load_row-save_row zero i j fs rest s ok e = (s, (refl, (e, λ r c. ground arith)))
load_row-save_row (suc left) i j fs rest s ok e =
    let first =
      load_record-save_cell (fs i j) i j (save_row left i (j + 1) fs ++ rest) s (ok j (omega arith))
        (e ∙ append_assoc (save_cell (fs i j)) (10 ∷ save_row left i (j + 1) fs) rest) in
    let (s', (run, (input, cells))) =
      load_row-save_row left i (j + 1) fs rest
        (after_cell i j (fs i j) (save_row left i (j + 1) fs ++ rest) s)
        (λ c lt. ok c (omega (arith, lt))) refl in
    (
      s',
      (
        ap (λ (l : Load). and_load l (load_row left i (j + 1))) first ∙ run,
        (input, λ r c. cells r c ∙ row_cell left i j fs s.cells r c),
      ),
    )

-- The cells of the rows from row `i` on, once the first of them is in its place.
rows_cell :
    (left i : ℕ) (fs old : FileSystem) (r c : ℕ) (cell : File)
    → cell ≡ (if r == i && (leb 0 c && ltb c (0 + lado_mapa)) then fs i c else old r c)
    → (if leb (i + 1) r && (ltb r (i + 1 + left) && ltb c lado_mapa) then fs r c else cell)
      ≡ (if leb i r && (ltb r (i + suc left) && ltb c lado_mapa) then fs r c else old r c)
rows_cell left i fs old r c cell e = elim (Bool-cases (r == i)) [
  | inl same ↦
      let eq : r ≡ i = ground arith in
      let first : fs i c ≡ fs r c = ap (λ k. fs k c) (sym eq) in rw (e, first) (ground arith)
  | inr other ↦ rw e (ground arith)
]

-- The rows from row `i` to the last: they are the saved ones.
load_rows-save_rows :
    (left i : ℕ) (fs : FileSystem) (s : Loading)
    → ((r c : ℕ) → r < i + left → c < lado_mapa → Saves (fs r c))
    → s.input ≡ save_rows left i fs
    → (s' : Loading) × ((load_rows left i s ≡ loaded s')
        × ((s'.input ≡ [])
            × ((r c : ℕ)
                → s'.cells r c ≡ (
                    if leb i r && (ltb r (i + left) && ltb c lado_mapa)
                    then fs r c
                    else s.cells r c))))
unfolding load_rows save_rows
load_rows-save_rows zero i fs s ok e = (s, (refl, (e, λ r c. ground arith)))
load_rows-save_rows (suc left) i fs s ok e =
    let (s1, (run1, (input1, cells1))) =
      load_row-save_row lado_mapa i 0 fs (save_rows left (i + 1) fs) s
        (λ c lt. ok i c (omega arith) lt) e in
    let (s', (run, (input, cells))) =
      load_rows-save_rows left (i + 1) fs s1 (λ r c lt. ok r c (omega (arith, lt))) input1 in
    (
      s',
      (
        ap (λ (l : Load). and_load l (load_rows left (i + 1))) run1 ∙ run,
        (input, λ r c. cells r c ∙ rows_cell left i fs s.cells r c (s1.cells r c) (cells1 r c)),
      ),
    )

-- `load_fs` reads back a backup that `save_fs` wrote: where each cell's path fits its array, its integers fit
-- their types, its contents fill their array and no byte of its record is 10, the whole file is read and the
-- cells of the grid, and no other, are the saved ones, whatever they and the buffer were before.
pub load_fs-save_fs :
    (fs : FileSystem) (s : Loading)
    → AllSave fs
    → s.input ≡ save_fs fs
    → (s' : Loading) × ((load_fs s ≡ loaded s')
        × ((s'.input ≡ [])
            × ((r c : ℕ)
                → s'.cells r c
                  ≡ (if ltb r lado_mapa && ltb c lado_mapa then fs r c else s.cells r c))))
unfolding load_fs save_fs
load_fs-save_fs fs s ok e =
    let (s', (run, (input, cells))) = load_rows-save_rows lado_mapa 0 fs s (λ r c. ok r c) e in
    (s', (run, (input, λ r c. cells r c ∙ ground arith)))
