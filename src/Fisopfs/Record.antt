-- ===== src/Fisopfs/Record.antt =====
-- A record of the backup file of fisopfs/persistence.c: `load_cell` reads what `save_cell` wrote.
use sistemas_operativos.Prelude.{
  ℕ, zero, suc, ◌-◌, ◌/◌, ◌≡◌, ◌≢◌, ◌<◌, refl, sym, ap, ◌∙◌, false, some, List, [], ◌∷◌, ◌++◌, ◌==◌,
  length, take, drop, replicate, arith, append_assoc, length-append, length-replicate,
}
use sistemas_operativos.Fisopfs.Structs.{
  largo_path, largo_contenido, CellStatus, free_t, taken_t, deleted_t, FileType, nothing_t, file_t,
  dir_t, Timespec, FileMetadata, File,
}
use sistemas_operativos.Fisopfs.Backup.{
  le, of_le, status_number, type_number, to_status, to_type, path_bytes, write_metadata, save_cell,
  up_to_nul, field, load_metadata, cell_of, load_cell,
}

pub length-le : (n w : ℕ) → length (le n w) ≡ n
length-le zero w = refl
length-le (suc n) w = ap suc (length-le n (w / 256))

-- The integer fits into `n` bytes.
abbrev pub Fits : ℕ → ℕ → Type 0
Fits zero w = w ≡ 0
Fits (suc n) w = Fits n (w / 256)

of_le-le : (n w : ℕ) → Fits n w → of_le (le n w) ≡ w
of_le-le zero w h = sym h
of_le-le (suc n) w h = omega (arith, of_le-le n (w / 256) h)

take-append : (n : ℕ) (a b : List ℕ) → length a ≡ n → take n (a ++ b) ≡ a
take-append zero [] b e = refl
take-append zero (x ∷ a) b e = absurd (omega (arith, e))
take-append (suc n) [] b e = absurd (omega (arith, e))
take-append (suc n) (x ∷ a) b e = ap (λ l. x ∷ l) (take-append n a b (omega (arith, e)))

drop-append : (n : ℕ) (a b : List ℕ) → length a ≡ n → drop n (a ++ b) ≡ b
drop-append zero [] b e = refl
drop-append zero (x ∷ a) b e = absurd (omega (arith, e))
drop-append (suc n) [] b e = absurd (omega (arith, e))
drop-append (suc n) (x ∷ a) b e = drop-append n a b (omega (arith, e))

field-append :
    {A : Type 0} (n : ℕ) (rest : List ℕ → List ℕ → A) (a b : List ℕ)
    → length a ≡ n
    → field n rest (a ++ b) ≡ rest a b
unfolding field
field-append n rest a b e = rw (take-append n a b e, drop-append n a b e) refl

abbrev pub TimespecFits : Timespec → Type 0
TimespecFits t = Fits 8 t.tv_sec × Fits 8 t.tv_nsec

abbrev pub MetadataFits : FileMetadata → Type 0
MetadataFits d =
    TimespecFits d.fecha_modificacion
    × (TimespecFits d.fecha_acceso × (Fits 4 d.propietario × (Fits 4 d.mode × Fits 4 d.gid)))

load_metadata-write_metadata :
    {A : Type 0} (rest : FileMetadata → List ℕ → A) (d : FileMetadata) (more : List ℕ)
    → MetadataFits d
    → load_metadata rest (write_metadata d ++ more) ≡ rest d more
unfolding load_metadata write_metadata field
load_metadata-write_metadata rest d more ((ms, mn), ((as_, an), (o, (p, g)))) = λ i.
    rest
      (record {
        fecha_modificacion = record {
          tv_sec = of_le-le 8 d.fecha_modificacion.tv_sec ms i;
          tv_nsec = of_le-le 8 d.fecha_modificacion.tv_nsec mn i;
        };
        fecha_acceso = record {
          tv_sec = of_le-le 8 d.fecha_acceso.tv_sec as_ i;
          tv_nsec = of_le-le 8 d.fecha_acceso.tv_nsec an i;
        };
        propietario = of_le-le 4 d.propietario o i;
        mode = of_le-le 4 d.mode p i;
        gid = of_le-le 4 d.gid g i;
      })
      more

-- Bytes that are not zero.
abbrev NoNul : List ℕ → Type 0
NoNul [] = Unit
NoNul (c ∷ s) = (c ≢ 0) × NoNul s

-- A cell that its record can hold: a path shorter than its array, contents of the array's size, and integers
-- that fit.
abbrev pub CellFits : File → Type 0
CellFits c =
    (length c.path < largo_path)
    × (NoNul c.path × (MetadataFits c.metadata × (length c.contenido ≡ largo_contenido)))

up_to_nul-zeros : (s : List ℕ) (n : ℕ) → NoNul s → up_to_nul (s ++ replicate n 0) ≡ s
up_to_nul-zeros [] zero h = refl
up_to_nul-zeros [] (suc n) h = refl
up_to_nul-zeros (c ∷ s) n (a, h) =
    let other : (c == 0) ≡ false = ground arith in
    rw (other) (ap (λ l. c ∷ l) (up_to_nul-zeros s n h))

pub length-path_bytes : (s : List ℕ) → length s < largo_path → length (path_bytes s) ≡ largo_path
length-path_bytes s h = omega (
  arith,
  h,
  length-append s (replicate (largo_path - length s) 0),
  length-replicate {A = ℕ} (largo_path - length s) 0,
)

to_status-status_number : (s : CellStatus) → to_status (of_le (le 4 (status_number s))) ≡ some s
to_status-status_number free_t = refl
to_status-status_number taken_t = refl
to_status-status_number deleted_t = refl

to_type-type_number : (t : FileType) → to_type (of_le (le 4 (type_number t))) ≡ some t
to_type-type_number nothing_t = refl
to_type-type_number file_t = refl
to_type-type_number dir_t = refl

-- The record behind its path.
abbrev behind_path : File → List ℕ → List ℕ
behind_path c more =
    le 4 (status_number c.cell_status)
    ++ (le 4 (type_number c.type) ++ (write_metadata c.metadata ++ (c.contenido ++ more)))

save_cell-behind_path :
    (c : File) (more : List ℕ) → save_cell c ++ more ≡ path_bytes c.path ++ behind_path c more
unfolding save_cell
save_cell-behind_path c more =
    append_assoc (path_bytes c.path) _ more
    ∙ ap (λ (l : List ℕ). path_bytes c.path ++ l)
        (rw (append_assoc (write_metadata c.metadata) c.contenido more) refl)

cell_of-fields :
    (c : File)
    → NoNul c.path
    → cell_of
        (path_bytes c.path)
        (to_status (of_le (le 4 (status_number c.cell_status))))
        (to_type (of_le (le 4 (type_number c.type))))
        c.metadata
        c.contenido
      ≡ some c
cell_of-fields c solid =
    rw
      (
        to_status-status_number c.cell_status,
        to_type-type_number c.type,
        up_to_nul-zeros c.path (largo_path - length c.path) solid,
      )
      refl

pub load_cell-save_cell :
    (c : File) (more : List ℕ) → CellFits c → load_cell (save_cell c ++ more) ≡ some c
unfolding load_cell field
load_cell-save_cell c more (short, (solid, (meta, size))) =
    ap load_cell (save_cell-behind_path c more)
    ∙ field-append largo_path
        (λ path. field 4 (λ status. field 4 (λ type. load_metadata (λ d.
          field largo_contenido (λ contents rest.
            cell_of path (to_status (of_le status)) (to_type (of_le type)) d contents)))))
        (path_bytes c.path) (behind_path c more) (length-path_bytes c.path short)
    ∙ load_metadata-write_metadata
        (λ d. field largo_contenido (λ contents rest.
          cell_of (path_bytes c.path) (to_status (of_le (le 4 (status_number c.cell_status))))
            (to_type (of_le (le 4 (type_number c.type)))) d contents))
        c.metadata (c.contenido ++ more) meta
    ∙ field-append largo_contenido
        (λ contents rest.
          cell_of (path_bytes c.path) (to_status (of_le (le 4 (status_number c.cell_status))))
            (to_type (of_le (le 4 (type_number c.type)))) c.metadata contents)
        c.contenido more size
    ∙ cell_of-fields c solid
