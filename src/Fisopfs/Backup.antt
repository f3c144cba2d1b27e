-- ===== src/Fisopfs/Backup.antt =====
-- fisopfs/persistence.c. The backup file is the list of its bytes; integers stand in it in the order of the
-- machine, the lowest byte first. `nombre` and `fecha_creacion`, which no operation writes, are zeros, and so are the
-- bytes of a path's array behind its NUL.
use sistemas_operativos.Prelude.{
  ℕ, zero, suc, ◌+◌, ◌-◌, ◌*◌, ◌/◌, ◌%◌, Option, none, some, List, [], ◌∷◌, ◌++◌, ◌==◌,
  if◌then◌else◌, length, take, drop, replicate,
}
use sistemas_operativos.Fisopfs.Structs.{
  lado_mapa, largo_path, largo_contenido, CellStatus, free_t, taken_t, deleted_t, FileType,
  nothing_t, file_t, dir_t, Timespec, FileMetadata, File, FileSystem, put_cell,
}

abbrev pub largo_nombre : ℕ
largo_nombre = 20

abbrev pub largo_fecha : ℕ
largo_fecha = 22

-- 556 bytes, of which a record takes 536.
abbrev pub largo_file : ℕ
largo_file =
    2 * largo_nombre + largo_fecha + 2 * 16 + 2 * 4 + 4 + largo_contenido + largo_path + 4 + 4

-- The `n` bytes of an integer, and back.
abbrev pub le : ℕ → ℕ → List ℕ
le zero w = []
le (suc n) w = (w % 256) ∷ le n (w / 256)

abbrev pub of_le : List ℕ → ℕ
of_le [] = 0
of_le (b ∷ bs) = b + 256 * of_le bs

abbrev pub status_number : CellStatus → ℕ
status_number free_t = 0
status_number taken_t = 1
status_number deleted_t = 2

abbrev pub type_number : FileType → ℕ
type_number nothing_t = 0
type_number file_t = 1
type_number dir_t = 2

-- `none` is a value that the enumeration has not.
abbrev pub to_status : ℕ → Option CellStatus
to_status n =
    if n == 0
    then some free_t
    else if n == 1
    then some taken_t
    else if n == 2
    then some deleted_t
    else none

abbrev pub to_type : ℕ → Option FileType
to_type n =
    if n == 0
    then some nothing_t
    else if n == 1
    then some file_t
    else if n == 2
    then some dir_t
    else none

abbrev pub timespec_bytes : Timespec → List ℕ
timespec_bytes t = le 8 t.tv_sec ++ le 8 t.tv_nsec

-- A path in its array, where zeros stand behind it.
abbrev pub path_bytes : List ℕ → List ℕ
path_bytes p = p ++ replicate (largo_path - length p) 0

unfoldable pub write_metadata : FileMetadata → List ℕ
write_metadata d =
    replicate largo_nombre 0
    ++ (replicate largo_fecha 0
        ++ (timespec_bytes d.fecha_modificacion
            ++ (timespec_bytes d.fecha_acceso
                ++ (le 4 d.propietario ++ (le 4 d.mode ++ le 4 d.gid)))))

-- A record, without the end of line behind it.
unfoldable pub save_cell : File → List ℕ
save_cell c =
    path_bytes c.path
    ++ (le 4 (status_number c.cell_status)
        ++ (le 4 (type_number c.type) ++ (write_metadata c.metadata ++ c.contenido)))

unfoldable pub save_row : ℕ → ℕ → ℕ → FileSystem → List ℕ
save_row zero i j fs = []
save_row (suc left) i j fs = save_cell (fs i j) ++ (10 ∷ save_row left i (j + 1) fs)

unfoldable pub save_rows : ℕ → ℕ → FileSystem → List ℕ
save_rows zero i fs = []
save_rows (suc left) i fs = save_row lado_mapa i 0 fs ++ save_rows left (i + 1) fs

unfoldable pub save_fs : FileSystem → List ℕ
save_fs fs = save_rows lado_mapa 0 fs

-- `fgets`, with room for `n` bytes before the NUL: what it reads, and the file behind it.
unfoldable pub fgets : ℕ → List ℕ → List ℕ × List ℕ
fgets zero input = ([], input)
fgets (suc n) [] = ([], [])
fgets (suc n) (c ∷ input) =
    let (l, rest) = fgets n input in if c == 10 then (c ∷ [], input) else (c ∷ l, rest)

-- The buffer behind `fgets`: its old bytes stay behind the NUL.
abbrev pub filled : List ℕ → List ℕ → List ℕ
filled l buffer = l ++ (0 ∷ drop (suc (length l)) buffer)

abbrev pub up_to_nul : List ℕ → List ℕ
up_to_nul [] = []
up_to_nul (c ∷ s) = if c == 0 then [] else c ∷ up_to_nul s

-- The next `n` bytes, and the buffer behind them.
unfoldable pub field : {A : Type 0} → ℕ → (List ℕ → List ℕ → A) → List ℕ → A
field n rest buffer = rest (take n buffer) (drop n buffer)

abbrev pub timespec_of : List ℕ → Timespec
timespec_of b = record { tv_sec = of_le (take 8 b); tv_nsec = of_le (drop 8 b) }

unfoldable pub load_metadata : {A : Type 0} → (FileMetadata → List ℕ → A) → List ℕ → A
load_metadata rest = field largo_nombre (λ _. field largo_fecha (λ _. field 16 (λ modified.
    field 16 (λ accessed. field 4 (λ owner. field 4 (λ mode. field 4 (λ gid. rest (record {
      fecha_modificacion = timespec_of modified;
      fecha_acceso = timespec_of accessed;
      propietario = of_le owner;
      mode = of_le mode;
      gid = of_le gid;
    }))))))))

abbrev pub cell_of :
    List ℕ → Option CellStatus → Option FileType → FileMetadata → List ℕ → Option File
cell_of path (some s) (some t) d contents = some (record {
  path = up_to_nul path;
  cell_status = s;
  type = t;
  metadata = d;
  contenido = contents;
})
cell_of path s t d contents = none

unfoldable pub load_cell : List ℕ → Option File
load_cell = field largo_path (λ path. field 4 (λ status. field 4 (λ type. load_metadata (λ d.
    field largo_contenido (λ contents rest.
      cell_of path (to_status (of_le status)) (to_type (of_le type)) d contents)))))

-- What `load_fs` has: the cells, the file from its position on, and the buffer.
pub record Loading : Type 0 where
  pub cells : FileSystem
  pub input : List ℕ
  pub buffer : List ℕ

-- How it goes on: it has read cells, returns -1 at the end of the file, or has read a value that an
-- enumeration has not.
pub data Load : Type 0 where
  loaded : Loading → Load
  unreadable : Loading → Load
  undefined : Load

-- One round: a record is read into the buffer and from there into the cell.
unfoldable pub load_record : ℕ → ℕ → List ℕ × List ℕ → Loading → Load
load_record i j ([], rest) s = unreadable s
load_record i j (c ∷ l, rest) s =
    let buffer = filled (c ∷ l) s.buffer in
    elim (load_cell buffer) [
      | none ↦ undefined
      | some f ↦ loaded (record { cells = put_cell i j f s.cells; input = rest; buffer = buffer })
    ]

abbrev pub and_load : Load → (Loading → Load) → Load
and_load (loaded s) next = next s
and_load (unreadable s) next = unreadable s
and_load undefined next = undefined

unfoldable pub load_row : ℕ → ℕ → ℕ → Loading → Load
load_row zero i j s = loaded s
load_row (suc left) i j s =
    and_load (load_record i j (fgets (largo_file - 1) s.input) s) (load_row left i (j + 1))

unfoldable pub load_rows : ℕ → ℕ → Loading → Load
load_rows zero i s = loaded s
load_rows (suc left) i s = and_load (load_row lado_mapa i 0 s) (load_rows left (i + 1))

unfoldable pub load_fs : Loading → Load
load_fs s = load_rows lado_mapa 0 s
