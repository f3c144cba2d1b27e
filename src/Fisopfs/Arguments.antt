-- ===== src/Fisopfs/Arguments.antt =====
-- fisopfs/argumentos.c: the option for the backup file. An argument is the list of its bytes before the NUL.
use sistemas_operativos.Prelude.{
  ℕ, ◌-◌, ◌≡◌, refl, Bool, true, false, not, Option, none, some, List, [], ◌∷◌, ◌++◌, length,
  length-append, bytes_eq, arith, if◌then◌else◌,
}

-- `-bu` and `backup.fisop`
abbrev pub text_bu : List ℕ
text_bu = 45 ∷ 98 ∷ 117 ∷ []

abbrev pub text_backup : List ℕ
text_backup = 98 ∷ 97 ∷ 99 ∷ 107 ∷ 117 ∷ 112 ∷ 46 ∷ 102 ∷ 105 ∷ 115 ∷ 111 ∷ 112 ∷ []

-- The file behind `fp`, with whether its mode is `w+`, which empties it.
pub record Opened : Type 0 where
  pub name : List ℕ
  pub emptied : Bool

-- `exists` is what `access` says of a name.
module _ (exists : List ℕ → Bool) where
  abbrev pub open_backup : List ℕ → Opened
  open_backup name = record { name = name; emptied = not (exists name) }

  -- The loop over the arguments but the last one.
  unfoldable pub find_backup : List (List ℕ) → Option Opened
  find_backup [] = none
  find_backup (arg ∷ []) = none
  find_backup (arg ∷ name ∷ args) =
      let rest = find_backup (name ∷ args) in
      if bytes_eq arg text_bu then some (open_backup name) else rest

  -- The new `*argc`, with the file.
  unfoldable pub procesar_argumentos : List (List ℕ) → ℕ × Opened
  procesar_argumentos argv = elim (find_backup argv) [
    | none ↦ (length argv, record { name = text_backup; emptied = true })
    | some file ↦ (length argv - 2, file)
  ]

  abbrev IsFree : List (List ℕ) → Type 0
  IsFree [] = Unit
  IsFree (arg ∷ args) = (bytes_eq arg text_bu ≡ false) × IsFree args

  find_backup-append :
      (before : List (List ℕ)) (name : List ℕ)
      → IsFree before
      → find_backup (before ++ text_bu ∷ name ∷ []) ≡ some (open_backup name)
  unfolding find_backup
  find_backup-append [] name h = refl
  find_backup-append (arg ∷ []) name h = ground (arith, h.0)
  find_backup-append (arg ∷ arg' ∷ before) name h =
      ground (arith, h.0, find_backup-append (arg' ∷ before) name h.1)

  -- With `-bu` and a name as the last two arguments, and no `-bu` before, exactly these two are taken away, and the
  -- backup is the file of that name, which is emptied where there was none.
  procesar_argumentos_lem :
      (before : List (List ℕ)) (name : List ℕ)
      → IsFree before
      → procesar_argumentos (before ++ text_bu ∷ name ∷ []) ≡ (length before, open_backup name)
  unfolding procesar_argumentos
  procesar_argumentos_lem before name h =
      rw (procesar_argumentos, find_backup-append before name h, count) refl
    where
      count : length (before ++ text_bu ∷ name ∷ []) - 2 ≡ length before
      count = omega (arith, length-append before (text_bu ∷ name ∷ []))
