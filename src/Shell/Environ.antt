-- ===== src/Shell/Environ.antt =====
-- `get_environ_key`, `get_environ_value` and `set_environ_vars` of shell/exec.c. `setenv` is the
-- operation of the C library on the environment.
use sistemas_operativos.Prelude.{ℕ, suc, Option, none, some, List, [], ◌∷◌, take, drop}
use sistemas_operativos.Shell.Text.{block_contains}

-- Without a `=` the loop runs off the array.
unfoldable pub get_environ_key : List ℕ → Option (List ℕ)
get_environ_key arg = elim (block_contains arg b'=') [ none ↦ none | some n ↦ some (take n arg) ]

-- With the index -1 the value is the whole string.
unfoldable pub get_environ_value : List ℕ → Option ℕ → List ℕ
get_environ_value arg none = arg
get_environ_value arg (some idx) = drop (suc idx) arg

unfoldable pub set_environ_vars {ℓ} :
    {E : Type ℓ} → (List ℕ → List ℕ → E → E) → List (List ℕ) → E → Option E
set_environ_vars setenv [] env = some env
set_environ_vars setenv (arg ∷ args) env = elim (get_environ_key arg) [
  | none ↦ none
  | some clave ↦
      set_environ_vars setenv args
        (setenv clave (get_environ_value arg (block_contains arg b'=')) env)
]
