-- ===== src/Shell/Redirect.antt =====
-- Where the standard files of a redirected command lead.
use sistemas_operativos.Prelude.{ℕ, ◌≤◌, ◌≡◌, ◌≢◌, false, some, List, [], ◌∷◌, ◌⊎◌}
use sistemas_operativos.Shell.Command.{ExecCmd}
use sistemas_operativos.Shell.Execute.{Flags, read_only, truncated, Target, opened, Table, Os}

-- `open` hands out no standard descriptor: all three are in use.
abbrev pub OpensAbove : {E : Type 0} → Os E → Type 0
OpensAbove os =
    (t : Table) (file : List ℕ) (flags : Flags) (fd : ℕ)
    → os.open_file t file flags ≡ some fd
    → 3 ≤ fd

-- The target of a standard descriptor behind a redirection.
abbrev pub aimed : List ℕ → Flags → Target → Target
aimed [] flags old = old
aimed (x ∷ xs) flags old = opened (x ∷ xs) flags

module _ {E : Type 0} (os : Os E) (above : OpensAbove os) where
  -- Standard error: for `&1` what standard output is, or what it was if `dup2` fails, and the file's for any
  -- other name.
  abbrev pub ErrAimed : List ℕ → Table → Table → Type 0
  ErrAimed file t t' =
      ((file ≢ b'&' ∷ b'1' ∷ []) × (t' 2 ≡ aimed file truncated (t 2)))
      ⊎ ((file ≡ b'&' ∷ b'1' ∷ []) × (t' 2 ≡ t' 1))
      ⊎ ((file ≡ b'&' ∷ b'1' ∷ []) × (os.dup2_works t' 1 2 ≡ false) × (t' 2 ≡ t 2))

  -- The three standard files of a command behind its redirections.
  pub record Redirected (c : ExecCmd) (t t' : Table) : Type 0 where
    pub input : t' 0 ≡ aimed c.in_file read_only (t 0)
    pub output : t' 1 ≡ aimed c.out_file truncated (t 1)
    pub error : ErrAimed c.err_file t t'
