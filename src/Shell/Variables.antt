-- ===== src/Shell/Variables.antt =====
-- The tokens that shell/parsing.c takes for environment variables, and how shell/exec.c takes them
-- apart.
use sistemas_operativos.Prelude.{
  ℕ, zero, suc, ◌≡◌, ◌≢◌, refl, ap, sym, inl, inr, true, false, none, some, List, [], ◌∷◌, ◌++◌,
  arith, ◌==◌, Bool-cases, Option-cases, none≢some, some_injective, take, drop,
}
use sistemas_operativos.Shell.Text.{block_contains}
use sistemas_operativos.Shell.Parsing.{is_environ_var}
use sistemas_operativos.Shell.Environ.{get_environ_key, get_environ_value}

-- The index that `block_contains` returns cuts the string at the byte.
pub block_contains-cut :
    (s : List ℕ) (c n : ℕ) → block_contains s c ≡ some n → take n s ++ c ∷ drop (suc n) s ≡ s
unfolding block_contains
block_contains-cut [] c n h = absurd (none≢some n h)
block_contains-cut (x ∷ xs) c n h = elim (Bool-cases (x == c)) [
  | inl e ↦ let here = some_injective 0 n (rw e at h) in rw (sym here) (ground arith)
  | inr e ↦ elim (Option-cases (block_contains xs c)) [
    | inl f ↦ absurd (none≢some n (rw (e, f) at h))
    | inr (m, f) ↦
        let here = some_injective (suc m) n (rw (e, f) at h) in
        rw (sym here) (ap (λ s. x ∷ s) (block_contains-cut xs c m f))
  ]
]

-- A token that is taken for KEY=VALUE has a key that is not empty, and the key, the `=` and the value
-- are the token.
pub is_environ_var-parts :
    (arg : List ℕ)
    → is_environ_var arg ≡ true
    → (key : List ℕ) × (get_environ_key arg ≡ some key)
      × (key ≢ [])
      × (key ++ b'=' ∷ get_environ_value arg (block_contains arg b'=') ≡ arg)
unfolding is_environ_var get_environ_key get_environ_value
is_environ_var-parts [] h = absurd (clash (rw (is_environ_var, nowhere) at h))
  where
    nowhere : block_contains [] b'=' ≡ none
    nowhere = unfold block_contains in refl

    clash : false ≡ true → ⊥
    clash e = cc
is_environ_var-parts (x ∷ xs) h = elim (Option-cases (block_contains (x ∷ xs) b'=')) [
  | inl e ↦ absurd (clash (rw (is_environ_var, e) at h))
  | inr (zero, e) ↦ absurd (clash (rw (is_environ_var, e) at h))
  | inr (suc n, e) ↦ (
    take (suc n) (x ∷ xs),
    rw (get_environ_key, e) refl,
    λ k. no_nil k,
    rw (e, get_environ_value) (block_contains-cut (x ∷ xs) b'=' (suc n) e),
  )
]
  where
    clash : false ≡ true → ⊥
    clash e = cc

    no_nil : {ys : List ℕ} → x ∷ ys ≡ [] → ⊥
    no_nil e = cc
