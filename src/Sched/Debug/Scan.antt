-- ===== src/Sched/Debug/Scan.antt =====
-- The inner loop of `stab_binsearch`, in sched/kern/kdebug.c.
use sistemas_operativos.Prelude.{
  ℕ, zero, suc, ◌+◌, ◌-◌, ◌≡◌, ◌≢◌, ◌≤◌, ◌<◌, inl, inr, true, false, none, some, ◌==◌, arith,
  Bool-cases, none≢some, some_injective, ℕ_discrete, sym, ap, ◌∙◌,
}
use sistemas_operativos.Sched.Debug.Search.{Stab, find_down}

-- No entry of a type stands strictly between two indices.
abbrev pub NoneBetween : (ℕ → Stab) → ℕ → ℕ → ℕ → Type 0
NoneBetween stabs type a b = (j : ℕ) → a < j → j < b → (stabs j).n_type ≢ type

module _ (stabs : ℕ → Stab) (type : ℕ) where
  other_type : (m : ℕ) → ((stabs m).n_type == type) ≡ false → (stabs m).n_type ≢ type
  other_type m e t = ground arith

  this_type : (m : ℕ) → ((stabs m).n_type == type) ≡ true → (stabs m).n_type ≡ type
  this_type m e = ground arith

  -- Among the `n` entries up to `m` there is none of the type; or the last of them is found.
  pub find_down-none :
      (n m j : ℕ) → find_down stabs type n m ≡ none → m < j + n → j ≤ m → (stabs j).n_type ≢ type
  unfolding find_down
  find_down-none zero m j e lt le = absurd (omega (arith, lt, le))
  find_down-none (suc n) m j e lt le = elim (Bool-cases ((stabs m).n_type == type)) [
    | inl yes_m ↦ absurd (none≢some m (sym (rw (find_down, yes_m) at (e))))
    | inr no_m ↦ elim (ℕ_discrete j m) [
      | yes same ↦ λ t. absurd (other_type m no_m (ap (λ (i : ℕ). (stabs i).n_type) (sym same) ∙ t))
      | no different ↦
          find_down-none n (m - 1) j (rw (find_down, no_m) at (e))
            (omega (arith, lt, le, different)) (omega (arith, le, different))
    ]
  ]

  pub find_down-some :
      (n m k : ℕ)
      → find_down stabs type n m ≡ some k
      → n ≤ m + 1
      → (k ≤ m) × ((m < k + n) × (((stabs k).n_type ≡ type) × NoneBetween stabs type k (m + 1)))
  unfolding find_down
  find_down-some zero m k e le = absurd (none≢some k e)
  find_down-some (suc n) m k e le = elim (Bool-cases ((stabs m).n_type == type)) [
    | inl yes_m ↦
        let same : m ≡ k = some_injective m k (rw (find_down, yes_m) at (e)) in
        rw (← same) (
          omega arith,
          (omega arith, (this_type m yes_m, λ j lt lt'. absurd (omega (arith, lt, lt')))),
        )
    | inr no_m ↦
        let (a, (b, (c, d))) =
          find_down-some n (m - 1) k (rw (find_down, no_m) at (e)) (omega (arith, le)) in
        (
          omega (arith, a),
          (
            omega (arith, a, b),
            (
              c,
              λ j lt lt'. elim (ℕ_discrete j m) [
                | yes same ↦ λ t.
                    absurd (other_type m no_m (ap (λ (i : ℕ). (stabs i).n_type) (sym same) ∙ t))
                | no different ↦ d j lt (omega (arith, lt, lt', different))
              ],
            ),
          ),
        )
  ]
