-- ===== src/Sched/Strings/Compare.antt =====
-- What `strcmp` and `strlcpy` of sched/lib/string.c do with strings.
use sistemas_operativos.Prelude.{
  ℕ, zero, suc, ◌≡◌, ◌≢◌, ◌↔◌, refl, sym, some, List, [], ◌∷◌, ◌++◌, arith, length, take,
  ℕ_discrete,
}
use sistemas_operativos.Sched.Strings.{strcmp, copy_string, strlcpy}

-- Bytes without a NUL.
abbrev pub Text : List ℕ → Type 0
Text [] = Unit
Text (x ∷ xs) = (x ≢ 0) × Text xs

-- `strcmp` of two strings returns a difference that is 0 exactly when the strings are equal.
pub strcmp_iff :
    (s t a b : List ℕ)
    → Text s
    → Text t
    → (x : ℕ) × (y : ℕ) × (strcmp (s ++ 0 ∷ a) (t ++ 0 ∷ b) ≡ some (x, y)) × ((x ≡ y) ↔ (s ≡ t))
unfolding strcmp
strcmp_iff [] [] a b p q = (0, 0, refl, (λ e. refl, λ e. refl))
strcmp_iff [] (y ∷ ys) a b p (ne, q) =
    (0, y, ground arith, (λ e. absurd (ne (sym e)), λ e. absurd (differ e)))
  where
    differ : [] ≡ y ∷ ys → ⊥
    differ e = cc
strcmp_iff (x ∷ xs) [] a b (ne, p) q =
    (x, 0, ground arith, (λ e. absurd (ne e), λ e. absurd (differ e)))
  where
    differ : x ∷ xs ≡ [] → ⊥
    differ e = cc
strcmp_iff (x ∷ xs) (y ∷ ys) a b (ne, p) (ne', q) = elim (ℕ_discrete x y) [
  | yes e ↦
      let (u, v, run, same) = strcmp_iff xs ys a b p q in
      (u, v, ground (arith, run), (λ h. cong_cons e (same.0 h), λ h. same.1 (tails h)))
  | no d ↦ (x, y, ground arith, (λ h. absurd (d h), λ h. absurd (d (heads h))))
]
  where
    cong_cons : x ≡ y → xs ≡ ys → x ∷ xs ≡ y ∷ ys
    cong_cons e f = cc

    tails : x ∷ xs ≡ y ∷ ys → xs ≡ ys
    tails e = cc

    heads : x ∷ xs ≡ y ∷ ys → x ≡ y
    heads e = cc

copy_string-take : (s a : List ℕ) (n : ℕ) → Text s → copy_string (s ++ 0 ∷ a) n ≡ some (take n s)
unfolding copy_string
copy_string-take [] a zero p = refl
copy_string-take [] a (suc n) p = ground arith
copy_string-take (x ∷ xs) a zero p = refl
copy_string-take (x ∷ xs) a (suc n) (ne, p) = ground (arith, copy_string-take xs a n p)

-- `strlcpy` of a string into a buffer of `suc n` bytes writes the first `n` bytes of the string at
-- most, and a NUL behind them, and returns how many bytes it wrote before the NUL.
pub strlcpy_lem :
    (s a : List ℕ) (n : ℕ)
    → Text s
    → strlcpy (s ++ 0 ∷ a) (suc n) ≡ some (take n s ++ 0 ∷ [], length (take n s))
unfolding strlcpy
strlcpy_lem s a n p = rw (copy_string-take s a n p) refl
