-- ===== src/Exercises/Sieve.antt =====
-- What a chain of filters that starts at 2 lets through are the primes.
use native.Mathlib.Nat.{dvd_of_mod-eq-zero, mod-mod_of_dvd}
use native.Mathlib.Numerals.{add-one}
use sistemas_operativos.Prelude.{
  ℕ, zero, suc, ◌+◌, ◌-◌, ◌%◌, ◌≤◌, ◌≡◌, refl, sym, ap, ◌∙◌, Bool, true, false, not, ◌&&◌, ◌||◌,
  List, [], ◌∷◌, ◌==◌, ==_iff, leb, if◌then◌else◌, arith, Bool-cases, ◌⊎◌, inl, inr,
}

-- Whether a number from 2 on and below `k` divides `x`.
abbrev pub divided_below : ℕ → ℕ → Bool
divided_below zero x = false
divided_below (suc k) x = leb 2 k && x % k == 0 || divided_below k x

abbrev pub is_prime : ℕ → Bool
is_prime p = not (divided_below p p)

abbrev pub select : (ℕ → Bool) → List ℕ → List ℕ
select f [] = []
select f (x ∷ l) = if f x then x ∷ select f l else select f l

-- The `left` numbers from `i` on.
abbrev pub numbers : ℕ → ℕ → List ℕ
numbers i zero = []
numbers i (suc left) = i ∷ numbers (i + 1) left

-- The primes up to `n`, in order.
abbrev pub primes_to : ℕ → List ℕ
primes_to n = select is_prime (numbers 2 (suc n - 2))

abbrev pub divided_by : List ℕ → ℕ → Bool
divided_by [] x = false
divided_by (p ∷ ps) x = x % p == 0 || divided_by ps x

-- What is printed of the numbers of a list when those of `ps` have been printed.
abbrev pub survivors : List ℕ → List ℕ → List ℕ
survivors ps [] = []
survivors ps (v ∷ l) = if divided_by ps v then survivors ps l else v ∷ survivors (v ∷ ps) l

zero-mod : (j : ℕ) → 0 % j ≡ 0
zero-mod zero = refl
zero-mod (suc j) = omega arith

multiple : (j k x : ℕ) → x % k ≡ 0 → k % j ≡ 0 → x % j ≡ 0
multiple j k x a b =
    sym (mod-mod_of_dvd j x (dvd_of_mod-eq-zero j b)) ∙ ap (λ r. r % j) a ∙ zero-mod j

either : (a b : Bool) → (a || b) ≡ true → (a ≡ true) ⊎ (b ≡ true)
either true b e = inl refl
either false b e = inr e

or_true : (a : Bool) → (a || true) ≡ true
or_true true = refl
or_true false = refl

-- A divisor of a divisor divides.
divided_multiple : (j k x : ℕ) → x % k ≡ 0 → divided_below j k ≡ true → divided_below j x ≡ true
divided_multiple zero k x a d = d
divided_multiple (suc j) k x a d = elim (either (leb 2 j && k % j == 0) (divided_below j k) d) [
  | inl e ↦
      let here : (leb 2 j && x % j == 0) ≡ true = ground (arith, multiple j k x a) in
      ap (λ b. b || divided_below j x) here
  | inr e ↦
      ap (λ b. (leb 2 j && x % j == 0) || b) (divided_multiple j k x a e)
      ∙ or_true (leb 2 j && x % j == 0)
]

one_more : (k x : ℕ) → 2 ≤ k → divided_below (k + 1) x ≡ (x % k == 0 || divided_below k x)
one_more k x two =
    let above : leb 2 k ≡ true = ground arith in
    ap (λ j. divided_below j x) (add-one k) ∙ ap (λ b. (b && x % k == 0) || divided_below k x) above

one_more_composite :
    (k x : ℕ) → divided_below k k ≡ true → (x % k == 0 || divided_below k x) ≡ divided_below k x
one_more_composite k x composite = elim (Bool-cases (x % k == 0)) [
  | inl e ↦
      let also = divided_multiple k k x ((==_iff (x % k) 0).0 e) composite in
      ap (λ b. b || divided_below k x) e ∙ sym also
  | inr e ↦ ap (λ b. b || divided_below k x) e
]

-- With the primes below `k` printed, the numbers from `k` on that survive are the primes.
survivors-numbers :
    (left k : ℕ) (ps : List ℕ)
    → 2 ≤ k
    → ((x : ℕ) → divided_by ps x ≡ divided_below k x)
    → survivors ps (numbers k left) ≡ select is_prime (numbers k left)
survivors-numbers zero k ps two h = refl
survivors-numbers (suc left) k ps two h = elim (Bool-cases (divided_below k k)) [
  | inl composite ↦
      rw (h k, composite)
        (survivors-numbers left (k + 1) ps (omega (arith, two))
          (λ x. h x ∙ sym (one_more_composite k x composite) ∙ sym (one_more k x two)))
  | inr prime ↦
      rw (h k, prime)
        (ap (λ l. k ∷ l)
          (survivors-numbers left (k + 1) (k ∷ ps) (omega (arith, two))
            (λ x. ap (λ b. x % k == 0 || b) (h x) ∙ sym (one_more k x two))))
]

-- The first process is handed the numbers from 2 on.
pub survivors-primes : (n : ℕ) → survivors [] (numbers 2 (suc n - 2)) ≡ primes_to n
survivors-primes n = survivors-numbers (suc n - 2) 2 [] (omega arith) (λ x. refl)
