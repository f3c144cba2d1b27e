-- ===== src/Prelude/Bits.antt =====
-- `|` of a multiple of 4096 with a number below 4096 is their sum: the low twelve bits are free.
use Prim.Native.Nat.{
  ℕ, zero, suc, ◌+◌, ◌-◌, ◌*◌, ◌/◌, ◌%◌, ◌^◌, ◌≤◌, ◌<◌, max, min, digits, bit_or, bit_or-bitwise,
  bit_and, bit_and-bitwise,
}
use mathlib.Core.Path.{◌≡◌, refl, sym, ap, ◌∙◌}
use native.Mathlib.Nat.{suc-add, pow-suc}
use native.Mathlib.Omega.{arith}

-- `|` with `n` rounds at most, one round for each binary digit of `a`.
abbrev rounds : ℕ → ℕ → ℕ → ℕ
rounds n a b = digits (λ rest. rest) max n a b

rounds-zero : (n b : ℕ) → rounds n 0 b ≡ b
rounds-zero zero b = refl
rounds-zero (suc n) b = refl

-- More rounds than digits change nothing.
rounds_stable : (n k a b : ℕ) → a ≤ n → rounds (n + k) a b ≡ rounds n a b
rounds_stable n k zero b h = rounds-zero (n + k) b ∙ sym (rounds-zero n b)
rounds_stable zero k (suc a) b h = elim h [ ]
rounds_stable (suc n) k (suc a) b h =
    rw suc-add (rw (rounds_stable n k (suc a / 2) (b / 2) (omega arith)))

halved : (a b : ℕ) → rounds a (suc a / 2) (b / 2) ≡ bit_or (suc a / 2) (b / 2)
halved a b =
    ap (λ n. rounds n (suc a / 2) (b / 2)) split
    ∙ rounds_stable (suc a / 2) (a - suc a / 2) (suc a / 2) (b / 2) (omega arith)
    ∙ sym (bit_or-bitwise (suc a / 2) (b / 2))
  where
    split : a ≡ suc a / 2 + (a - suc a / 2)
    split = omega arith

-- The lowest digit of `|` apart from the others.
pub bit_or_digit : (a b : ℕ) → bit_or a b ≡ max (a % 2) (b % 2) + 2 * bit_or (a / 2) (b / 2)
bit_or_digit zero b = omega (arith, bit_or-bitwise 0 b, bit_or-bitwise 0 (b / 2))
bit_or_digit (suc a) b = omega (arith, bit_or-bitwise (suc a) b, halved a b)

bit_or-zero_below : (n a : ℕ) → a ≤ n → bit_or a 0 ≡ a
bit_or-zero_below n zero h = refl
bit_or-zero_below zero (suc a) h = elim h [ ]
bit_or-zero_below (suc n) (suc a) h =
    omega (arith, bit_or_digit (suc a) 0, bit_or-zero_below n (suc a / 2) (omega arith))

-- One more digit below two numbers that `|` adds up.
bit_or-add_step :
    (a b : ℕ) → bit_or (a / 2) (b / 2) ≡ a / 2 + b / 2 → a % 2 ≡ 0 → bit_or a b ≡ a + b
bit_or-add_step a b h e = omega (arith, bit_or_digit a b)

-- With `b` below 2 ^ k the two share no digit.
pub bit_or-add_digits : (k p b : ℕ) → b < 2 ^ k → bit_or (p * 2 ^ k) b ≡ p * 2 ^ k + b
bit_or-add_digits zero p b h =
    let none : b ≡ 0 = omega arith in
    rw none (omega (arith, bit_or-zero_below (p * 1) (p * 1) (omega arith)))
bit_or-add_digits (suc k) p b h =
    let rest = bit_or-add_digits k p (b / 2) (omega (arith, pow-suc 2 k)) in
    rw doubled (bit_or-add_step (2 * (p * 2 ^ k)) b (rw half rest) (omega arith))
  where
    doubled : p * 2 ^ suc k ≡ 2 * (p * 2 ^ k)
    doubled = omega (arith, ap (λ (t : ℕ). p * t) (pow-suc 2 k))

    half : 2 * (p * 2 ^ k) / 2 ≡ p * 2 ^ k
    half = omega arith

pub bit_or-page : (p b : ℕ) → b < 4096 → bit_or (p * 4096) b ≡ p * 4096 + b
bit_or-page p b h = bit_or-add_digits 12 p b h

-- `&` with `n` rounds at most.
abbrev and_rounds : ℕ → ℕ → ℕ → ℕ
and_rounds n a b = digits (λ rest. zero) min n a b

and_rounds-zero : (n a : ℕ) → and_rounds n a 0 ≡ 0
and_rounds-zero zero a = refl
and_rounds-zero (suc n) zero = refl
and_rounds-zero (suc n) (suc a) = omega (arith, and_rounds-zero n (suc a / 2))

pub bit_and-zero : (a : ℕ) → bit_and a 0 ≡ 0
bit_and-zero a = bit_and-bitwise a 0 ∙ and_rounds-zero a a

pub bit_and-two_even : (a : ℕ) → bit_and a 2 % 2 ≡ 0
bit_and-two_even zero = refl
bit_and-two_even (suc a) = omega (arith, bit_and-bitwise (suc a) 2)

pub bit_and-even : (a : ℕ) → a % 2 ≡ 0 → bit_and a 1 ≡ 0
bit_and-even zero e = refl
bit_and-even (suc a) e = omega (arith, e, bit_and-bitwise (suc a) 1, and_rounds-zero a (suc a / 2))
