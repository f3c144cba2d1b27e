-- ===== src/Sched/Random.antt =====
-- The generator of sched/kern/sched.c: `lcg_parkmiller` and `next_random`. An `unsigned` is a number
-- below 2 ^ 32, and each of its operations keeps its wrap-around.
use sistemas_operativos.Prelude.{
  ℕ, ◌+◌, ◌-◌, ◌*◌, ◌/◌, ◌%◌, ◌^◌, ◌≤◌, ◌<◌, ◌≡◌, ◌∙◌, sym, arith, ltb, if◌then◌else◌,
}

-- `N` and `G` of the function.
abbrev pub modulus : ℕ
modulus = 0x7fff_ffff

abbrev pub multiplier : ℕ
multiplier = 48271

abbrev mul_u32 : ℕ → ℕ → ℕ
mul_u32 a b = a * b % 2 ^ 32

abbrev add_u32 : ℕ → ℕ → ℕ
add_u32 a b = (a + b) % 2 ^ 32

abbrev sub_u32 : ℕ → ℕ → ℕ
sub_u32 a b = (a + 2 ^ 32 - b) % 2 ^ 32

-- The new value of `*state`, which is also the result.
unfoldable pub lcg_parkmiller : ℕ → ℕ
lcg_parkmiller state =
    let div = state / (modulus / multiplier) in
    let rem = state % (modulus / multiplier) in
    let a = mul_u32 rem multiplier in
    let b = mul_u32 div (modulus % multiplier) in
    if ltb b a then sub_u32 a b else add_u32 a (sub_u32 modulus b)

-- For a state between 1 and N - 1 the generator computes state * G % N, although it never forms a
-- product beyond 32 bits, and its result lies between 1 and N - 1 again.
pub lcg_parkmiller_lem :
    (s : ℕ)
    → 1 ≤ s
    → s < modulus
    → (lcg_parkmiller s ≡ s * multiplier % modulus)
      × (1 ≤ lcg_parkmiller s)
      × (lcg_parkmiller s < modulus)
unfolding lcg_parkmiller
lcg_parkmiller_lem s lo hi = ground arith

product_injective :
    (s t : ℕ)
    → s < modulus
    → t < modulus
    → s * multiplier % modulus ≡ t * multiplier % modulus
    → s ≡ t
product_injective s t hs ht e = omega arith

-- On the states from 1 to N - 1 two different states have different successors.
pub lcg_parkmiller_injective :
    (s t : ℕ)
    → 1 ≤ s
    → s < modulus
    → 1 ≤ t
    → t < modulus
    → lcg_parkmiller s ≡ lcg_parkmiller t
    → s ≡ t
lcg_parkmiller_injective s t ls hs lt ht e =
    product_injective s t hs ht
      (sym (lcg_parkmiller_lem s ls hs).0 ∙ e ∙ (lcg_parkmiller_lem t lt ht).0)
