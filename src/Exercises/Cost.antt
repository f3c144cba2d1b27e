-- ===== src/Exercises/Cost.antt =====
-- How many steps the processes of fork/primes.c can still make.
use sistemas_operativos.Prelude.{
  ℕ, zero, suc, ◌+◌, ◌≤◌, ◌<◌, ◌≡◌, refl, ap, Bool, List, [], ◌∷◌, ◌++◌, arith, Bool-cases, inl,
  inr, length,
}
use sistemas_operativos.Exercises.Primes.{
  Net, waiting, filtering, draining, returned, write_to, close_pipe, passes, forward, NetStep,
  first, no_number, next, last, reap, below_filter, below_drain,
}
use sistemas_operativos.Exercises.Sieve.{select}
use sistemas_operativos.Exercises.Pipeline.{IsFed, Sound, true≢false, one_behind}

-- For a process that waits for the first of so many numbers.
abbrev pub waits : ℕ → ℕ
waits zero = 1
waits (suc x) = 3 + x + waits x

-- For a chain whose pipe is yet to receive `inp`.
abbrev pub cost : Net → List ℕ → ℕ
cost (waiting q c) inp = waits (length (q ++ inp))
cost (filtering p q c rest) inp = 2 + length (q ++ inp) + cost rest (select (passes p) (q ++ inp))
cost (draining rest) inp = 1 + cost rest []
cost returned inp = 0

length-select : (f : ℕ → Bool) (l : List ℕ) → length (select f l) ≤ length l
length-select f [] = omega arith
length-select f (x ∷ l) = elim (Bool-cases (f x)) [
  | inl e ↦ rw e (omega (arith, length-select f l))
  | inr e ↦ rw e (omega (arith, length-select f l))
]

waits_mono : (a b : ℕ) → a ≤ b → waits a ≤ waits b
waits_mono zero zero h = omega arith
waits_mono zero (suc b) h = omega arith
waits_mono (suc a) zero h = absurd (omega (arith, h))
waits_mono (suc a) (suc b) h = omega (arith, waits_mono a b (omega (arith, h)), h)

pub write_to-cost :
    (v : ℕ) (net : Net) (inp : List ℕ) → IsFed net → cost (write_to v net) inp ≡ cost net (v ∷ inp)
unfolding write_to
write_to-cost v (waiting q c) inp fed = ap (λ l. waits (length l)) (one_behind q v inp)
write_to-cost v (filtering p q c rest) inp fed =
    ap (λ l. 2 + length l + cost rest (select (passes p) l)) (one_behind q v inp)
write_to-cost v (draining rest) inp fed = absurd (true≢false fed)
write_to-cost v returned inp fed = absurd (true≢false fed)

pub close_pipe-cost : (net : Net) → cost (close_pipe net) [] ≡ cost net []
unfolding close_pipe
close_pipe-cost (waiting q c) = refl
close_pipe-cost (filtering p q c rest) = refl
close_pipe-cost (draining rest) = refl
close_pipe-cost returned = refl

forward-cost :
    (p v : ℕ) (rest : Net) (l : List ℕ)
    → IsFed rest
    → cost (forward p v rest) (select (passes p) l) ≡ cost rest (select (passes p) (v ∷ l))
unfolding forward
forward-cost p v rest l fed = elim (Bool-cases (passes p v)) [
  | inl e ↦ rw e (write_to-cost v rest (select (passes p) l) fed)
  | inr e ↦ rw e refl
]

pub NetStep-cost :
    {net net' : Net} {out : List ℕ} (inp : List ℕ)
    → NetStep net out net'
    → Sound net inp
    → cost net' inp < cost net inp
NetStep-cost inp (first v q c) ok = omega (
  arith,
  waits_mono (length (select (passes v) (q ++ inp))) (length (q ++ inp))
      (length-select (passes v) (q ++ inp)),
)
NetStep-cost inp no_number ok = rw (ok refl) (omega arith)
NetStep-cost inp (next p v q c rest) (a, (fed, ok)) =
    omega (arith, forward-cost p v rest (q ++ inp) fed)
NetStep-cost inp (last p rest) (a, (fed, ok)) = rw (a refl) (omega (arith, close_pipe-cost rest))
NetStep-cost inp reap ok = omega arith
NetStep-cost inp (below_filter p q c rest rest' out st) (a, (fed, ok)) =
    omega (arith, NetStep-cost (select (passes p) (q ++ inp)) st ok)
NetStep-cost inp (below_drain rest rest' out st) (a, (b, ok)) = omega (arith, NetStep-cost [] st ok)
