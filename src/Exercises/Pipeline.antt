-- ===== src/Exercises/Pipeline.antt =====
-- The chain of processes of fork/primes.c prints the primes, in order, and ends.
use sistemas_operativos.Prelude.{
  ℕ, ◌%◌, ◌≡◌, ◌≢◌, refl, sym, ap, ap₂, ◌∙◌, Bool, true, false, ◌||◌, List, [], ◌∷◌, ◌++◌, ◌==◌,
  if◌then◌else◌, Bool-cases, inl, inr, append_assoc,
}
use sistemas_operativos.Exercises.Primes.{
  Net, waiting, filtering, draining, returned, write_to, close_pipe, passes, forward, NetStep,
  first, no_number, next, last, reap, below_filter, below_drain,
}
use sistemas_operativos.Exercises.Sieve.{select, survivors, divided_by}

-- What a chain will still print, when its pipe is yet to receive `inp`.
abbrev pub future : Net → List ℕ → List ℕ
future (waiting q c) inp = survivors [] (q ++ inp)
future (filtering p q c rest) inp = future rest (select (passes p) (q ++ inp))
future (draining rest) inp = future rest []
future returned inp = []

-- Whether the pipe of the first process is closed.
abbrev pub is_closed : Net → Bool
is_closed (waiting q c) = c
is_closed (filtering p q c rest) = c
is_closed (draining rest) = true
is_closed returned = true

abbrev pub IsFed : Net → Type 0
IsFed net = is_closed net ≡ false

pub true≢false : true ≢ false
true≢false e = cc

-- A closed pipe receives nothing more.
abbrev pub Sound : Net → List ℕ → Type 0
Sound (waiting q c) inp = c ≡ true → inp ≡ []
Sound (filtering p q c rest) inp =
    (c ≡ true → inp ≡ []) × (IsFed rest × Sound rest (select (passes p) (q ++ inp)))
Sound (draining rest) inp = (inp ≡ []) × ((is_closed rest ≡ true) × Sound rest [])
Sound returned inp = inp ≡ []

pub one_behind : (q : List ℕ) (v : ℕ) (inp : List ℕ) → (q ++ v ∷ []) ++ inp ≡ q ++ v ∷ inp
one_behind q v inp = append_assoc q (v ∷ []) inp

pub write_to-future :
    (v : ℕ) (net : Net) (inp : List ℕ)
    → IsFed net
    → future (write_to v net) inp ≡ future net (v ∷ inp)
unfolding write_to
write_to-future v (waiting q c) inp fed = ap (survivors []) (one_behind q v inp)
write_to-future v (filtering p q c rest) inp fed =
    ap (λ l. future rest (select (passes p) l)) (one_behind q v inp)
write_to-future v (draining rest) inp fed = absurd (true≢false fed)
write_to-future v returned inp fed = absurd (true≢false fed)

pub write_to-Sound :
    (v : ℕ) (net : Net) (inp : List ℕ)
    → IsFed net
    → Sound net (v ∷ inp)
    → Sound (write_to v net) inp × IsFed (write_to v net)
unfolding write_to
write_to-Sound v (waiting q c) inp fed ok = (λ e. absurd (true≢false (sym e ∙ fed)), fed)
write_to-Sound v (filtering p q c rest) inp fed (a, (b, ok)) =
    ((λ e. absurd (true≢false (sym e ∙ fed)), (b, rw (one_behind q v inp) ok)), fed)
write_to-Sound v (draining rest) inp fed ok = absurd (true≢false fed)
write_to-Sound v returned inp fed ok = absurd (true≢false fed)

pub close_pipe-future : (net : Net) → IsFed net → future (close_pipe net) [] ≡ future net []
unfolding close_pipe
close_pipe-future (waiting q c) fed = refl
close_pipe-future (filtering p q c rest) fed = refl
close_pipe-future (draining rest) fed = refl
close_pipe-future returned fed = refl

pub close_pipe-Sound : (net : Net) → IsFed net → Sound net [] → Sound (close_pipe net) []
unfolding close_pipe
close_pipe-Sound (waiting q c) fed ok = λ _. refl
close_pipe-Sound (filtering p q c rest) fed (a, ok) = (λ _. refl, ok)
close_pipe-Sound (draining rest) fed ok = ok
close_pipe-Sound returned fed ok = ok

pub close_pipe-is_closed : (net : Net) → is_closed (close_pipe net) ≡ true
unfolding close_pipe
close_pipe-is_closed (waiting q c) = refl
close_pipe-is_closed (filtering p q c rest) = refl
close_pipe-is_closed (draining rest) = refl
close_pipe-is_closed returned = refl

pub NetStep-is_closed :
    {net net' : Net} {out : List ℕ} → NetStep net out net' → is_closed net' ≡ is_closed net
NetStep-is_closed (first v q c) = refl
NetStep-is_closed no_number = refl
NetStep-is_closed (next p v q c rest) = refl
NetStep-is_closed (last p rest) = refl
NetStep-is_closed reap = refl
NetStep-is_closed (below_filter p q c rest rest' out st) = refl
NetStep-is_closed (below_drain rest rest' out st) = refl

or_swap : (a b c : Bool) → (a || (b || c)) ≡ (b || (a || c))
or_swap true true c = refl
or_swap true false c = refl
or_swap false b c = refl

-- A filter in front of the chain does what its prime does among the printed ones.
survivors-select :
    (p : ℕ) (l qs ps : List ℕ)
    → ((x : ℕ) → divided_by qs x ≡ (x % p == 0 || divided_by ps x))
    → survivors ps (select (passes p) l) ≡ survivors qs l
survivors-select p [] qs ps h = refl
survivors-select p (v ∷ l) qs ps h = elim (Bool-cases (v % p == 0)) [
  | inl e ↦
      let skips : divided_by qs v ≡ true = h v ∙ ap (λ b. b || divided_by ps v) e in
      rw (e, skips) (survivors-select p l qs ps h)
  | inr e ↦
      let same : divided_by qs v ≡ divided_by ps v = h v ∙ ap (λ b. b || divided_by ps v) e in
      rw (e, same)
        (ap₂ (λ (a b : List ℕ). if divided_by ps v then a else v ∷ b) (survivors-select p l qs ps h)
          (survivors-select p l (v ∷ qs) (v ∷ ps) (λ x.
            ap (λ b. x % v == 0 || b) (h x) ∙ or_swap (x % v == 0) (x % p == 0) (divided_by ps x))))
]

forward-future :
    (p v : ℕ) (rest : Net) (l : List ℕ)
    → IsFed rest
    → future (forward p v rest) (select (passes p) l) ≡ future rest (select (passes p) (v ∷ l))
unfolding forward
forward-future p v rest l fed = elim (Bool-cases (passes p v)) [
  | inl e ↦ rw e (write_to-future v rest (select (passes p) l) fed)
  | inr e ↦ rw e refl
]

forward-Sound :
    (p v : ℕ) (rest : Net) (l : List ℕ)
    → IsFed rest
    → Sound rest (select (passes p) (v ∷ l))
    → Sound (forward p v rest) (select (passes p) l) × IsFed (forward p v rest)
unfolding forward
forward-Sound p v rest l fed ok = elim (Bool-cases (passes p v)) [
  | inl e ↦ rw e (write_to-Sound v rest (select (passes p) l) fed (rw e at (ok)))
  | inr e ↦ rw e (rw e at (ok), fed)
]

-- No step changes what is printed in the end.
pub NetStep-future :
    {net net' : Net} {out : List ℕ} (inp : List ℕ)
    → NetStep net out net'
    → Sound net inp
    → out ++ future net' inp ≡ future net inp
NetStep-future inp (first v q c) ok =
    ap (λ l. v ∷ l) (survivors-select v (q ++ inp) (v ∷ []) [] (λ x. refl))
NetStep-future inp no_number ok = ap (survivors []) (sym (ok refl))
NetStep-future inp (next p v q c rest) (a, (fed, ok)) = forward-future p v rest (q ++ inp) fed
NetStep-future inp (last p rest) (a, (fed, ok)) =
    close_pipe-future rest fed ∙ ap (λ l. future rest (select (passes p) l)) (sym (a refl))
NetStep-future inp reap ok = refl
NetStep-future inp (below_filter p q c rest rest' out st) (a, (fed, ok)) =
    NetStep-future (select (passes p) (q ++ inp)) st ok
NetStep-future inp (below_drain rest rest' out st) (a, (b, ok)) = NetStep-future [] st ok

pub NetStep-Sound :
    {net net' : Net} {out : List ℕ} (inp : List ℕ)
    → NetStep net out net'
    → Sound net inp
    → Sound net' inp
NetStep-Sound inp (first v q c) ok = (λ e. ok e, (refl, λ e. absurd (true≢false (sym e))))
NetStep-Sound inp no_number ok = ok refl
NetStep-Sound inp (next p v q c rest) (a, (fed, ok)) =
    let (sound, fed') = forward-Sound p v rest (q ++ inp) fed ok in (a, (fed', sound))
NetStep-Sound inp (last p rest) (a, (fed, ok)) =
    (a refl, (close_pipe-is_closed rest, close_pipe-Sound rest fed (rw (a refl) at (ok))))
NetStep-Sound inp reap ok = ok.0
NetStep-Sound inp (below_filter p q c rest rest' out st) (a, (fed, ok)) =
    (a, (NetStep-is_closed st ∙ fed, NetStep-Sound (select (passes p) (q ++ inp)) st ok))
NetStep-Sound inp (below_drain rest rest' out st) (a, (b, ok)) =
    (a, (NetStep-is_closed st ∙ b, NetStep-Sound [] st ok))
