-- ===== src/Exercises/Ends.antt =====
-- The runs of fork/primes.c.
use sistemas_operativos.Prelude.{
  ℕ, suc, ◌+◌, ◌-◌, ◌≤◌, ◌<◌, ◌≡◌, refl, sym, ap, subst, ◌∙◌, Bool, true, false, List, [], ◌∷◌,
  ◌++◌, if◌then◌else◌, arith, Bool-cases, ◌⊎◌, inl, inr, append_assoc, append-nil, leb, leb→le,
}
use sistemas_operativos.Exercises.Primes.{
  Net, waiting, filtering, draining, returned, NetStep, first, no_number, next, last, reap,
  below_drain, System, Step, write_number, close_numbers, work, start, IsOver, Run, here, more,
}
use sistemas_operativos.Exercises.Sieve.{numbers, primes_to, survivors-primes}
use sistemas_operativos.Exercises.Pipeline.{
  future, is_closed, IsFed, Sound, true≢false, write_to-future, write_to-Sound, close_pipe-future,
  close_pipe-Sound, close_pipe-is_closed, NetStep-is_closed, NetStep-future, NetStep-Sound,
}
use sistemas_operativos.Exercises.Cost.{cost, write_to-cost, close_pipe-cost, NetStep-cost}

-- What `main` is yet to write.
abbrev remaining : ℕ → ℕ → Bool → List ℕ
remaining n i writing = if writing then numbers i (suc n - i) else []

remaining-first : (n i : ℕ) → i ≤ n → remaining n i true ≡ i ∷ remaining n (i + 1) true
remaining-first n i le = ap (numbers i) one ∙ ap (λ k. i ∷ numbers (i + 1) k) two
  where
    one : suc n - i ≡ suc (n - i)
    one = omega (arith, le)

    two : n - i ≡ suc n - (i + 1)
    two = omega (arith, le)

remaining-none : (n i : ℕ) → n < i → remaining n i true ≡ []
remaining-none n i lt = ap (numbers i) none_left
  where
    none_left : suc n - i ≡ 0
    none_left = omega (arith, lt)

-- What holds between two steps.
record Valid (n : ℕ) (s : System) : Type 0 where
  fed : s.writing ≡ true → IsFed s.net
  shut : s.writing ≡ false → is_closed s.net ≡ true
  sound : Sound s.net (remaining n s.i s.writing)
  promise : s.printed ++ future s.net (remaining n s.i s.writing) ≡ primes_to n

start-Valid : (n : ℕ) → Valid n start
start-Valid n = record {
  fed = λ _. refl;
  shut = λ e. absurd (true≢false e);
  sound = λ e. absurd (true≢false (sym e));
  promise = survivors-primes n;
}

Step-Valid : {n : ℕ} {s s' : System} → Step n s s' → Valid n s → Valid n s'
Step-Valid {n} (write_number i net printed le) v =
    let sound = rw (remaining-first n i le) at (v.sound) in
    let (sound', fed') = write_to-Sound i net (remaining n (i + 1) true) (v.fed refl) sound in
    record {
      fed = λ _. fed';
      shut = λ e. absurd (true≢false e);
      sound = sound';
      promise =
          ap (λ l. printed ++ l)
            (write_to-future i net (remaining n (i + 1) true) (v.fed refl)
              ∙ ap (future net) (sym (remaining-first n i le)))
          ∙ v.promise;
    }
Step-Valid {n} (close_numbers i net printed lt) v =
    let sound = rw (remaining-none n i lt) at (v.sound) in
    record {
      fed = λ e. absurd (true≢false (sym e));
      shut = λ _. close_pipe-is_closed net;
      sound = close_pipe-Sound net (v.fed refl) sound;
      promise =
          ap (λ l. printed ++ l)
            (close_pipe-future net (v.fed refl) ∙ ap (future net) (sym (remaining-none n i lt)))
          ∙ v.promise;
    }
Step-Valid {n} (work i writing net net' printed out st) v = record {
  fed = λ e. NetStep-is_closed st ∙ v.fed e;
  shut = λ e. NetStep-is_closed st ∙ v.shut e;
  sound = NetStep-Sound (remaining n i writing) st v.sound;
  promise =
      append_assoc printed out (future net' (remaining n i writing))
      ∙ ap (λ l. printed ++ l) (NetStep-future (remaining n i writing) st v.sound)
      ∙ v.promise;
}

abbrev pub system_cost : ℕ → System → ℕ
system_cost n s =
    (if s.writing then suc (suc n - s.i) else 0) + cost s.net (remaining n s.i s.writing)

Step-cost : {n : ℕ} {s s' : System} → Step n s s' → Valid n s → system_cost n s' < system_cost n s
Step-cost {n} (write_number i net printed le) v = omega (
  arith,
  le,
  write_to-cost i net (remaining n (i + 1) true) (v.fed refl),
  ap (cost net) (remaining-first n i le),
)
Step-cost {n} (close_numbers i net printed lt) v =
    omega (arith, close_pipe-cost net, ap (cost net) (remaining-none n i lt))
Step-cost {n} (work i writing net net' printed out st) v =
    omega (arith, NetStep-cost (remaining n i writing) st v.sound)

-- A chain whose pipe is closed has returned, or one of its processes can go on.
NetStep-progress :
    (net : Net) (inp : List ℕ)
    → Sound net inp
    → is_closed net ≡ true
    → (net ≡ returned) ⊎ ((out : List ℕ) × ((net' : Net) × NetStep net out net'))
NetStep-progress (waiting [] true) inp ok e = inr ([], (returned, no_number))
NetStep-progress (waiting [] false) inp ok e = absurd (true≢false (sym e))
NetStep-progress (waiting (v ∷ q) c) inp ok e = inr (_, (_, first v q c))
NetStep-progress (filtering p [] true rest) inp ok e = inr ([], (_, last p rest))
NetStep-progress (filtering p [] false rest) inp ok e = absurd (true≢false (sym e))
NetStep-progress (filtering p (v ∷ q) c rest) inp ok e = inr ([], (_, next p v q c rest))
NetStep-progress (draining rest) inp (a, (b, ok)) e = elim (NetStep-progress rest [] ok b) [
  | inl done ↦
      inr ([], (returned, subst (λ net. NetStep (draining net) [] returned) (sym done) reap))
  | inr (out, (rest', st)) ↦ inr (out, (draining rest', below_drain rest rest' out st))
]
NetStep-progress returned inp ok e = inl refl

Step-progress :
    (n i : ℕ) (writing : Bool) (net : Net) (printed : List ℕ)
    → Valid n (record { i = i; writing = writing; net = net; printed = printed })
    → IsOver (record { i = i; writing = writing; net = net; printed = printed })
      ⊎ ((s' : System) × Step n
            (record { i = i; writing = writing; net = net; printed = printed })
            s')
Step-progress n i true net printed v = elim (Bool-cases (leb i n)) [
  | inl le ↦ inr (_, write_number i net printed (leb→le i n le))
  | inr gt ↦ inr (_, close_numbers i net printed (ground arith))
]
Step-progress n i false net printed v = elim (NetStep-progress net [] v.sound (v.shut refl)) [
  | inl done ↦ inl (refl, done)
  | inr (out, (net', st)) ↦ inr (_, work i false net net' printed out st)
]

Run-Valid : {n k : ℕ} {s s' : System} → Run n k s s' → Valid n s → Valid n s'
Run-Valid (here s) v = v
Run-Valid (more k s s1 s' st run) v = Run-Valid run (Step-Valid st v)

Run-cost :
    {n k : ℕ} {s s' : System} → Run n k s s' → Valid n s → k + system_cost n s' ≤ system_cost n s
Run-cost (here s) v = omega arith
Run-cost (more k s s1 s' st run) v = omega (arith, Run-cost run (Step-Valid st v), Step-cost st v)

-- However the processes take turns: once `main` and the processes below it have ended, they have called printf for
-- the primes up to `n`, once for each and in order. On a terminal, where each line is written at once, these calls
-- are the output; elsewhere the buffer that each fork copies may write a line again.
pub Run-primes : (n k : ℕ) (s : System) → Run n k start s → IsOver s → s.printed ≡ primes_to n
Run-primes n k s run (shut, all) =
    let v = Run-Valid run (start-Valid n) in
    sym (append-nil s.printed)
    ∙ ap (λ net. s.printed ++ future net (remaining n s.i s.writing)) (sym all)
    ∙ v.promise

-- However the processes take turns: before they have all ended one of them can go on, and no run has more steps
-- than the cost of the start.
pub Run-progress :
    (n k : ℕ) (s : System)
    → Run n k start s
    → (k ≤ system_cost n start) × (IsOver s ⊎ ((s' : System) × Step n s s'))
Run-progress n k s run = (
  omega (arith, Run-cost run (start-Valid n)),
  Step-progress n s.i s.writing s.net s.printed (Run-Valid run (start-Valid n)),
)
