-- ===== src/Exercises/Examples.antt =====
-- The theorems on fork/ at concrete inputs.
use sistemas_operativos.Prelude.{ℕ, ◌≤◌, ◌≡◌, ◌⊎◌, refl, true, false, List, [], ◌∷◌, arith}
use sistemas_operativos.Exercises.Primes.{
  waiting, returned, write_to, close_pipe, first, no_number, last, reap, below_drain, System, Step,
  write_number, close_numbers, work, start, IsOver, Run, here, more,
}
use sistemas_operativos.Exercises.Sieve.{primes_to}
use sistemas_operativos.Exercises.Ends.{system_cost, Run-primes, Run-progress}
use sistemas_operativos.Exercises.Batches.{Batched, run_batches-Batched}
use sistemas_operativos.Exercises.Find.{
  Dir, no_entry, regular, directory, leer_actual, caso_sensitivo,
}
use sistemas_operativos.Exercises.Walk.{walk, found_paths, leer_actual-walk}

abbrev finished : System
finished = record { i = 3; writing = false; net = returned; printed = 2 ∷ [] }

-- The numbers to 2: `main` writes 2 and closes its pipe, the first process prints 2 and ends its loop, and the
-- second one has no number.
Run-two : Run 2 6 start finished
unfolding write_to close_pipe
Run-two = more 5 _ _ _ (write_number 2 _ _ (omega arith)) (
    more 4 _ _ _ (close_numbers 3 _ _ (omega arith)) (
      more 3 _ _ _ (work 3 false _ _ _ _ (first 2 [] true)) (
        more 2 _ _ _ (work 3 false _ _ _ _ (last 2 (waiting [] false))) (
          more 1 _ _ _ (work 3 false _ _ _ _ (below_drain _ _ _ no_number))
            (more 0 _ _ _ (work 3 false _ _ _ _ reap) (here finished))))))

Run-primes_example : finished.printed ≡ primes_to 2
Run-primes_example = Run-primes 2 6 finished Run-two (refl, refl)

Run-progress_example :
    (6 ≤ system_cost 2 start) × (IsOver finished ⊎ ((s' : System) × Step 2 finished s'))
Run-progress_example = Run-progress 2 6 finished Run-two

-- Five lines, of which the last has no end.
abbrev five_lines : List ℕ
five_lines = b'a' ∷ 10 ∷ b'b' ∷ 10 ∷ 10 ∷ b'c' ∷ 10 ∷ b'd' ∷ []

run_batches-Batched_example : (bs : List (List (List ℕ))) × Batched (b'e' ∷ []) five_lines 9 bs
run_batches-Batched_example = run_batches-Batched 9 (b'e' ∷ []) five_lines (omega arith)

-- A directory "d" that holds a file "x", and a file "y".
abbrev small_tree : Dir
small_tree = directory (b'd' ∷ []) (regular (b'x' ∷ []) no_entry) (regular (b'y' ∷ []) no_entry)

leer_actual-walk_example :
    leer_actual (caso_sensitivo (b'x' ∷ [])) small_tree
    ≡ found_paths (caso_sensitivo (b'x' ∷ [])) (walk [] small_tree)
leer_actual-walk_example = leer_actual-walk (caso_sensitivo (b'x' ∷ [])) small_tree
