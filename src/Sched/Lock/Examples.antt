-- ===== src/Sched/Lock/Examples.antt =====
-- Runs of the CPUs of sched/kern with the lock of spinlock.c.
use sistemas_operativos.Prelude.{ℕ, List, [], ◌∷◌, false, ◌≡◌, ◌≢◌, ◌⊎◌, true, refl}
use sistemas_operativos.Sched.Lock.{Stack, spin_lock, is_cpu}
use sistemas_operativos.Sched.Lock.System.{
  panicked, Machine, step, power_on, Reach, start, later, leaving, advance, start_cpu, go_on_from,
}
use sistemas_operativos.Sched.Lock.Exclusion.{
  has_kernel, is_trying, is_taking, Reach-exclusive, Reach-enters,
}

abbrev stack : Stack
stack = record { ebp = 0; word = λ _. 0 }

-- The CPUs of the list take turns, the last one of it first.
unfoldable run : List ℕ → Machine
run [] = power_on 0
run (i ∷ is) = step stack leaving i (run is)

run-Reach : (is : List ℕ) → Reach 0 (run is)
unfolding run
run-Reach [] = start
run-Reach (i ∷ is) = later stack leaving i (run-Reach is)

-- CPU 0 is in the kernel, and CPU 1 at the xchg of its `spin_lock`.
abbrev turns : List ℕ
turns = 1 ∷ 1 ∷ 1 ∷ 0 ∷ 0 ∷ 0 ∷ 0 ∷ 0 ∷ []

Reach-exclusive_example :
    (((run turns).cpus 0).stage ≢ panicked)
    × ((◌≡◌ {A = ℕ} 0 1)
        ⊎ (has_kernel ((run turns).cpus 0) ≡ false)
        ⊎ (has_kernel ((run turns).cpus 1) ≡ false))
Reach-exclusive_example = Reach-exclusive (run-Reach turns) 0 1

turns-trying : is_trying ((run turns).cpus 1).stage ≡ true
unfolding run step advance start_cpu go_on_from spin_lock is_cpu is_trying
turns-trying = refl

Reach-enters_example :
    (is_taking ((step stack leaving 1 (run turns)).cpus 1).stage ≡ true)
    ⊎ ((j : ℕ) × (j ≢ 1) × (has_kernel ((run turns).cpus j) ≡ true))
Reach-enters_example = Reach-enters stack leaving 1 (run-Reach turns) turns-trying
