-- ===== src/Sched/Yield/Switch.antt =====
-- What `env_run` of sched/kern/env.c and `sched_yield` of sched/kern/sched.c do to the environments.
use sistemas_operativos.Prelude.{
  ℕ, ◌+◌, ◌%◌, ◌^◌, ◌≤◌, ◌<◌, ◌≡◌, ◌≢◌, ◌⊎◌, ◌==◌, inl, inr, refl, sym, ◌∙◌, true, false, none,
  some, arith, if◌then◌else◌, Option-cases,
}
use sistemas_operativos.Sched.Random.{lcg_parkmiller}
use sistemas_operativos.Sched.Kernel.{
  running, runnable, Kernel, returns, switches, halts, monitors, nenv, is_at, put_env,
}
use sistemas_operativos.Sched.Env.Run.{env_run, env_load_pgdir, demote, promote}
use sistemas_operativos.Sched.Yield.{
  takes_part, ticket_pool, draw, add_to_historial, lottery, any_busy, sched_halt, sched_yield,
}
use sistemas_operativos.Sched.Yield.Draw.{draw_iff}

-- The state in which environment `i` is entered from `k`.
pub record Entered (i : ℕ) (k k' : Kernel) : Type 0 where
  pub current : k'.curenv ≡ some i
  pub entry : k'.envs i ≡ record (k.envs i) {
    env_status = running;
    env_runs = ((k.envs i).env_runs + 1) % 2 ^ 32;
    env_cpunum = k.cpunum;
  }
  pub frame : (k'.envs i).env_tf ≡ (k.envs i).env_tf
  pub status : (k'.envs i).env_status ≡ running
  pub runs : (k'.envs i).env_runs ≡ ((k.envs i).env_runs + 1) % 2 ^ 32
  pub space : (k'.envs i).env_pgdir ≡ some k'.cr3
  pub cpu : (k'.envs i).env_cpunum ≡ k.cpunum
  pub previous :
      (c : ℕ)
      → k.curenv ≡ some c
      → c ≢ i
      → (k.envs c).env_status ≡ running
      → k'.envs c ≡ record (k.envs c) { env_status = runnable }
  pub others : (j : ℕ) → j ≢ i → is_at k.curenv j ≡ false → k'.envs j ≡ k.envs j
  pub same_mem : k'.mem ≡ k.mem

-- The history of the draws, the random seed and the free list, which entering an environment leaves alone.
pub record Kept (k k' : Kernel) : Type 0 where
  pub history : k'.historial ≡ k.historial
  pub position : k'.ultima_posicion ≡ k.ultima_posicion
  pub size : k'.max_historial_indx ≡ k.max_historial_indx
  pub seed : k'.random_seed ≡ k.random_seed
  pub list : k'.env_free_list ≡ k.env_free_list

-- What a draw that environment `i` won leaves of them: the next seed, and an entry for `i` as it was.
pub record Drawn (i : ℕ) (k k' : Kernel) : Type 0 where
  pub seed : k'.random_seed ≡ lcg_parkmiller k.random_seed
  pub id : (k'.historial k.ultima_posicion).env_id ≡ (k.envs i).env_id
  pub tickets : (k'.historial k.ultima_posicion).env_tickets ≡ (k.envs i).env_tickets
  pub runs : (k'.historial k.ultima_posicion).env_runs ≡ (k.envs i).env_runs
  pub others : (j : ℕ) → j ≢ k.ultima_posicion → k'.historial j ≡ k.historial j
  pub position :
      k'.ultima_posicion ≡ (if k.ultima_posicion + 1 == 10000 then 0 else k.ultima_posicion + 1)
  pub size :
      (k.max_historial_indx ≤ k'.max_historial_indx)
      × (k.ultima_posicion < k'.max_historial_indx)
      × ((k'.max_historial_indx ≡ k.max_historial_indx)
          ⊎ (k'.max_historial_indx ≡ k.ultima_posicion + 1))

abbrev loaded : ℕ → Kernel → Kernel
loaded p k = record k { cr3 = p }

abbrev entered : ℕ → ℕ → Kernel → Kernel
entered i p k = put_env i (record (k.envs i) { env_cpunum = k.cpunum }) (loaded p k)

env_load_pgdir_lem :
    (i p : ℕ) (k : Kernel)
    → (k.envs i).env_pgdir ≡ some p
    → env_load_pgdir i k ≡ returns tt (loaded p k)
env_load_pgdir_lem i p k e = rw (e, env_load_pgdir)

pgdir-promote :
    (i : ℕ) (k : Kernel) → ((promote i (demote k)).envs i).env_pgdir ≡ (k.envs i).env_pgdir
pgdir-promote i k = ground arith

entered-Entered :
    (i p : ℕ) (k : Kernel)
    → (k.envs i).env_pgdir ≡ some p
    → Entered i k (entered i p (promote i (demote k)))
entered-Entered i p k e = record {
  current = refl;
  entry = ground arith;
  frame = ground arith;
  status = ground arith;
  runs = ground arith;
  space = ground arith;
  cpu = ground arith;
  previous = λ c cur ne run. ground arith;
  others = λ j ne cur. ground arith;
  same_mem = ground arith;
}

entered-Kept : (i p : ℕ) (k : Kernel) → Kept k (entered i p (promote i (demote k)))
entered-Kept i p k = record {
  history = ground arith;
  position = ground arith;
  size = ground arith;
  seed = ground arith;
  list = ground arith;
}

-- `env_run` of an environment with a page directory enters it: it is the current one, RUNNING, in
-- its own address space, on this CPU, with one more run counted; the environment that was current
-- and RUNNING becomes RUNNABLE, and every other environment and memory stay as they were.
pub env_run_lem :
    (i p : ℕ) (k : Kernel)
    → (k.envs i).env_pgdir ≡ some p
    → (k' : Kernel) × (env_run i k ≡ switches i k') × Entered i k k' × Kept k k'
unfolding env_run
env_run_lem i p k e = (
  entered i p (promote i (demote k)),
  rw (env_load_pgdir_lem i p (promote i (demote k)) (pgdir-promote i k ∙ e)),
  entered-Entered i p k e,
  entered-Kept i p k,
)

-- The state of `lottery` behind the call of `next_random`.
abbrev pub reseeded : Kernel → Kernel
reseeded k = record k { random_seed = lcg_parkmiller k.random_seed }

abbrev pub winning_number : Kernel → ℕ
winning_number k = lcg_parkmiller k.random_seed % (ticket_pool nenv 0 0 k.envs + 1)

abbrev recorded : ℕ → Kernel → Kernel
recorded i k = add_to_historial (k.envs i) (reseeded k)

lottery-none :
    (k : Kernel)
    → draw nenv 0 0 (winning_number k) k.envs ≡ none
    → lottery k ≡ returns tt (reseeded k)
unfolding lottery
lottery-none k e = rw (e, lottery)

-- If no environment takes part, `sched_yield` advances the random seed, and then halts the CPU,
-- with no current environment and the kernel's page directory, if one is DYING, and stops in the
-- monitor otherwise.
pub sched_yield-idle :
    (k : Kernel)
    → ((j : ℕ) → j < nenv → takes_part (k.envs j).env_status ≡ false)
    → sched_yield k ≡ (
        if any_busy nenv 0 k.envs
        then halts (record (reseeded k) { curenv = none; cr3 = k.kern_pgdir })
        else monitors (reseeded k))
unfolding sched_yield sched_halt
sched_yield-idle k quiet = elim (Option-cases (draw nenv 0 0 (winning_number k) k.envs)) [
  | inl e ↦ rw (lottery-none k e)
  | inr (i, e) ↦
      let (below, w) = (draw_iff nenv (winning_number k) i k.envs).0 e in
      absurd (true≢false (sym w.participates ∙ quiet i below))
]
  where
    true≢false : true ≢ false
    true≢false e = cc
