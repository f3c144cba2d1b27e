-- ===== src/Sched/Env/Run.antt =====
-- `env_run` and `env_load_pgdir` of sched/kern/env.c.
use sistemas_operativos.Prelude.{ℕ, ◌+◌, ◌%◌, ◌^◌, none, some, if◌then◌else◌}
use sistemas_operativos.Sched.Kernel.{
  running, runnable, Kernel, returns, switches, panics, K, ◌>>◌, put_env, set_status, is_running,
}

-- PADDR panics at a null page directory.
abbrev pub env_load_pgdir : ℕ → K (Unit {0})
env_load_pgdir i k = elim (k.envs i).env_pgdir [
  | none ↦ panics
  | some p ↦ returns tt (record k { cr3 = p })
]

-- The environment that ran, if it still does, becomes runnable.
abbrev pub demote : Kernel → Kernel
demote k = elim k.curenv [
  | none ↦ k
  | some c ↦ if is_running (k.envs c).env_status then set_status c runnable k else k
]

abbrev pub promote : ℕ → Kernel → Kernel
promote i k =
    record (put_env i
      (record (k.envs i) { env_status = running; env_runs = ((k.envs i).env_runs + 1) % 2 ^ 32 })
      k) { curenv = some i }

-- `unlock_kernel` changes nothing here: what other CPUs then do is outside of the model.
abbrev enter : ℕ → K (Unit {0})
enter i k = switches i (put_env i (record (k.envs i) { env_cpunum = k.cpunum }) k)

unfoldable pub env_run : ℕ → K (Unit {0})
env_run i k = (env_load_pgdir i >> enter i) (promote i (demote k))
