-- ===== src/Sched/Yield.antt =====
-- The scheduler of sched/kern/sched.c: `lottery`, which `sched_yield` calls, `round_robin`, which it
-- could call instead, the history of the draws and `sched_halt`. What `sched_halt` prints is left out.
pub mod Draw
pub mod Switch
use sistemas_operativos.Prelude.{
  ℕ, zero, suc, ◌+◌, ◌-◌, ◌*◌, ◌/◌, ◌%◌, ◌^◌, Bool, true, false, ◌||◌, Option, none, some, ltb, leb,
  ◌==◌, if◌then◌else◌, update,
}
use sistemas_operativos.Sched.Random.{lcg_parkmiller}
use sistemas_operativos.Sched.Kernel.{
  Status, free, dying, runnable, running, not_runnable, Env, HistEntry, Kernel, Outcome, returns,
  halts, monitors, K, ◌>>=◌, ◌>>◌, nenv, envx, is_running, is_runnable,
}
use sistemas_operativos.Sched.Env.Run.{env_run}

abbrev pub hist_max_size : ℕ
hist_max_size = 10000

-- `next_random`, with the new `random_seed`.
abbrev pub next_random : Kernel → ℕ × Kernel
next_random k = let r = lcg_parkmiller k.random_seed in (r, record k { random_seed = r })

-- RUNNING or RUNNABLE: the states that take part in the draw.
abbrev pub takes_part : Status → Bool
takes_part running = true
takes_part runnable = true
takes_part _ = false

-- `pool += envs[i].env_tickets`; `int` additions that stay below 2 ^ 31.
unfoldable pub ticket_pool : ℕ → ℕ → ℕ → (ℕ → Env) → ℕ
ticket_pool zero i pool envs = pool
ticket_pool (suc left) i pool envs =
    ticket_pool left (i + 1)
      (if takes_part (envs i).env_status then pool + (envs i).env_tickets else pool) envs

-- The second loop up to the call of `env_run`, which does not come back. The sums of the tickets are not wrapped.
unfoldable pub draw : ℕ → ℕ → ℕ → ℕ → (ℕ → Env) → Option ℕ
draw zero i j winner envs = none
draw (suc left) i j winner envs =
    let j' = if takes_part (envs i).env_status then j + (envs i).env_tickets else j in
    let rest = draw left (i + 1) j' winner envs in
    if takes_part (envs i).env_status then (if leb winner j' then some i else rest) else rest

abbrev pub entry_of : Env → HistEntry
entry_of e = record { env_id = e.env_id; env_tickets = e.env_tickets; env_runs = e.env_runs }

unfoldable pub add_to_historial : Env → Kernel → Kernel
add_to_historial e k =
    let n = k.ultima_posicion + 1 in
    record k {
      historial = update k.historial k.ultima_posicion (entry_of e);
      max_historial_indx = (if ltb k.max_historial_indx n then n else k.max_historial_indx);
      ultima_posicion = (if n == hist_max_size then 0 else n);
    }

unfoldable pub lottery : K (Unit {0})
lottery k =
    let pool = ticket_pool nenv 0 0 k.envs in
    let (r, k') = next_random k in
    let winner = r % (pool + 1) in
    elim (draw nenv 0 0 winner k'.envs) [
      | none ↦ returns tt k'
      | some i ↦ env_run i (add_to_historial (k'.envs i) k')
    ]

abbrev pub is_busy : Status → Bool
is_busy runnable = true
is_busy running = true
is_busy dying = true
is_busy _ = false

unfoldable pub any_busy : ℕ → ℕ → (ℕ → Env) → Bool
any_busy zero i envs = false
any_busy (suc left) i envs = is_busy (envs i).env_status || any_busy left (i + 1) envs

unfoldable pub sched_halt : K (Unit {0})
sched_halt k =
    if any_busy nenv 0 k.envs
    then halts (record k { curenv = none; cr3 = k.kern_pgdir })
    else monitors k

unfoldable pub sched_yield : K (Unit {0})
sched_yield = lottery >> sched_halt

unfoldable pub next_runnable : ℕ → ℕ → ℕ → (ℕ → Env) → Option ℕ
next_runnable zero n i envs = none
next_runnable (suc left) n i envs =
    let idx = (n + i) % nenv in
    let rest = next_runnable left n (i + 1) envs in
    if is_runnable (envs idx).env_status then some idx else rest

-- The index behind the one of `curenv`.
abbrev pub start_index : Kernel → ℕ
start_index k = elim k.curenv [ none ↦ 0 | some c ↦ envx (k.envs c).env_id + 1 ]

abbrev resume : K (Unit {0})
resume k = elim k.curenv [
  | none ↦ returns tt k
  | some c ↦
      if is_running (k.envs c).env_status then env_run (envx (k.envs c).env_id) k else returns tt k
]

unfoldable pub round_robin : K (Unit {0})
round_robin k = elim (next_runnable nenv (start_index k) 0 k.envs) [
  | none ↦ resume k
  | some i ↦ env_run i k
]
