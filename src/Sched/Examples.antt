-- ===== src/Sched/Examples.antt =====
-- A kernel with a running environment and its child, which waits for a message: the theorems on
-- sched/kern/env.c and sched.c at concrete inputs.
use sistemas_operativos.Prelude.{
  ℕ, zero, suc, ◌*◌, ◌%◌, ◌≤◌, ◌<◌, ◌≡◌, ◌⊎◌, ◌↔◌, refl, Bool, true, false, Option, none, some,
  arith,
}
use sistemas_operativos.Sched.Random.{lcg_parkmiller, lcg_parkmiller_lem, modulus, multiplier}
use sistemas_operativos.Sched.Memory.Defs.{Mem, bad_env, val, err}
use sistemas_operativos.Sched.Memory.Examples.{small}
use sistemas_operativos.Sched.Kernel.{
  Status, free, running, not_runnable, Trapframe, Env, HistEntry, Kernel, returns,
}
use sistemas_operativos.Sched.Env.Table.{envid2env}
use sistemas_operativos.Sched.Env.Lookup.{envid2env-checked, Names, MayManipulate}
use sistemas_operativos.Sched.Yield.{takes_part, ticket_pool, draw}
use sistemas_operativos.Sched.Yield.Draw.{Wins, draw_iff}

abbrev pub frame0 : Trapframe
frame0 = record {
  reg_eax = 0;
  tf_ds = 0;
  tf_es = 0;
  tf_ss = 0;
  tf_esp = 0;
  tf_cs = 0;
  tf_eip = 0;
  tf_eflags = 0;
  other = λ _. 0;
}

abbrev env_with : ℕ → ℕ → Status → Option ℕ → Bool → Env
env_with id parent status pgdir recving = record {
  env_tf = frame0;
  env_link = none;
  env_id = id;
  env_parent_id = parent;
  env_type = 0;
  env_status = status;
  env_runs = 0;
  env_cpunum = 0;
  env_tickets = 20;
  env_pgdir = pgdir;
  env_pgfault_upcall = 0;
  env_ipc_recving = recving;
  env_ipc_dstva = 0;
  env_ipc_value = 0;
  env_ipc_from = 0;
  env_ipc_perm = 0;
}

abbrev pub two : ℕ
two = 2

abbrev pub twenty : ℕ
twenty = 20

abbrev pub table : ℕ → Env
table zero = env_with 4096 0 running (some 3) false
table (suc zero) = env_with 4097 4096 not_runnable (some 3) true
table (suc (suc i)) = env_with 0 0 free none false

abbrev nothing : HistEntry
nothing = record { env_id = 0; env_tickets = 0; env_runs = 0 }

abbrev pub kernel : Kernel
kernel = record {
  mem = small;
  kern_pgdir = 0;
  cr3 = 3;
  envs = table;
  env_free_list = some 2;
  curenv = some 0;
  cpunum = 0;
  random_seed = 1;
  historial = λ _. nothing;
  ultima_posicion = 0;
  max_historial_indx = 0;
}

lcg_parkmiller_example :
    (lcg_parkmiller 1 ≡ 1 * multiplier % modulus)
    × (1 ≤ lcg_parkmiller 1)
    × (lcg_parkmiller 1 < modulus)
lcg_parkmiller_example = lcg_parkmiller_lem 1 (omega arith) (omega arith)

first_value : lcg_parkmiller 1 ≡ 48271
unfolding lcg_parkmiller
first_value = refl

same_successor : lcg_parkmiller 48271 ≡ lcg_parkmiller (lcg_parkmiller 1)
unfolding lcg_parkmiller
same_successor = refl

envid2env-checked_example :
    (envid2env 4097 true kernel ≡ returns (err bad_env, none) kernel)
    ⊎ ((i : ℕ) × (envid2env 4097 true kernel ≡ returns (val 0, some i) kernel)
        × Names kernel 0 4097 i
        × MayManipulate kernel 0 i)
envid2env-checked_example = envid2env-checked 4097 0 kernel refl

draw_iff_example : (draw 2 0 0 7 table ≡ some 0) ↔ ((0 < 2) × Wins table 7 0)
draw_iff_example = draw_iff 2 7 0 table

pool_table : ticket_pool 2 0 0 table ≡ 20
unfolding ticket_pool
pool_table = refl

pub participants_have_pages :
    (j : ℕ) → takes_part (table j).env_status ≡ true → (p : ℕ) × ((table j).env_pgdir ≡ some p)
participants_have_pages zero h = (3, refl)
participants_have_pages (suc zero) h = (3, refl)
participants_have_pages (suc (suc j)) h = absurd (no_part h)
  where
    no_part : false ≡ true → ⊥
    no_part e = cc

abbrev idle : Kernel
idle = record kernel { envs = λ _. env_with 0 0 free none false }

-- The start of an ELF image without segments.
abbrev image : ℕ → ℕ
image zero = 0x7f
image (suc zero) = 0x45
image (suc (suc zero)) = 0x4c
image (suc (suc (suc zero))) = 0x46
image (suc (suc (suc (suc _)))) = 0

-- Writes of the kernel that no page of the example sees.
abbrev unseen : ℕ → ℕ → ℕ → (ℕ → ℕ) → Mem → Mem
unseen pgdir va len bytes m = m
