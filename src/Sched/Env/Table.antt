-- ===== src/Sched/Env/Table.antt =====
-- `envid2env`, `env_init`, `env_setup_vm` and `env_alloc` of sched/kern/env.c. The segment registers
-- that `env_init_percpu` loads are no part of the model.
use sistemas_operativos.Prelude.{
  ℕ, zero, suc, ◌+◌, ◌-◌, ◌*◌, ◌/◌, ◌%◌, ◌^◌, Bool, true, false, ◌&&◌, ◌||◌, not, Option, none,
  some, bit_or, leb, ◌==◌, if◌then◌else◌, update,
}
use sistemas_operativos.Sched.Memory.Defs.{
  Mem, Ret, val, err, bad_env, no_mem, no_free_env, page_alloc, page_incref, put_word, pg_size,
}
use sistemas_operativos.Sched.Memory.Tables.{utop}
use sistemas_operativos.Sched.Kernel.{
  free, runnable, Trapframe, Env, Kernel, returns, faults, K, ◌>>=◌, on_mem, put_env, nenv, envx,
  is_free, is_at,
}

-- The result with what is stored through `env_store`.
unfoldable pub envid2env : ℕ → Bool → K (Ret × Option ℕ)
envid2env envid checkperm k =
    let i = envx envid in
    let e = k.envs i in
    if envid == 0
    then returns (val 0, k.curenv) k
    else if is_free e.env_status || not (e.env_id == envid)
    then returns (err bad_env, none) k
    else if checkperm && not (is_at k.curenv i)
    then elim k.curenv [
      | none ↦ faults
      | some c ↦
          if e.env_parent_id == (k.envs c).env_id
          then returns (val 0, some i) k
          else returns (err bad_env, none) k
    ]
    else returns (val 0, some i) k

abbrev init_env : ℕ → Kernel → Kernel
init_env i k =
    put_env i (record (k.envs i) { env_id = 0; env_status = free; env_link = some (i + 1) }) k

init_envs : ℕ → ℕ → Kernel → Kernel
init_envs zero i k = k
init_envs (suc left) i k = init_envs left (i + 1) (init_env i k)

unfoldable pub env_init : Kernel → Kernel
unfolding init_envs
env_init k =
    let k' = init_envs nenv 0 k in
    record (put_env (nenv - 1) (record (k'.envs (nenv - 1)) { env_link = none }) k') {
      env_free_list = some 0;
    }

-- PDX(UVPT)
abbrev pub uvpt_index : ℕ
uvpt_index = 957

-- `memcpy(e->env_pgdir, kern_pgdir, PGSIZE)`
abbrev pub copy_page : ℕ → ℕ → Mem → Mem
copy_page to from m = record m { frame = update m.frame to (m.frame from) }

unfoldable pub install_pgdir : ℕ → Option ℕ → K Ret
install_pgdir i none k = returns (err no_mem) k
install_pgdir i (some p) k =
    let m =
      put_word p uvpt_index (p * pg_size + 5) (page_incref p (copy_page p k.kern_pgdir k.mem)) in
    returns (val 0) (put_env i (record (k.envs i) { env_pgdir = some p }) (record k { mem = m }))

-- The address space of environment `i`: a copy of the kernel's, with itself at UVPT.
unfoldable pub env_setup_vm : ℕ → K Ret
env_setup_vm i = do p ← on_mem (page_alloc true); install_pgdir i p

-- `generation`, an int32_t, behind the test that keeps it positive.
abbrev pub next_generation : ℕ → ℕ
next_generation id =
    let g = (id + 4096) % 2 ^ 32 / nenv * nenv in if g == 0 || leb (2 ^ 31) g then 4096 else g

abbrev pub ustacktop : ℕ
ustacktop = utop - 2 * pg_size

abbrev pub user_frame : Trapframe
user_frame = record {
  reg_eax = 0;
  tf_ds = 0x23;
  tf_es = 0x23;
  tf_ss = 0x23;
  tf_esp = ustacktop;
  tf_cs = 0x1b;
  tf_eip = 0;
  tf_eflags = 0x200;
  other = λ _. 0;
}

abbrev pub ticket_step : ℕ
ticket_step = 50

abbrev pub fresh_env : ℕ → ℕ → Env → Env
fresh_env i parent_id e = record e {
  env_id = bit_or (next_generation e.env_id) i;
  env_parent_id = parent_id;
  env_type = 0;
  env_status = runnable;
  env_runs = 0;
  env_tickets = ticket_step;
  env_tf = user_frame;
  env_pgfault_upcall = 0;
  env_ipc_recving = false;
}

-- The result with what is stored through `newenv_store`.
abbrev pub commit : ℕ → ℕ → Ret → K (Ret × Option ℕ)
commit i parent_id (err x) k = returns (err x, none) k
commit i parent_id (val _) k =
    let e = fresh_env i parent_id (k.envs i) in
    returns (val 0, some i) (record (put_env i e k) { env_free_list = e.env_link })

unfoldable pub env_alloc : ℕ → K (Ret × Option ℕ)
env_alloc parent_id k = elim k.env_free_list [
  | none ↦ returns (err no_free_env, none) k
  | some i ↦ (env_setup_vm i >>= commit i parent_id) k
]
