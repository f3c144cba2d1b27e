-- ===== src/Sched/Syscall/Envs.antt =====
-- The calls of sched/kern/syscall.c on environments and their tickets.
use sistemas_operativos.Prelude.{ℕ, ◌-◌, true, not, ◌&&◌, none, some, ltb, ◌==◌, if◌then◌else◌}
use sistemas_operativos.Sched.Memory.Defs.{Ret, val, err, inval, pg_size}
use sistemas_operativos.Sched.Kernel.{
  runnable, not_runnable, Kernel, returns, K, ◌>>=◌, ◌>>◌, put_env, set_status,
}
use sistemas_operativos.Sched.Env.Table.{env_alloc}
use sistemas_operativos.Sched.Env.Free.{env_destroy}
use sistemas_operativos.Sched.Syscall.Base.{found, with_env, current, user_mem_assert}

-- PTE_P | PTE_W | PTE_U is asked of the text that is printed.
unfoldable pub sys_cputs : ℕ → ℕ → K (Unit {0})
sys_cputs s len = do i ← current; user_mem_assert i s len 7

unfoldable pub sys_getenvid : K Ret
sys_getenvid = do i ← current; λ k. returns (val (k.envs i).env_id) k

unfoldable pub sys_env_destroy : ℕ → K Ret
sys_env_destroy envid = with_env envid true (λ i. env_destroy i >> λ k. returns (val 0) k)

-- The child of environment `c`: stopped, with the caller's registers and tickets, and 0 in eax.
abbrev pub start_child : ℕ → ℕ → K Ret
start_child c i k =
    let p = k.envs c in
    let e = k.envs i in
    returns (val e.env_id) (
      put_env i
        (record e {
          env_status = not_runnable;
          env_tf = record (p.env_tf) { reg_eax = 0 };
          env_tickets = p.env_tickets;
        })
        k)

unfoldable pub sys_exofork : K Ret
sys_exofork = do c ← current; λ k. (env_alloc (k.envs c).env_id >>= found (start_child c)) k

-- ENV_RUNNABLE is 2 and ENV_NOT_RUNNABLE is 4.
unfoldable pub sys_env_set_status : ℕ → ℕ → K Ret
sys_env_set_status envid status =
    if not (status == 2) && not (status == 4)
    then (λ k. returns (err inval) k)
    else with_env envid true
        (λ i k. returns (val 0) (set_status i (if status == 2 then runnable else not_runnable) k))

-- The check is made with PTE_P | PTE_U. When it destroys another environment, the call goes on.
unfoldable pub sys_env_set_pgfault_upcall : ℕ → ℕ → K Ret
sys_env_set_pgfault_upcall envid func = with_env envid true (λ i.
    user_mem_assert i func pg_size 5 >> λ k.
    returns (val 0) (put_env i (record (k.envs i) { env_pgfault_upcall = func }) k))

abbrev pub lower_tickets : ℕ → Kernel → Kernel
lower_tickets i k =
    if ltb 2 (k.envs i).env_tickets
    then put_env i (record (k.envs i) { env_tickets = (k.envs i).env_tickets - 1 }) k
    else k

unfoldable pub sys_env_set_priority : K (Unit {0})
sys_env_set_priority k = elim k.curenv [
  | none ↦ returns tt k
  | some i ↦ returns tt (lower_tickets i k)
]

unfoldable pub sys_env_get_priority : K Ret
sys_env_get_priority = do i ← current; λ k. returns (val (k.envs i).env_tickets) k
