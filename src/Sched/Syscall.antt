-- ===== src/Sched/Syscall.antt =====
-- The system calls of sched/kern/syscall.c: `syscall` picks the function by its number. The second
-- argument is what `cons_getc` of the console driver returns. What the calls print is left out.
pub mod Base
pub mod Envs
pub mod Pages
pub mod Ipc
pub mod Rights
pub mod Messages
mod Examples
use sistemas_operativos.Prelude.{ℕ, ◌==◌, Option, if◌then◌else◌}
use sistemas_operativos.Sched.Memory.Defs.{Ret, val, err, inval}
use sistemas_operativos.Sched.Kernel.{K, ◌>>=◌, ◌>>◌, Outcome, returns}
use sistemas_operativos.Sched.Yield.{sched_yield}
use Envs.{
  sys_cputs, sys_getenvid, sys_env_destroy, sys_exofork, sys_env_set_status,
  sys_env_set_pgfault_upcall, sys_env_set_priority, sys_env_get_priority,
}
use Pages.{sys_page_alloc, sys_page_map, sys_page_unmap}
use Ipc.{sys_ipc_try_send, sys_ipc_recv}

-- SYS_env_set_priority has no `break`: it goes on to SYS_env_get_priority.
unfoldable pub syscall : ℕ → ℕ → ℕ → ℕ → ℕ → ℕ → ℕ → K Ret
syscall number input a1 a2 a3 a4 a5 =
    if number == 0
    then (sys_cputs a1 a2 >> λ k. returns (val 0) k)
    else if number == 2
    then sys_getenvid
    else if number == 3
    then sys_env_destroy a1
    else if number == 1
    then (λ k. returns (val input) k)
    else if number == 7
    then sys_exofork
    else if number == 8
    then sys_env_set_status a1 a2
    else if number == 4
    then sys_page_alloc a1 a2 a3
    else if number == 5
    then sys_page_map a1 a2 a3 a4 a5
    else if number == 6
    then sys_page_unmap a1 a2
    else if number == 12
    then sys_ipc_recv a1
    else if number == 11
    then sys_ipc_try_send a1 a2 a3 a4
    else if number == 9
    then sys_env_set_pgfault_upcall a1 a2
    else if number == 10
    then (sched_yield >> sys_env_set_priority >> sys_env_get_priority)
    else if number == 14
    then (sys_env_set_priority >> sys_env_get_priority)
    else if number == 15
    then sys_env_get_priority
    else λ k. returns (err inval) k
