-- ===== src/Sched/Syscall/Ipc.antt =====
-- The message calls of sched/kern/syscall.c.
use sistemas_operativos.Prelude.{
  ℕ, ◌%◌, true, false, not, ◌&&◌, Option, none, some, leb, ◌==◌, if◌then◌else◌,
}
use sistemas_operativos.Sched.Memory.Defs.{
  Ret, val, err, inval, ipc_not_recv, pg_size, pte_p, pte_w, or_p, or_u,
}
use sistemas_operativos.Sched.Memory.Tables.{utop, page_lookup}
use sistemas_operativos.Sched.Kernel.{
  runnable, not_runnable, Kernel, returns, panics, faults, K, ◌>>=◌, ◌>>◌, on_mem, put_env,
}
use sistemas_operativos.Sched.Yield.{sched_yield}
use sistemas_operativos.Sched.Syscall.Base.{with_env, current, pgdir_of}
use sistemas_operativos.Sched.Syscall.Pages.{env_page_alloc, env_page_map, bad_va}

-- The code at `bail`, for sender `c` and receiver `d`.
abbrev pub delivered : ℕ → ℕ → ℕ → Kernel → Kernel
delivered c d value k =
    let e = k.envs d in
    put_env d
      (record e {
        env_ipc_from = (k.envs c).env_id;
        env_ipc_recving = false;
        env_ipc_value = value;
        env_tf = record (e.env_tf) { reg_eax = 0 };
        env_status = runnable;
      })
      k

abbrev pub deliver : ℕ → ℕ → ℕ → K Ret
deliver c d value k = returns (val 0) (delivered c d value k)

abbrev pub set_ipc_perm : ℕ → ℕ → Kernel → Kernel
set_ipc_perm d perm k = put_env d (record (k.envs d) { env_ipc_perm = perm }) k

-- `if ((r = …) < 0) return r;` before the rest.
abbrev unless_err : K Ret → Ret → K Ret
unless_err rest (err x) k = returns (err x) k
unless_err rest (val _) k = rest k

abbrev transfer : ℕ → ℕ → ℕ → ℕ → ℕ → K Ret
transfer c d value srcva perm k =
    let dstva = (k.envs d).env_ipc_dstva in
    if dstva == 0
    then deliver c d value k
    else (env_page_alloc d dstva perm
          >>= unless_err (
              env_page_map c srcva d dstva perm
              >>= unless_err (λ k'. deliver c d value (set_ipc_perm d perm k'))))
        k

-- When `page_lookup` finds no page it leaves `srcpte` unset, and the next test reads through it.
abbrev pub checked_transfer : ℕ → ℕ → ℕ → ℕ → ℕ → Option (ℕ × ℕ × ℕ) → K Ret
checked_transfer c d value srcva perm none k = faults
checked_transfer c d value srcva perm (some (p, f, j)) k =
    let w = k.mem.frame f j in
    if not (w == 0) && not (pte_p w)
    then returns (err inval) k
    else if pte_w perm && not (pte_w w)
    then returns (err inval) k
    else transfer c d value srcva (or_p (or_u perm)) k

abbrev pub send_page : ℕ → ℕ → ℕ → ℕ → K Ret
send_page d value srcva perm = do
  c ← current
  pgdir ← pgdir_of c
  page ← on_mem (page_lookup pgdir srcva)
  checked_transfer c d value srcva perm page

-- The call once the receiver `d` is found.
unfoldable pub try_send : ℕ → ℕ → ℕ → ℕ → K Ret
try_send d value srcva perm k =
    if not (k.envs d).env_ipc_recving
    then returns (err ipc_not_recv) k
    else if leb utop srcva
    then (current >>= λ c. deliver c d value) (set_ipc_perm d 0 k)
    else if not (srcva % pg_size == 0)
    then returns (err inval) k
    else send_page d value srcva perm k

unfoldable pub sys_ipc_try_send : ℕ → ℕ → ℕ → ℕ → K Ret
sys_ipc_try_send envid value srcva perm = with_env envid false (λ d. try_send d value srcva perm)

abbrev pub start_recv : ℕ → Kernel → Kernel
start_recv c k = put_env c (record (k.envs c) { env_ipc_recving = true }) k

abbrev pub block_recv : ℕ → ℕ → Kernel → Kernel
block_recv c dstva k =
    put_env c (record (k.envs c) { env_ipc_dstva = dstva; env_status = not_runnable }) k

-- The flag is set before the address is tested. A return of `sys_yield` is a panic.
unfoldable pub sys_ipc_recv : ℕ → K Ret
sys_ipc_recv dstva = do
  c ← current
  λ k.
      if bad_va dstva
      then returns (err inval) (start_recv c k)
      else (sched_yield >> λ k'. panics) (block_recv c dstva (start_recv c k))
