-- ===== src/Sched/Syscall/Messages.antt =====
-- How `sys_ipc_recv` and `sys_ipc_try_send` of sched/kern/syscall.c meet.
use sistemas_operativos.Prelude.{
  ℕ, ◌%◌, ◌≤◌, ◌<◌, ◌≡◌, ◌≢◌, ◌⊎◌, refl, ◌∙◌, true, false, none, some, arith, leb,
}
use sistemas_operativos.Sched.Memory.Defs.{val, err, inval, ipc_not_recv, pg_size}
use sistemas_operativos.Sched.Memory.Tables.{utop, page_lookup}
use sistemas_operativos.Sched.Kernel.{runnable, Kernel, returns, faults, ◌>>=◌}
use sistemas_operativos.Sched.Env.Table.{envid2env}
use sistemas_operativos.Sched.Syscall.Rights.{with_env-found}
use sistemas_operativos.Sched.Syscall.Ipc.{
  delivered, set_ipc_perm, send_page, try_send, sys_ipc_try_send, start_recv, sys_ipc_recv,
}

lt→leb_false : (a b : ℕ) → b < a → leb a b ≡ false
lt→leb_false a b h = ground arith

-- What environment d has after a value from environment c has come in.
pub record Delivered (c d value : ℕ) (k k' : Kernel) : Type 0 where
  pub receiver : k'.envs d ≡ record (k.envs d) {
    env_status = runnable;
    env_ipc_recving = false;
    env_ipc_value = value;
    env_ipc_from = (k.envs c).env_id;
    env_ipc_perm = 0;
    env_tf = record ((k.envs d).env_tf) { reg_eax = 0 };
  }
  pub rest : k' ≡ record k { envs = k'.envs }
  pub awake : (k'.envs d).env_status ≡ runnable
  pub word : (k'.envs d).env_ipc_value ≡ value
  pub sender : (k'.envs d).env_ipc_from ≡ (k.envs c).env_id
  pub deaf : (k'.envs d).env_ipc_recving ≡ false
  pub no_page : (k'.envs d).env_ipc_perm ≡ 0
  pub result : (k'.envs d).env_tf.reg_eax ≡ 0
  pub same_id : (k'.envs d).env_id ≡ (k.envs d).env_id
  pub others : (j : ℕ) → j ≢ d → k'.envs j ≡ k.envs j
  pub same_current : k'.curenv ≡ k.curenv
  pub same_mem : k'.mem ≡ k.mem

delivered-Delivered :
    (c d value : ℕ) (k : Kernel) → Delivered c d value k (delivered c d value (set_ipc_perm d 0 k))
delivered-Delivered c d value k = record {
  receiver = ground arith;
  rest = refl;
  awake = ground arith;
  word = ground arith;
  sender = ground arith;
  deaf = ground arith;
  no_page = ground arith;
  result = ground arith;
  same_id = ground arith;
  others = λ j ne. ground arith;
  same_current = refl;
  same_mem = refl;
}

try_send-high :
    (c d value srcva perm : ℕ) (k : Kernel)
    → k.curenv ≡ some c
    → (k.envs d).env_ipc_recving ≡ true
    → utop ≤ srcva
    → try_send d value srcva perm k ≡ returns (val 0) (delivered c d value (set_ipc_perm d 0 k))
unfolding try_send
try_send-high c d value srcva perm k cur listens high = ground arith

-- A send without a page (an address from UTOP on) of environment c to an environment d that is
-- found and receives returns 0: d is runnable, will see 0 from its own call, and has the value and
-- the sender's identifier; nothing else of the environments or of memory changes.
pub sys_ipc_try_send-delivers :
    (envid c d value srcva perm : ℕ) (k : Kernel)
    → k.curenv ≡ some c
    → envid2env envid false k ≡ returns (val 0, some d) k
    → (k.envs d).env_ipc_recving ≡ true
    → utop ≤ srcva
    → (k' : Kernel) × (sys_ipc_try_send envid value srcva perm k ≡ returns (val 0) k')
      × Delivered c d value k k'
unfolding sys_ipc_try_send
sys_ipc_try_send-delivers envid c d value srcva perm k cur ok listens high = (
  delivered c d value (set_ipc_perm d 0 k),
  with_env-found envid d false (λ i. try_send i value srcva perm) k ok
      ∙ try_send-high c d value srcva perm k cur listens high,
  delivered-Delivered c d value k,
)

-- A second message is refused: a send to an environment that is not receiving returns
-- -E_IPC_NOT_RECV and changes nothing, whatever page it offers.
pub sys_ipc_try_send-refused :
    (envid d value srcva perm : ℕ) (k : Kernel)
    → envid2env envid false k ≡ returns (val 0, some d) k
    → (k.envs d).env_ipc_recving ≡ false
    → sys_ipc_try_send envid value srcva perm k ≡ returns (err ipc_not_recv) k
unfolding sys_ipc_try_send try_send
sys_ipc_try_send-refused envid d value srcva perm k ok deaf =
    with_env-found envid d false (λ i. try_send i value srcva perm) k ok ∙ rw deaf

send_page-unmapped :
    (c d value srcva perm pgdir : ℕ) (k : Kernel)
    → k.curenv ≡ some c
    → (k.envs c).env_pgdir ≡ some pgdir
    → page_lookup pgdir srcva k.mem ≡ some (none, k.mem)
    → send_page d value srcva perm k ≡ faults
send_page-unmapped c d value srcva perm pgdir k cur space look =
    rw (cur, space, look, send_page, ◌>>=◌)

try_send-low :
    (d value srcva perm : ℕ) (k : Kernel)
    → (k.envs d).env_ipc_recving ≡ true
    → srcva < utop
    → srcva % pg_size ≡ 0
    → try_send d value srcva perm k ≡ send_page d value srcva perm k
unfolding try_send
try_send-low d value srcva perm k listens low aligned =
    rw (listens, lt→leb_false utop srcva low, aligned)

-- A send of a page that is not mapped in the sender faults: `page_lookup` finds nothing, and the
-- entry is read through a pointer that nothing has set.
pub sys_ipc_try_send-unmapped :
    (envid c d value srcva perm pgdir : ℕ) (k : Kernel)
    → k.curenv ≡ some c
    → (k.envs c).env_pgdir ≡ some pgdir
    → envid2env envid false k ≡ returns (val 0, some d) k
    → (k.envs d).env_ipc_recving ≡ true
    → srcva < utop
    → srcva % pg_size ≡ 0
    → page_lookup pgdir srcva k.mem ≡ some (none, k.mem)
    → sys_ipc_try_send envid value srcva perm k ≡ faults
unfolding sys_ipc_try_send
sys_ipc_try_send-unmapped envid c d value srcva perm pgdir k cur space ok listens low aligned look =
    with_env-found envid d false (λ i. try_send i value srcva perm) k ok
    ∙ try_send-low d value srcva perm k listens low aligned
    ∙ send_page-unmapped c d value srcva perm pgdir k cur space look

-- `sys_ipc_recv` with an address from UTOP on, which the comment offers for "no page", or with one
-- that is not aligned, returns -E_INVAL at once, but leaves the caller c marked as receiving.
pub sys_ipc_recv-invalid :
    (c dstva : ℕ) (k : Kernel)
    → k.curenv ≡ some c
    → (utop ≤ dstva) ⊎ (dstva % pg_size ≢ 0)
    → (k' : Kernel) × (sys_ipc_recv dstva k ≡ returns (err inval) k')
      × ((k'.envs c).env_ipc_recving ≡ true)
      × ((k'.envs c).env_status ≡ (k.envs c).env_status)
unfolding sys_ipc_recv
sys_ipc_recv-invalid c dstva k cur bad = (start_recv c k, ground arith, ground arith, ground arith)
