-- ===== src/Sched/Lock.antt =====
-- sched/kern/spinlock.c, one access to the lock at a time, and the places where a CPU takes and releases the
-- kernel lock: i386_init and mp_main of init.c, trap of trap.c, env_run of env.c and sched_halt of sched.c.
pub mod System
pub mod Exclusion
pub mod Examples
use sistemas_operativos.Prelude.{
  ℕ, zero, suc, ◌+◌, ◌*◌, Bool, true, false, ◌||◌, not, Option, none, some, ltb, ◌==◌,
  if◌then◌else◌, update,
}

-- `struct spinlock`, with the index of the CPU for `cpu`; `locked` is only ever 0 or 1.
pub record Spinlock : Type 0 where
  pub locked : Bool
  pub cpu : Option ℕ
  pub pcs : ℕ → ℕ

abbrev pub kernel_lock : Spinlock
kernel_lock = record { locked = false; cpu = none; pcs = λ _. 0 }

-- What a CPU finds when it records its call stack: `read_ebp()`, and the words of memory by their address.
pub record Stack : Type 0 where
  pub ebp : ℕ
  pub word : ℕ → ℕ

abbrev pub ulim : ℕ
ulim = 0xef800000

-- `get_caller_pcs` with `left` of its ten rounds left, from round `i` on: behind a `break` all are 0.
unfoldable pub get_caller_pcs : ℕ → ℕ → Stack → (ℕ → ℕ) → ℕ → ℕ
get_caller_pcs zero i stack pcs = pcs
get_caller_pcs (suc left) i stack pcs =
    if stack.ebp == 0 || ltb stack.ebp ulim
    then get_caller_pcs left (i + 1) (record { ebp = 0; word = stack.word }) (update pcs i 0)
    else get_caller_pcs left (i + 1) (record { ebp = stack.word stack.ebp; word = stack.word })
        (update pcs i (stack.word (stack.ebp + 4)))

-- `lock->cpu == thiscpu`
unfoldable pub is_cpu : Option ℕ → ℕ → Bool
is_cpu none i = false
is_cpu (some j) i = j == i

-- How an access ends: the function goes on at another place, returns or panics.
pub data Outcome (A : Type 0) : Type 0 where
  goes_on : A → Outcome A
  returns : Outcome A
  panics : Outcome A

-- The places of `spin_lock`: the two reads of `holding`, the xchg, and the two stores behind it.
pub data LockAt : Type 0 where
  read_locked read_cpu exchange store_cpu store_pcs : LockAt

unfoldable pub spin_lock : Stack → ℕ → LockAt → Spinlock → Outcome LockAt × Spinlock
spin_lock stack i LockAt.read_locked lk =
    (goes_on (if lk.locked then LockAt.read_cpu else LockAt.exchange), lk)
spin_lock stack i LockAt.read_cpu lk =
    (if is_cpu lk.cpu i then panics else goes_on LockAt.exchange, lk)
spin_lock stack i LockAt.exchange lk =
    (goes_on (if lk.locked then LockAt.exchange else LockAt.store_cpu), record lk { locked = true })
spin_lock stack i LockAt.store_cpu lk = (goes_on LockAt.store_pcs, record lk { cpu = some i })
spin_lock stack i LockAt.store_pcs lk =
    (returns, record lk { pcs = get_caller_pcs 10 0 stack lk.pcs })

-- The places of `spin_unlock`: `holding`, the two stores and the xchg.
pub data UnlockAt : Type 0 where
  read_locked read_cpu clear_pcs clear_cpu exchange : UnlockAt

unfoldable pub spin_unlock : ℕ → UnlockAt → Spinlock → Outcome UnlockAt × Spinlock
spin_unlock i UnlockAt.read_locked lk =
    (if lk.locked then goes_on UnlockAt.read_cpu else panics, lk)
spin_unlock i UnlockAt.read_cpu lk =
    (if is_cpu lk.cpu i then goes_on UnlockAt.clear_pcs else panics, lk)
spin_unlock i UnlockAt.clear_pcs lk =
    (goes_on UnlockAt.clear_cpu, record lk { pcs = update lk.pcs 0 0 })
spin_unlock i UnlockAt.clear_cpu lk = (goes_on UnlockAt.exchange, record lk { cpu = none })
spin_unlock i UnlockAt.exchange lk = (returns, record lk { locked = false })
