-- ===== src/Sched/Lock/System.antt =====
-- The CPUs of the kernel and their lock: from `lock_kernel` in i386_init and mp_main (init.c), through `trap`
-- (trap.c), to `unlock_kernel` in env_run (env.c) and sched_halt (sched.c).
use sistemas_operativos.Prelude.{ℕ, Bool, true, false, ◌==◌, if◌then◌else◌, update}
use sistemas_operativos.Sched.Lock.{
  Spinlock, kernel_lock, Stack, Outcome, goes_on, returns, panics, LockAt, spin_lock, UnlockAt,
  spin_unlock,
}

-- `cpu_status`
pub data CpuStatus : Type 0 where
  cpu_unused cpu_started cpu_halted : CpuStatus

-- Where a trap came from, as `tf->tf_cs & 3` tells it.
pub data Mode : Type 0 where
  user kernel : Mode

-- What the kernel does with the lock released: it enters an environment, or halts.
pub data Leave : Type 0 where
  to_env to_halt : Leave

-- Where a CPU is. `locking` is inside `spin_lock`, and `none` or the test of the trap's mode comes next.
pub data Stage : Type 0 where
  -- in i386_init before its `lock_kernel`, and in mp_main before it has said that it is up
  booting starting : Stage
  -- in an environment, and in the loop around `hlt`
  running halted : Stage
  -- at the xchg of `trap`, and at its test of tf_cs
  trapped testing : Mode → Stage
  -- in `spin_lock` that the xchg of `trap` led to, and in that of all others
  relocking : Mode → LockAt → Stage
  locking : LockAt → Stage
  -- in the kernel with the lock
  inside : Stage
  unlocking : Leave → UnlockAt → Stage
  -- in the panic of `spin_lock` or `spin_unlock`
  panicked : Stage

-- `cpu_status` of `struct CpuInfo`, with where the CPU is.
pub record Cpu : Type 0 where
  pub status : CpuStatus
  pub stage : Stage

-- What a CPU in the kernel does next: a trap inside the kernel, `env_run`, or `sched_halt`.
pub data Choice : Type 0 where
  nested leaving halting : Choice

unfoldable pub is_halted : CpuStatus → Bool
is_halted CpuStatus.cpu_halted = true
is_halted _ = false

-- The `lock_kernel()` of `trap` for a trap from user mode.
unfoldable pub test_mode : Mode → Stage
test_mode Mode.user = locking LockAt.read_locked
test_mode Mode.kernel = inside

unfoldable pub after_unlock : Leave → Stage
after_unlock Leave.to_env = running
after_unlock Leave.to_halt = halted

-- How a caller goes on, by the place inside the function and by its return.
unfoldable pub go_on_from :
    {A : Type 0} → CpuStatus → (A → Stage) → Stage → Outcome A × Spinlock → Spinlock × Cpu
go_on_from status at back (goes_on a, lk) = (lk, record { status = status; stage = at a })
go_on_from status at back (returns, lk) = (lk, record { status = status; stage = back })
go_on_from status at back (panics, lk) = (lk, record { status = status; stage = panicked })

unfoldable pub leave_kernel : CpuStatus → Choice → Cpu
leave_kernel status nested = record { status = status; stage = trapped Mode.kernel }
leave_kernel status leaving = record {
  status = status;
  stage = unlocking Leave.to_env UnlockAt.read_locked;
}
leave_kernel status halting = record {
  status = CpuStatus.cpu_halted;
  stage = unlocking Leave.to_halt UnlockAt.read_locked;
}

-- `xchg(&thiscpu->cpu_status, CPU_STARTED) == CPU_HALTED`
unfoldable pub enter_trap : CpuStatus → Mode → Cpu
enter_trap status mode = record {
  status = CpuStatus.cpu_started;
  stage = if is_halted status then relocking mode LockAt.read_locked else testing mode;
}

-- The next access of CPU `i` to the lock or to its status.
unfoldable pub advance : Stack → Choice → ℕ → Spinlock → CpuStatus → Stage → Spinlock × Cpu
advance stack c i lk status booting =
    (lk, record { status = status; stage = locking LockAt.read_locked })
advance stack c i lk status starting =
    (lk, record { status = CpuStatus.cpu_started; stage = locking LockAt.read_locked })
advance stack c i lk status running = (lk, record { status = status; stage = trapped Mode.user })
advance stack c i lk status halted = (lk, record { status = status; stage = trapped Mode.kernel })
advance stack c i lk status (trapped mode) = (lk, enter_trap status mode)
advance stack c i lk status (testing mode) =
    (lk, record { status = status; stage = test_mode mode })
advance stack c i lk status (relocking mode a) =
    go_on_from status (relocking mode) (testing mode) (spin_lock stack i a lk)
advance stack c i lk status (locking a) = go_on_from status locking inside (spin_lock stack i a lk)
advance stack c i lk status inside = (lk, leave_kernel status c)
advance stack c i lk status (unlocking leave a) =
    go_on_from status (unlocking leave) (after_unlock leave) (spin_unlock i a lk)
advance stack c i lk status panicked = (lk, record { status = status; stage = panicked })

pub record Machine : Type 0 where
  pub lock : Spinlock
  pub cpus : ℕ → Cpu

unfoldable pub step : Stack → Choice → ℕ → Machine → Machine
step stack c i s =
    let (lk, cpu) = advance stack c i s.lock (s.cpus i).status (s.cpus i).stage in
    record { lock = lk; cpus = update s.cpus i cpu }

-- CPU `boot` runs i386_init, and all others come from mp_main.
unfoldable pub start_cpu : ℕ → ℕ → Cpu
start_cpu boot i =
    if i == boot
    then record { status = CpuStatus.cpu_started; stage = booting }
    else record { status = CpuStatus.cpu_unused; stage = starting }

abbrev pub power_on : ℕ → Machine
power_on boot = record { lock = kernel_lock; cpus = start_cpu boot }

-- What the CPUs reach when they take turns in any order.
pub data Reach (boot : ℕ) : Machine → Type 0 where
  start : Reach boot (power_on boot)
  later :
      {s : Machine} (stack : Stack) (c : Choice) (i : ℕ)
      → Reach boot s
      → Reach boot (step stack c i s)
