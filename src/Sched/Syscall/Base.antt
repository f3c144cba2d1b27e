-- ===== src/Sched/Syscall/Base.antt =====
-- What the system calls of sched/kern/syscall.c share: the look-up of an environment with an early
-- return, the page directory of an environment, and `user_mem_assert` of sched/kern/pmap.c.
use sistemas_operativos.Prelude.{ℕ, Bool, Option, none, some}
use sistemas_operativos.Sched.Memory.Defs.{Ret, val, err, or_u}
use sistemas_operativos.Sched.Memory.Tables.{Check, granted, denied, user_mem_check}
use sistemas_operativos.Sched.Kernel.{returns, panics, K, ◌>>=◌, deref}
use sistemas_operativos.Sched.Env.Table.{envid2env}
use sistemas_operativos.Sched.Env.Free.{env_destroy}

-- `if ((r = envid2env(…))) return r;` before the rest.
abbrev pub found : (ℕ → K Ret) → Ret × Option ℕ → K Ret
found rest (err x, _) k = returns (err x) k
found rest (val _, e) k = (deref e >>= rest) k

abbrev pub with_env : ℕ → Bool → (ℕ → K Ret) → K Ret
with_env envid checkperm rest = envid2env envid checkperm >>= found rest

-- `curenv`, followed.
abbrev pub current : K ℕ
current k = deref k.curenv k

-- `e->env_pgdir`. A walk from a null directory is a fault.
abbrev pub pgdir_of : ℕ → K ℕ
pgdir_of i k = deref (k.envs i).env_pgdir k

abbrev on_check : ℕ → Option Check → K (Unit {0})
on_check i none k = panics
on_check i (some granted) k = returns tt k
on_check i (some (denied _)) k = env_destroy i k

-- It returns if the check passes, and also after it has destroyed another environment.
unfoldable pub user_mem_assert : ℕ → ℕ → ℕ → ℕ → K (Unit {0})
user_mem_assert i va len perm = do
  pgdir ← pgdir_of i
  λ k. on_check i (user_mem_check pgdir va len (or_u perm) k.mem) k
