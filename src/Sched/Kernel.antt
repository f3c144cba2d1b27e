-- ===== src/Sched/Kernel.antt =====
-- The state that the functions of sched/kern/env.c, sched.c and syscall.c share, as one CPU sees it
-- while it holds the kernel lock, and the monad of the functions over it. A `struct Env *` is an
-- index into `envs`.
use sistemas_operativos.Prelude.{ℕ, ◌%◌, Bool, true, false, Option, none, some, ◌==◌, update}
use sistemas_operativos.Sched.Memory.Defs.{Mem, M}

-- The values of `env_status`.
pub data Status : Type 0 where
  free dying runnable running not_runnable : Status

-- `struct Trapframe`: the fields that the kernel sets, and the rest by number.
pub record Trapframe : Type 0 where
  pub reg_eax : ℕ
  pub tf_ds : ℕ
  pub tf_es : ℕ
  pub tf_ss : ℕ
  pub tf_esp : ℕ
  pub tf_cs : ℕ
  pub tf_eip : ℕ
  pub tf_eflags : ℕ
  pub other : ℕ → ℕ

-- `struct Env`. An `envid_t` and the IPC words are 32-bit patterns.
pub record Env : Type 0 where
  pub env_tf : Trapframe
  pub env_link : Option ℕ
  pub env_id : ℕ
  pub env_parent_id : ℕ
  pub env_type : ℕ
  pub env_status : Status
  pub env_runs : ℕ
  pub env_cpunum : ℕ
  pub env_tickets : ℕ
  pub env_pgdir : Option ℕ
  pub env_pgfault_upcall : ℕ
  pub env_ipc_recving : Bool
  pub env_ipc_dstva : ℕ
  pub env_ipc_value : ℕ
  pub env_ipc_from : ℕ
  pub env_ipc_perm : ℕ

-- `struct hist_entry`
pub record HistEntry : Type 0 where
  pub env_id : ℕ
  pub env_tickets : ℕ
  pub env_runs : ℕ

pub record Kernel : Type 0 where
  pub mem : Mem
  pub kern_pgdir : ℕ
  pub cr3 : ℕ
  pub envs : ℕ → Env
  pub env_free_list : Option ℕ
  pub curenv : Option ℕ
  pub cpunum : ℕ
  pub random_seed : ℕ
  pub historial : ℕ → HistEntry
  pub ultima_posicion : ℕ
  pub max_historial_indx : ℕ

-- How a kernel function ends. Three of the ways leave the kernel: into an environment, into the
-- halted CPU, into the monitor. `faults` is an access through a null or an unset pointer.
pub data Outcome (A : Type 0) : Type 0 where
  returns : A → Kernel → Outcome A
  switches : ℕ → Kernel → Outcome A
  halts : Kernel → Outcome A
  monitors : Kernel → Outcome A
  panics : Outcome A
  faults : Outcome A

abbrev pub K : Type 0 → Type 0
K A = Kernel → Outcome A

abbrev pub then_do : {A B : Type 0} → Outcome A → (A → K B) → Outcome B
then_do (returns a k) f = f a k
then_do (switches i k) f = switches i k
then_do (halts k) f = halts k
then_do (monitors k) f = monitors k
then_do panics f = panics
then_do faults f = faults

infixl 5 ◌>>=◌ ◌>>◌
abbrev pub ◌>>=◌ : {A B : Type 0} → K A → (A → K B) → K B
◌>>=◌ m f k = then_do (m k) f

abbrev pub ◌>>◌ : {B : Type 0} → K (Unit {0}) → K B → K B
m >> f = m >>= λ _. f

abbrev pub pure : {A : Type 0} → A → K A
pure a k = returns a k

-- A memory operation inside the kernel.
abbrev pub after_mem : {A : Type 0} → Kernel → Option (A × Mem) → Outcome A
after_mem k none = panics
after_mem k (some (a, m)) = returns a (record k { mem = m })

abbrev pub on_mem : {A : Type 0} → M A → K A
on_mem op k = after_mem k (op k.mem)

-- A pointer that is followed.
abbrev pub deref : Option ℕ → K ℕ
deref none k = faults
deref (some i) k = returns i k

abbrev pub put_env : ℕ → Env → Kernel → Kernel
put_env i e k = record k { envs = update k.envs i e }

abbrev pub set_status : ℕ → Status → Kernel → Kernel
set_status i s k = put_env i (record (k.envs i) { env_status = s }) k

abbrev pub modify : (Kernel → Kernel) → K (Unit {0})
modify f k = returns tt (f k)

abbrev pub nenv : ℕ
nenv = 1024

abbrev pub envx : ℕ → ℕ
envx envid = envid % nenv

abbrev pub is_free : Status → Bool
is_free free = true
is_free _ = false

abbrev pub is_running : Status → Bool
is_running running = true
is_running _ = false

abbrev pub is_runnable : Status → Bool
is_runnable runnable = true
is_runnable _ = false

abbrev pub is_at : Option ℕ → ℕ → Bool
is_at none i = false
is_at (some c) i = c == i
