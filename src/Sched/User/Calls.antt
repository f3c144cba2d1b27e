-- ===== src/Sched/User/Calls.antt =====
-- The system calls and the memory that sched/lib uses, behind the trap instruction.
use sistemas_operativos.Prelude.{ℕ}
use sistemas_operativos.Sched.Memory.Defs.{Ret, val, err}

-- How user code ends: it goes on in a world, it panics, or it does not come back from the kernel.
pub data Back (W A : Type 0) : Type 0 where
  back : A → W → Back W A
  panics : Back W A
  never : Back W A

-- An operation of user code.
abbrev pub U : Type 0 → Type 0 → Type 0
U W A = W → Back W A

abbrev pub go_on : {W A B : Type 0} → Back W A → (A → U W B) → Back W B
go_on (back a w) rest = rest a w
go_on panics rest = panics
go_on never rest = never

infixl 5 ◌>>◌ ◌>>=◌
abbrev pub ◌>>=◌ : {W A B : Type 0} → U W A → (A → U W B) → U W B
◌>>=◌ start rest w = go_on (start w) rest

abbrev pub ◌>>◌ : {W A : Type 0} → U W (Unit {0}) → U W A → U W A
start >> rest = start >>= (λ _. rest)

abbrev pub pure : {W A : Type 0} → A → U W A
pure a w = back a w

-- A call whose error is a panic.
abbrev pub checked : {W : Type 0} → Ret → U W (Unit {0})
checked (val n) w = back tt w
checked (err e) w = panics

abbrev pub must : {W : Type 0} → U W Ret → U W (Unit {0})
must call = do r ← call; checked r

-- `W` is all that the calls change. Environments are identifiers, 0 is the caller; addresses and permissions
-- are numbers.
pub record Calls (W : Type 0) : Type 0 where
  pub uvpd : W → ℕ → ℕ
  pub uvpt : W → ℕ → ℕ
  pub sys_page_alloc : ℕ → ℕ → ℕ → U W Ret
  pub sys_page_map : ℕ → ℕ → ℕ → ℕ → ℕ → U W Ret
  pub sys_page_unmap : ℕ → ℕ → U W Ret
  pub sys_exofork : U W Ret
  pub sys_env_set_status : ℕ → ℕ → U W Ret
  pub sys_env_set_pgfault_upcall : ℕ → ℕ → U W Ret
  -- `memmove(to, from, PGSIZE)`
  pub copy_page : ℕ → ℕ → W → W
  -- `thisenv = &envs[ENVX(sys_getenvid())]`, and `thisenv->env_pgfault_upcall`
  pub set_thisenv : W → W
  pub thisenv_upcall : W → ℕ
  -- `_pgfault_handler`, 0 where there is none
  pub handler : W → ℕ
  pub set_handler : ℕ → W → W
