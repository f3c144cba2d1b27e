-- ===== src/Sched/User/Ipc.antt =====
-- sched/lib/ipc.c.
use sistemas_operativos.Prelude.{ℕ, zero, suc, ◌+◌, Bool, true, false, ◌==◌, if◌then◌else◌}
use sistemas_operativos.Sched.Memory.Defs.{Ret, val, err, ipc_not_recv}
use sistemas_operativos.Sched.Memory.Tables.{utop}
use sistemas_operativos.Sched.Kernel.{nenv}
use sistemas_operativos.Sched.User.Calls.{back, panics, U, ◌>>=◌}

-- The calls of ipc.c, what `thisenv` says of a message, and the types and identifiers in `envs`.
pub record IpcCalls (W : Type 0) : Type 0 where
  pub sys_ipc_recv : ℕ → U W Ret
  pub sys_ipc_try_send : ℕ → ℕ → ℕ → ℕ → U W Ret
  pub sys_yield : U W (Unit {0})
  pub env_ipc_from : W → ℕ
  pub env_ipc_perm : W → ℕ
  pub env_ipc_value : W → ℕ
  pub env_type : W → ℕ → ℕ
  pub env_id : W → ℕ → ℕ

-- What `ipc_recv` returns and stores through its two pointers, where they are not null.
pub record Received : Type 0 where
  pub result : Ret
  pub from_env : ℕ
  pub perm : ℕ

-- A null pointer is 0.
abbrev pub page_or_none : ℕ → ℕ
page_or_none pg = if pg == 0 then utop else pg

module _ {W : Type 0} (calls : IpcCalls W) where
  unfoldable pub received : Ret → U W Received
  received (err e) w = back (record { result = err e; from_env = 0; perm = 0 }) w
  received (val zero) w =
      back
        (record {
          result = val (calls.env_ipc_value w);
          from_env = calls.env_ipc_from w;
          perm = calls.env_ipc_perm w;
        })
        w
  received (val (suc n)) w = back (record { result = val (suc n); from_env = 0; perm = 0 }) w

  unfoldable pub ipc_recv : ℕ → U W Received
  ipc_recv pg = do r ← calls.sys_ipc_recv pg; received r

  -- What `ipc_send` does with the result of a try, where `again` is the next round; `false` is a loop that goes
  -- on.
  unfoldable pub after_try : U W Bool → Ret → U W Bool
  after_try again (val n) w = back true w
  after_try again (err ipc_not_recv) w = (calls.sys_yield >>= (λ _. again)) w
  after_try again (err e) w = panics

  unfoldable pub send_loop : ℕ → ℕ → ℕ → ℕ → ℕ → U W Bool
  send_loop zero to_env value pg perm w = back false w
  send_loop (suc fuel) to_env value pg perm w =
      (calls.sys_ipc_try_send to_env value pg perm
          >>= after_try (send_loop fuel to_env value pg perm))
        w

  unfoldable pub ipc_send : ℕ → ℕ → ℕ → ℕ → ℕ → U W Bool
  ipc_send fuel to_env value pg perm = send_loop fuel to_env value (page_or_none pg) perm

  -- The loop of `ipc_find_env` from index `i`.
  unfoldable pub find_env : ℕ → ℕ → ℕ → W → ℕ
  find_env zero i type w = 0
  find_env (suc left) i type w =
      if calls.env_type w i == type then calls.env_id w i else find_env left (i + 1) type w

  unfoldable pub ipc_find_env : ℕ → W → ℕ
  ipc_find_env type w = find_env nenv 0 type w
