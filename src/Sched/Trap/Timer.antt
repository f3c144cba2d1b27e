-- ===== src/Sched/Trap/Timer.antt =====
-- What a timer interrupt does, in sched/kern/trap.c and sched.c.
use sistemas_operativos.Prelude.{
  ℕ, ◌+◌, ◌≡◌, ◌≢◌, ◌≤◌, ◌<◌, ◌⊎◌, refl, ap, ◌∙◌, true, Option, some, List,
}
use sistemas_operativos.Sched.Memory.Defs.{Mem}
use sistemas_operativos.Sched.Kernel.{running, Trapframe, Kernel, Outcome, returns, then_do}
use sistemas_operativos.Sched.Trap.Dispatch.{
  of_env, put_frame, from_user, charge, trap_dispatch, trap_return, collect_zombie, save_frame,
  trap_user, trap,
}

-- The state with the frame of the interrupted environment saved, and a ticket less.
abbrev ticked : ℕ → Trapframe → Kernel → Kernel
ticked c tf k = charge (put_frame (of_env c) tf k)

-- The state `k1` in which the draw of a tick begins: the interrupted environment `c` has the frame `tf`, and a
-- ticket less if it had more than two; nothing else has changed.
pub record Ticked (c : ℕ) (tf : Trapframe) (k k1 : Kernel) : Type 0 where
  pub interrupted :
      k1.envs c ≡ record (k.envs c) { env_tf = tf; env_tickets = (k1.envs c).env_tickets }
  pub tickets :
      ((2 < (k.envs c).env_tickets) × ((k1.envs c).env_tickets + 1 ≡ (k.envs c).env_tickets))
      ⊎ (((k.envs c).env_tickets ≤ 2) × ((k1.envs c).env_tickets ≡ (k.envs c).env_tickets))
  pub others : (j : ℕ) → j ≢ c → k1.envs j ≡ k.envs j
  pub rest : k1 ≡ record k { envs = k1.envs }

collect_zombie-alive :
    (c : ℕ) (k : Kernel) → (k.envs c).env_status ≡ running → collect_zombie c k ≡ returns tt k
unfolding collect_zombie
collect_zombie-alive c k e = rw (collect_zombie, e) refl

-- A trap from a running environment saves its frame and dispatches with that.
pub trap-of_env :
    (store : ℕ → List ℕ → Mem → Mem) (input cr2 c : ℕ) (tf : Trapframe) (k : Kernel)
    → from_user tf ≡ true
    → k.curenv ≡ some c
    → (k.envs c).env_status ≡ running
    → trap store input cr2 tf k
      ≡ then_do
          (trap_dispatch store input cr2 (of_env c) (put_frame (of_env c) tf k))
          (λ _. trap_return)
unfolding trap trap_user save_frame
trap-of_env store input cr2 c tf k user cur run =
    rw (trap, user)
      (ap (λ (o : Option ℕ). trap_user store input cr2 tf o k) cur
        ∙ ap
            (λ (o : Outcome (Unit {0})).
              then_do (then_do (then_do o (λ _. save_frame tf c)) (trap_dispatch store input cr2))
                (λ _. trap_return))
            (collect_zombie-alive c k run))
