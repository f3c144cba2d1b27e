-- ===== src/Sched/User/Send.antt =====
-- The loop of `ipc_send` of sched/lib/ipc.c.
use sistemas_operativos.Prelude.{ℕ, zero, suc, ◌≡◌, ◌≢◌, ◌⊎◌, ◌<◌, refl, Bool, true, ap, ◌∙◌, arith}
use sistemas_operativos.Sched.Memory.Defs.{
  Ret, val, err, Err, bad_env, inval, no_mem, no_free_env, mem_fault, ipc_not_recv,
}
use sistemas_operativos.Sched.User.Calls.{Back, back, panics, go_on}
use sistemas_operativos.Sched.User.Ipc.{IpcCalls, page_or_none, after_try, send_loop, ipc_send}

module _ {W : Type 0} (calls : IpcCalls W) where
  -- The receiver is not ready so many times, with a `sys_yield` after each try, and then takes the message, or the
  -- call fails with another error; and how the sender ends.
  pub data Tries (to_env value addr perm : ℕ) : ℕ → W → Back W Bool → Type 0 where
    taken :
        (w w' : W) (n : ℕ)
        → calls.sys_ipc_try_send to_env value addr perm w ≡ back (val n) w'
        → Tries to_env value addr perm 0 w (back true w')
    failed :
        (w w' : W) (e : Err)
        → e ≢ ipc_not_recv
        → calls.sys_ipc_try_send to_env value addr perm w ≡ back (err e) w'
        → Tries to_env value addr perm 0 w panics
    not_yet :
        (k : ℕ) (w w1 w2 : W) (end : Back W Bool)
        → calls.sys_ipc_try_send to_env value addr perm w ≡ back (err ipc_not_recv) w1
        → calls.sys_yield w1 ≡ back tt w2
        → Tries to_env value addr perm k w2 end
        → Tries to_env value addr perm (suc k) w end

  after_try-failed :
      (again : W → Back W Bool) (e : Err) (w : W)
      → e ≢ ipc_not_recv
      → after_try calls again (err e) w ≡ panics
  unfolding after_try
  after_try-failed again bad_env w ne = refl
  after_try-failed again inval w ne = refl
  after_try-failed again no_mem w ne = refl
  after_try-failed again no_free_env w ne = refl
  after_try-failed again mem_fault w ne = refl
  after_try-failed again ipc_not_recv w ne = absurd (ne refl)

  send_loop-Tries :
      (to_env value addr perm k fuel : ℕ) (w : W) (end : Back W Bool)
      → Tries to_env value addr perm k w end
      → k < fuel
      → send_loop calls fuel to_env value addr perm w ≡ end
  unfolding send_loop after_try
  send_loop-Tries to_env value addr perm k zero w end t lt = absurd (omega (arith, lt))
  send_loop-Tries to_env value addr perm _ (suc fuel) _ _ (taken w w' n e) lt =
      ap
        (λ (b : Back W Ret).
          go_on b (after_try calls (send_loop calls fuel to_env value addr perm)))
        e
      ∙ refl
  send_loop-Tries to_env value addr perm _ (suc fuel) _ _ (failed w w' x ne e) lt =
      ap
        (λ (b : Back W Ret).
          go_on b (after_try calls (send_loop calls fuel to_env value addr perm)))
        e
      ∙ after_try-failed (send_loop calls fuel to_env value addr perm) x w' ne
  send_loop-Tries to_env value addr perm _ (suc fuel) _ _ (not_yet k w w1 w2 end e y t) lt =
      ap
        (λ (b : Back W Ret).
          go_on b (after_try calls (send_loop calls fuel to_env value addr perm)))
        e
      ∙ (ap (λ (b : Back W (Unit {0})). go_on b (λ _. send_loop calls fuel to_env value addr perm))
          y)
      ∙ send_loop-Tries to_env value addr perm k fuel w2 end t (omega (arith, lt))

  -- The address that `ipc_send` has to send: that of the page, or UTOP where there is none.
  abbrev pub Sends : ℕ → ℕ → Type 0
  Sends pg addr = ((pg ≡ 0) × (addr ≡ 0xeec00000)) ⊎ ((pg ≢ 0) × (addr ≡ pg))

  -- `ipc_send` of a page, or without one of the address UTOP: if the receiver is not ready k times, with the
  -- sender yielding after each try, and then the call succeeds or fails with another error, the loop ends with more
  -- than k rounds. It returns in the world after the last try where that succeeded, and panics where it failed.
  pub ipc_send-Tries :
      (to_env value pg addr perm k fuel : ℕ) (w : W) (end : Back W Bool)
      → Sends pg addr
      → Tries to_env value addr perm k w end
      → k < fuel
      → ipc_send calls fuel to_env value pg perm w ≡ end
  unfolding ipc_send
  ipc_send-Tries to_env value pg addr perm k fuel w end sends t lt =
      ap (λ (a : ℕ). send_loop calls fuel to_env value a perm w) same
      ∙ send_loop-Tries to_env value addr perm k fuel w end t lt
    where
      same : page_or_none pg ≡ addr
      same = ground (arith, sends)
