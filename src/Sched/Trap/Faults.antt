-- ===== src/Sched/Trap/Faults.antt =====
-- What `page_fault_handler` of sched/kern/trap.c does with a fault in user mode.
use sistemas_operativos.Prelude.{
  ℕ, ◌+◌, ◌%◌, ◌≡◌, ◌<◌, ◌≤◌, ◌≢◌, ◌⊎◌, refl, ap, ◌∙◌, true, false, ◌||◌, Option, some, List, ltb,
  ◌==◌, arith,
}
use sistemas_operativos.Sched.Memory.Defs.{Mem, or_u}
use sistemas_operativos.Sched.Memory.Tables.{user_mem_check, granted}
use sistemas_operativos.Sched.Kernel.{
  deref, Trapframe, Kernel, Outcome, returns, panics, ◌>>=◌, then_do, put_env, modify,
}
use sistemas_operativos.Sched.Syscall.Base.{user_mem_assert}
use sistemas_operativos.Sched.Trap.Dispatch.{
  handle_fault, user_fault, of_env, exstk, exstk_top, utrapframe_size, first_fault, frame_address,
  push_frame, enter_upcall, upcall, page_fault_handler,
}

-- The frame has room on the exception stack: it is the first one, or below another one in the page.
abbrev pub HasRoom : Trapframe → Type 0
HasRoom tf = (first_fault tf ≡ true) ⊎ (exstk + 4 + utrapframe_size ≤ tf.tf_esp)

-- The state before the environment goes on in its upcall.
abbrev pub to_upcall : (ℕ → List ℕ → Mem → Mem) → ℕ → ℕ → Trapframe → Kernel → Kernel
to_upcall store cr2 c tf k =
    put_env c
      (record (k.envs c) {
        env_tf = record tf { tf_esp = frame_address tf; tf_eip = (k.envs c).env_pgfault_upcall };
      })
      (push_frame store cr2 tf k)

module _ (store : ℕ → List ℕ → Mem → Mem) (cr2 c p : ℕ) (k : Kernel)
    (current_env : k.curenv ≡ some c) (space : (k.envs c).env_pgdir ≡ some p)
    (has_upcall : (k.envs c).env_pgfault_upcall ≢ 0)
    (writeable : user_mem_check p exstk 4096 (or_u 6) k.mem ≡ some granted) where
  user_mem_assert-granted : user_mem_assert c exstk 4096 6 k ≡ returns tt k
  unfolding user_mem_assert
  user_mem_assert-granted = rw (user_mem_assert, ◌>>=◌, space, writeable) refl

  user_fault-granted :
      (tf : Trapframe) → user_fault store cr2 tf c k ≡ enter_upcall c tf (push_frame store cr2 tf k)
  unfolding user_fault upcall
  user_fault-granted tf =
      let taken : ((k.envs c).env_pgfault_upcall == 0) ≡ false = ground (arith, has_upcall) in
      rw (user_fault, taken)
        (ap
          (λ (o : Outcome (Unit {0})).
            then_do (then_do o (λ _. modify (push_frame store cr2 tf))) (λ _. enter_upcall c tf))
          user_mem_assert-granted)

  handler_to_upcall :
      (tf : Trapframe)
      → tf.tf_cs % 4 ≡ 3
      → (k.envs c).env_tf ≡ tf
      → page_fault_handler store cr2 (of_env c) k ≡ enter_upcall c tf (push_frame store cr2 tf k)
  unfolding page_fault_handler handle_fault
  handler_to_upcall tf user frame =
      ap (λ (t : Trapframe). handle_fault store cr2 t k) frame
      ∙ (rw (handle_fault, user)
          (ap (λ (o : Option ℕ). then_do (deref o k) (user_fault store cr2 tf)) current_env
            ∙ user_fault-granted tf))

-- In the same situation a fault inside the handler whose frame does not fit into the page any more, although the
-- stack pointer is still in it, makes the kernel panic.
pub page_fault_handler-overflow :
    (store : ℕ → List ℕ → Mem → Mem) (cr2 c p : ℕ) (tf : Trapframe) (k : Kernel)
    → k.curenv ≡ some c
    → (k.envs c).env_tf ≡ tf
    → (k.envs c).env_pgdir ≡ some p
    → (k.envs c).env_pgfault_upcall ≢ 0
    → user_mem_check p exstk 4096 (or_u 6) k.mem ≡ some granted
    → tf.tf_cs % 4 ≡ 3
    → exstk ≤ tf.tf_esp
    → tf.tf_esp < exstk + 4 + utrapframe_size
    → page_fault_handler store cr2 (of_env c) k ≡ panics
unfolding enter_upcall
page_fault_handler-overflow store cr2 c p tf k cur frame space has_upcall writeable user low high =
    let outside : (ltb (frame_address tf) exstk || ltb exstk_top (frame_address tf)) ≡ true =
      ground (arith, low, high) in
    handler_to_upcall store cr2 c p k cur space has_upcall writeable tf user frame
    ∙ rw (enter_upcall, outside) refl
