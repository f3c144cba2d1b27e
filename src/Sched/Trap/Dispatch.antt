-- ===== src/Sched/Trap/Dispatch.antt =====
-- `trap`, `trap_dispatch` and `page_fault_handler` of sched/kern/trap.c. The lock, the state of the CPU
-- and what is printed are left out. `store` is what the hardware does with a list of words that the
-- kernel writes at a user's address; `cr2` is the register with the address of a fault, `input` what the
-- console would give to a system call.
use sistemas_operativos.Prelude.{
  ℕ, ◌-◌, ◌%◌, ◌^◌, Bool, true, false, ◌||◌, Option, none, some, List, [], ◌∷◌, ltb, ◌==◌,
  if◌then◌else◌,
}
use sistemas_operativos.Sched.Memory.Defs.{
  Mem, Err, bad_env, inval, no_mem, no_free_env, mem_fault, ipc_not_recv, Ret, val, err,
}
use sistemas_operativos.Sched.Kernel.{
  Status, dying, Trapframe, Kernel, returns, panics, monitors, K, ◌>>=◌, ◌>>◌, put_env, is_running,
  modify,
}
use sistemas_operativos.Sched.Env.Run.{env_run}
use sistemas_operativos.Sched.Env.Free.{env_free, env_destroy}
use sistemas_operativos.Sched.Yield.{sched_yield}
use sistemas_operativos.Sched.Syscall.Base.{current, user_mem_assert}
use sistemas_operativos.Sched.Syscall.{syscall}

-- The numbers under which the fields of a frame that the kernel does not set are kept.
abbrev pub reg_edi : Trapframe → ℕ
reg_edi tf = tf.other 0

abbrev pub reg_esi : Trapframe → ℕ
reg_esi tf = tf.other 1

abbrev pub reg_ebp : Trapframe → ℕ
reg_ebp tf = tf.other 2

abbrev pub reg_oesp : Trapframe → ℕ
reg_oesp tf = tf.other 3

abbrev pub reg_ebx : Trapframe → ℕ
reg_ebx tf = tf.other 4

abbrev pub reg_edx : Trapframe → ℕ
reg_edx tf = tf.other 5

abbrev pub reg_ecx : Trapframe → ℕ
reg_ecx tf = tf.other 6

abbrev pub tf_trapno : Trapframe → ℕ
tf_trapno tf = tf.other 7

abbrev pub tf_err : Trapframe → ℕ
tf_err tf = tf.other 8

abbrev pub from_user : Trapframe → Bool
from_user tf = tf.tf_cs % 4 == 3

-- The frame on the kernel's stack, or the one of an environment.
pub data FrameAt : Type 0 where
  on_stack : Trapframe → FrameAt
  of_env : ℕ → FrameAt

abbrev pub frame_at : FrameAt → Kernel → Trapframe
frame_at (on_stack tf) k = tf
frame_at (of_env i) k = (k.envs i).env_tf

-- The frame on the stack is not looked at again.
abbrev pub put_frame : FrameAt → Trapframe → Kernel → Kernel
put_frame (on_stack _) tf k = k
put_frame (of_env i) tf k = put_env i (record (k.envs i) { env_tf = tf }) k

-- The result of a system call, as 32 bits.
abbrev pub error_code : Err → ℕ
error_code bad_env = 2
error_code inval = 3
error_code no_mem = 4
error_code no_free_env = 5
error_code mem_fault = 6
error_code ipc_not_recv = 7

abbrev pub eax_of : Ret → ℕ
eax_of (val n) = n
eax_of (err e) = 2 ^ 32 - error_code e

abbrev pub uxstacktop : ℕ
uxstacktop = 0xeec0_0000

abbrev pub exstk : ℕ
exstk = uxstacktop - 4096

abbrev pub exstk_top : ℕ
exstk_top = uxstacktop - 1

-- `sizeof(struct UTrapframe)`
abbrev pub utrapframe_size : ℕ
utrapframe_size = 52

-- `struct UTrapframe`, word by word.
abbrev pub utrapframe : ℕ → Trapframe → List ℕ
utrapframe fault_va tf =
    fault_va
    ∷ tf_err tf
    ∷ reg_edi tf
    ∷ reg_esi tf
    ∷ reg_ebp tf
    ∷ reg_oesp tf
    ∷ reg_ebx tf
    ∷ reg_edx tf
    ∷ reg_ecx tf
    ∷ tf.reg_eax
    ∷ tf.tf_eip
    ∷ tf.tf_eflags
    ∷ tf.tf_esp
    ∷ []

-- The trap did not come from the exception stack.
abbrev pub first_fault : Trapframe → Bool
first_fault tf = ltb tf.tf_esp exstk || ltb exstk_top tf.tf_esp

-- Where the frame for the upcall goes.
abbrev pub frame_address : Trapframe → ℕ
frame_address tf =
    if first_fault tf then exstk_top - utrapframe_size else tf.tf_esp - 4 - utrapframe_size

-- The system call gets its number and arguments from the frame, and its result goes into eax.
unfoldable pub trap_syscall : ℕ → FrameAt → K (Unit {0})
trap_syscall input at k =
    let tf = frame_at at k in
    (syscall tf.reg_eax input (reg_edx tf) (reg_ecx tf) (reg_ebx tf) (reg_edi tf) (reg_esi tf)
        >>= λ r k'. returns tt (put_frame at (record (frame_at at k') { reg_eax = eax_of r }) k'))
      k

-- A tick costs the current environment a ticket, as long as it has more than two.
abbrev pub charge : Kernel → Kernel
charge k = elim k.curenv [
  | none ↦ k
  | some c ↦
      if ltb 2 (k.envs c).env_tickets
      then put_env c (record (k.envs c) { env_tickets = (k.envs c).env_tickets - 1 }) k
      else k
]

unfoldable pub trap_timer : K (Unit {0})
trap_timer k = sched_yield (charge k)

-- "Unexpected trap"
unfoldable pub trap_unexpected : FrameAt → K (Unit {0})
trap_unexpected at k = if (frame_at at k).tf_cs == 8 then panics else (current >>= env_destroy) k

-- Back to the current environment if that still runs, and to the scheduler otherwise.
unfoldable pub trap_return : K (Unit {0})
trap_return k = elim k.curenv [
  | none ↦ sched_yield k
  | some c ↦ if is_running (k.envs c).env_status then env_run c k else sched_yield k
]

abbrev pub is_dying : Status → Bool
is_dying dying = true
is_dying _ = false

-- "Garbage collect if current enviroment is a zombie"
unfoldable pub collect_zombie : ℕ → K (Unit {0})
collect_zombie c k =
    if is_dying (k.envs c).env_status
    then (env_free c >> modify (λ (k' : Kernel). record k' { curenv = none }) >> sched_yield) k
    else returns tt k

-- The frame is copied into the environment's own, where it is used from here on.
unfoldable pub save_frame : Trapframe → ℕ → K FrameAt
save_frame tf c k = returns (of_env c) (put_frame (of_env c) tf k)

-- From the check of the stack on: `tf` is the frame of the environment `c`.
unfoldable pub enter_upcall : ℕ → Trapframe → K (Unit {0})
enter_upcall c tf k =
    if ltb (frame_address tf) exstk || ltb exstk_top (frame_address tf)
    then panics
    else env_run c (
        put_env c
          (record (k.envs c) {
            env_tf = record tf {
              tf_esp = frame_address tf;
              tf_eip = (k.envs c).env_pgfault_upcall;
            };
          })
          k)

module _ (store : ℕ → List ℕ → Mem → Mem) where
  -- The writes to the exception stack: the scratch word of a fault inside the handler, and the frame.
  abbrev pub push_frame : ℕ → Trapframe → Kernel → Kernel
  push_frame fault_va tf k =
      let m = (if first_fault tf then k.mem else store (tf.tf_esp - 4) (0 ∷ []) k.mem) in
      record k { mem = store (frame_address tf) (utrapframe fault_va tf) m }

  unfoldable pub upcall : ℕ → ℕ → Trapframe → K (Unit {0})
  upcall cr2 c tf =
      user_mem_assert c exstk 4096 6 >> modify (push_frame cr2 tf) >> enter_upcall c tf

  -- A fault in user mode, with the frame `tf` of the current environment `c`.
  unfoldable pub user_fault : ℕ → Trapframe → ℕ → K (Unit {0})
  user_fault cr2 tf c k =
      if (k.envs c).env_pgfault_upcall == 0 then env_destroy c k else upcall cr2 c tf k

  unfoldable pub handle_fault : ℕ → Trapframe → K (Unit {0})
  handle_fault cr2 tf k = if tf.tf_cs % 4 == 0 then panics else (current >>= user_fault cr2 tf) k

  unfoldable pub page_fault_handler : ℕ → FrameAt → K (Unit {0})
  page_fault_handler cr2 at k = handle_fault cr2 (frame_at at k) k

  unfoldable pub trap_dispatch : ℕ → ℕ → FrameAt → K (Unit {0})
  trap_dispatch input cr2 at k =
      let trapno = tf_trapno (frame_at at k) in
      if trapno == 3
      then monitors k
      else if trapno == 14
      then page_fault_handler cr2 at k
      else if trapno == 48
      then trap_syscall input at k
      else if trapno == 39
      then returns tt k
      else if trapno == 32
      then trap_timer k
      else trap_unexpected at k

  -- A trap from user mode, where an environment must be current.
  unfoldable pub trap_user : ℕ → ℕ → Trapframe → Option ℕ → K (Unit {0})
  trap_user input cr2 tf none = λ k. panics
  trap_user input cr2 tf (some c) =
      collect_zombie c >> save_frame tf c >>= trap_dispatch input cr2 >> trap_return

  unfoldable pub trap : ℕ → ℕ → Trapframe → K (Unit {0})
  trap input cr2 tf k =
      if from_user tf
      then trap_user input cr2 tf k.curenv k
      else (trap_dispatch input cr2 (on_stack tf) >> trap_return) k
