-- ===== src/Sched/Trap/Examples.antt =====
-- The theorems on sched/kern/trap.c at concrete inputs.
use sistemas_operativos.Prelude.{ℕ, ◌==◌, List, if◌then◌else◌}
use sistemas_operativos.Sched.Memory.Defs.{Mem}
use sistemas_operativos.Sched.Memory.Examples.{small}
use sistemas_operativos.Sched.Kernel.{Trapframe, Kernel, put_env}
use sistemas_operativos.Sched.Examples.{frame0, kernel}

-- A frame from user mode with a trap number.
abbrev trapped : ℕ → ℕ → Trapframe
trapped trapno esp = record frame0 {
  tf_cs = 27;
  tf_esp = esp;
  other = λ (i : ℕ). if i == 7 then trapno else 0;
}

-- A store that keeps memory as it is.
abbrev no_store : ℕ → List ℕ → Mem → Mem
no_store va words m = m

-- The page of the exception stack is mapped in page directory 3.
abbrev with_stack : Mem
with_stack = record small {
  frame = λ (f : ℕ) (i : ℕ).
      if f == 3 then (if i == 954 then 0x1007 else 0) else if f == 1 then 0x2007 else 0;
}

abbrev faulting : ℕ → Kernel
faulting esp =
    record (put_env 0
      (record (kernel.envs 0) { env_tf = trapped 14 esp; env_pgfault_upcall = 0x80_0000 }) kernel) {
        mem = with_stack;
      }
