-- ===== src/Sched/Syscall/Examples.antt =====
-- The theorems on sched/kern/syscall.c at concrete inputs.
use sistemas_operativos.Prelude.{
  ◌<◌, ◌+◌, ◌*◌, ◌⊎◌, ◌≡◌, refl, true, false, none, some, [], ◌∷◌, arith, bit_or,
}
use sistemas_operativos.Sched.Memory.Defs.{
  or_p, pg_size, val, pte_w, page_alloc, page_decref, page_free, pgdir_walk, make_table, find_entry,
}
use sistemas_operativos.Sched.Memory.Tables.{
  utop, page_lookup, lookup_entry, page_insert, insert_entry, page_remove, drop_entry,
}
use sistemas_operativos.Sched.Memory.Examples.{small, small-HasFree, inserted, lookup_inserted}
use sistemas_operativos.Sched.Examples.{kernel}
use sistemas_operativos.Sched.Kernel.{
  Kernel, Outcome, returns, switches, halts, monitors, faults, panics,
}
use sistemas_operativos.Sched.Env.Table.{envid2env, next_generation}
use sistemas_operativos.Sched.Syscall.Rights.{sys_exofork_lem, env_page_map-writeable, Forked}
use sistemas_operativos.Sched.Syscall.Messages.{sys_ipc_try_send-delivers, Delivered}
use sistemas_operativos.Sched.Syscall.Envs.{sys_exofork}
use sistemas_operativos.Sched.Syscall.Pages.{env_page_map}
use sistemas_operativos.Sched.Syscall.Ipc.{sys_ipc_try_send}

sys_exofork_example :
    (k' : Kernel) × (sys_exofork kernel ≡ returns (val (bit_or (next_generation 0) 2)) k')
    × Forked 0 2 1 kernel k'
sys_exofork_example =
    sys_exofork_lem 0 2 1 (2 ∷ []) kernel refl (λ e. omega (arith, e)) refl small-HasFree

found_child : envid2env 4097 false kernel ≡ returns (val 0, some 1) kernel
unfolding envid2env
found_child = refl

sys_ipc_try_send-delivers_example :
    (k' : Kernel) × (sys_ipc_try_send 4097 5 utop 0 kernel ≡ returns (val 0) k')
    × Delivered 0 1 5 kernel k'
sys_ipc_try_send-delivers_example =
    sys_ipc_try_send-delivers 4097 0 1 5 utop 0 kernel refl found_child refl (omega arith)

unmapped : page_lookup 3 0 small ≡ some (none, small)
unfolding page_lookup pgdir_walk make_table find_entry lookup_entry
unmapped = refl

-- Page 0 is mapped at the address 0 with permissions 7.
abbrev mapped : Kernel
mapped = record kernel { mem = inserted }

abbrev kernel_of : {A : Type 0} → Outcome A → Kernel
kernel_of (returns _ k) = k
kernel_of (switches _ k) = k
kernel_of (halts k) = k
kernel_of (monitors k) = k
kernel_of panics = kernel
kernel_of faults = kernel

abbrev mapped_twice : Kernel
mapped_twice = kernel_of (env_page_map 0 0 0 4096 7 mapped)

map_twice : env_page_map 0 0 0 4096 7 mapped ≡ returns (val 0) mapped_twice
unfolding env_page_map page_insert pgdir_walk make_table find_entry page_alloc insert_entry
    page_remove page_lookup lookup_entry drop_entry page_decref page_free
map_twice = refl

still_one : 0 < mapped_twice.mem.npages
unfolding env_page_map page_insert pgdir_walk make_table find_entry page_alloc insert_entry
    page_remove page_lookup lookup_entry drop_entry page_decref page_free
still_one = omega arith

walked : pgdir_walk 3 4096 true inserted ≡ some (some (1, 1), inserted)
unfolding pgdir_walk make_table find_entry page_insert page_alloc insert_entry page_remove
    page_lookup lookup_entry drop_entry page_decref page_free
walked = refl

env_page_map-writeable_example :
    (page_lookup 3 4096 mapped_twice.mem ≡ some (some (0, 1, 1), mapped_twice.mem))
    × (mapped_twice.mem.frame 1 1 ≡ or_p (0 * pg_size + 7))
    × ((pte_w (mapped_twice.mem.frame 1 1) ≡ false) ⊎ (pte_w (inserted.frame 1 0) ≡ true))
env_page_map-writeable_example =
    env_page_map-writeable 0 0 0 4096 7 3 3 0 1 0 1 1 mapped mapped_twice inserted refl refl
      lookup_inserted still_one (omega arith) walked (λ e. omega (arith, e)) map_twice
