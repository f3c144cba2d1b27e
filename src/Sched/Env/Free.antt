-- ===== src/Sched/Env/Free.antt =====
-- `env_free` and `env_destroy` of sched/kern/env.c.
use sistemas_operativos.Prelude.{ℕ, zero, suc, ◌+◌, ◌*◌, ◌&&◌, not, none, some, if◌then◌else◌}
use sistemas_operativos.Sched.Memory.Defs.{
  Mem, M, pure, pg_num, pg_size, pte_p, put_word, check_page_number, page_decref,
}
use sistemas_operativos.Sched.Memory.Defs as Memory
use sistemas_operativos.Sched.Memory.Tables.{page_remove}
use sistemas_operativos.Sched.Kernel.{
  free, dying, Kernel, returns, faults, K, ◌>>◌, on_mem, put_env, set_status, is_running, is_at,
}
use sistemas_operativos.Sched.Yield.{sched_yield}

-- `PGADDR(pdeno, pteno, 0)`
abbrev pg_addr : ℕ → ℕ → ℕ
pg_addr pdeno pteno = pdeno * 0x40_0000 + pteno * pg_size

-- The inner loop, over the entries of the table in page `pt`.
unfoldable pub free_entries : ℕ → ℕ → ℕ → ℕ → ℕ → M (Unit {0})
free_entries zero pteno pgdir pdeno pt m = some (tt, m)
free_entries (suc left) pteno pgdir pdeno pt m =
    let rest = λ (m' : Mem). free_entries left (pteno + 1) pgdir pdeno pt m' in
    if pte_p (m.frame pt pteno)
    then elim (page_remove pgdir (pg_addr pdeno pteno) m) [ none ↦ none | some (_, m') ↦ rest m' ]
    else rest m

-- One round of the outer loop: the table behind a present entry goes with all its pages.
abbrev pub free_table : ℕ → ℕ → M (Unit {0})
free_table pgdir pdeno m =
    let pde = m.frame pgdir pdeno in
    if pte_p pde
    then Memory.◌>>◌ (check_page_number (pg_num pde))
        (Memory.◌>>◌ (free_entries 1024 0 pgdir pdeno (pg_num pde))
          (Memory.◌>>◌ (λ m'. some (tt, put_word pgdir pdeno 0 m')) (page_decref (pg_num pde))))
        m
    else some (tt, m)

unfoldable pub free_tables : ℕ → ℕ → ℕ → M (Unit {0})
free_tables zero pdeno pgdir m = some (tt, m)
free_tables (suc left) pdeno pgdir m =
    let rest = λ (m' : Mem). free_tables left (pdeno + 1) pgdir m' in
    elim (free_table pgdir pdeno m) [ none ↦ none | some (_, m') ↦ rest m' ]

-- PDX(UTOP)
abbrev pub user_tables : ℕ
user_tables = 955

abbrev release_pgdir : ℕ → ℕ → K (Unit {0})
release_pgdir i p k = on_mem (page_decref p) (put_env i (record (k.envs i) { env_pgdir = none }) k)

abbrev link_env : ℕ → Kernel → Kernel
link_env i k =
    record (put_env i (record (k.envs i) { env_status = free; env_link = k.env_free_list }) k) {
      env_free_list = some i;
    }

unfoldable pub env_free : ℕ → K (Unit {0})
env_free i k =
    let k' = if is_at k.curenv i then record k { cr3 = k.kern_pgdir } else k in
    elim (k'.envs i).env_pgdir [
      | none ↦ faults
      | some p ↦
          (on_mem (free_tables user_tables 0 p) >> release_pgdir i p >> λ k''.
          returns tt (link_env i k''))
            k'
    ]

abbrev leave_env : ℕ → K (Unit {0})
leave_env i k = if is_at k.curenv i then sched_yield (record k { curenv = none }) else returns tt k

unfoldable pub env_destroy : ℕ → K (Unit {0})
env_destroy i k =
    if is_running (k.envs i).env_status && not (is_at k.curenv i)
    then returns tt (set_status i dying k)
    else (env_free i >> leave_env i) k
