-- ===== src/Sched/Syscall/Pages.antt =====
-- The calls of sched/kern/syscall.c on pages.
use sistemas_operativos.Prelude.{
  ℕ, ◌/◌, ◌%◌, Bool, true, not, ◌&&◌, ◌||◌, Option, none, some, leb, ◌==◌, if◌then◌else◌,
}
use sistemas_operativos.Sched.Memory.Defs.{
  Ret, val, err, inval, no_mem, page_alloc, pg_size, pte_p, pte_w, pte_u, or_p, or_u,
}
use sistemas_operativos.Sched.Memory.Tables.{utop, page_lookup, page_insert, page_remove}
use sistemas_operativos.Sched.Kernel.{returns, K, ◌>>=◌, ◌>>◌, on_mem}
use sistemas_operativos.Sched.Syscall.Base.{with_env, pgdir_of}

-- `perm & ~PTE_SYSCALL`: a bit other than PTE_AVAIL, PTE_P, PTE_W and PTE_U.
abbrev pub has_other_bits : ℕ → Bool
has_other_bits perm = not (perm / 8 % 64 == 0) || leb 4096 perm

-- The word behind `pte`, if the pointer is not null. `none` stands for the result 0.
unfoldable pub check_perm : ℕ → Option ℕ → Ret
check_perm perm pte =
    if has_other_bits perm
    then err inval
    else if not (pte_p perm) || not (pte_u perm)
    then err inval
    else elim pte [
      | none ↦ val 0
      | some w ↦
          if not (w == 0) && not (pte_p w)
          then err inval
          else if pte_w perm && not (pte_w w)
          then err inval
          else val 0
    ]

abbrev insert_new : ℕ → ℕ → ℕ → Option ℕ → K Ret
insert_new i va perm none k = returns (err no_mem) k
insert_new i va perm (some p) k = (pgdir_of i >>= λ pgdir. on_mem (page_insert pgdir p va perm)) k

unfoldable pub env_page_alloc : ℕ → ℕ → ℕ → K Ret
env_page_alloc i va perm k = elim (check_perm perm none) [
  | err x ↦ returns (err x) k
  | val _ ↦ (on_mem (page_alloc true) >>= insert_new i va perm) k
]

abbrev insert_found : ℕ → ℕ → ℕ → Option (ℕ × ℕ × ℕ) → K Ret
insert_found i va perm none k = returns (err inval) k
insert_found i va perm (some (p, f, j)) k =
    if pte_w perm && not (pte_w (k.mem.frame f j))
    then returns (err inval) k
    else (pgdir_of i >>= λ pgdir. on_mem (page_insert pgdir p va perm)) k

unfoldable pub env_page_map : ℕ → ℕ → ℕ → ℕ → ℕ → K Ret
env_page_map src srcva dst dstva perm = do
  pgdir ← pgdir_of src
  page ← on_mem (page_lookup pgdir srcva)
  insert_found dst dstva perm page

-- The tests `(uint32_t) va >= UTOP` and `(uint32_t) va % PGSIZE`.
abbrev pub bad_va : ℕ → Bool
bad_va va = leb utop va || not (va % pg_size == 0)

unfoldable pub sys_page_alloc : ℕ → ℕ → ℕ → K Ret
sys_page_alloc envid va perm =
    if bad_va va
    then (λ k. returns (err inval) k)
    else with_env envid true (λ i. env_page_alloc i va (or_p (or_u perm)))

unfoldable pub sys_page_map : ℕ → ℕ → ℕ → ℕ → ℕ → K Ret
sys_page_map srcenvid srcva dstenvid dstva perm =
    if bad_va srcva
    then (λ k. returns (err inval) k)
    else if bad_va dstva
    then (λ k. returns (err inval) k)
    else with_env srcenvid true
        (λ s. with_env dstenvid true (λ d. env_page_map s srcva d dstva (or_p (or_u perm))))

unfoldable pub sys_page_unmap : ℕ → ℕ → K Ret
sys_page_unmap envid va =
    if bad_va va
    then (λ k. returns (err inval) k)
    else with_env envid true
        (λ i. (pgdir_of i >>= λ pgdir. on_mem (page_remove pgdir va)) >> λ k. returns (val 0) k)
