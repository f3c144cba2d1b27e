-- ===== src/Sched/Memory/Tables.antt =====
-- Mapping and unmapping of sched/kern/pmap.c, and the check of a user's range of addresses. The TLB
-- holds no state of the model, so `tlb_invalidate` has no counterpart.
use sistemas_operativos.Prelude.{
  ℕ, zero, suc, ◌+◌, ◌-◌, ◌*◌, ◌/◌, ◌%◌, ◌^◌, Bool, true, false, Option, none, some, bit_and,
  bit_or, ltb, ◌==◌, if◌then◌else◌,
}
use sistemas_operativos.Sched.Memory.Defs.{
  Mem, M, ◌>>=◌, no_mem, Ret, val, err, pg_num, pg_size, or_p, put_word, page_decref, page_incref,
  pgdir_walk,
}

-- The test `*pte && PTE_P` of `page_lookup` and `page_remove` holds of every entry but 0.
unfoldable pub lookup_entry : Option (ℕ × ℕ) → M (Option (ℕ × ℕ × ℕ))
lookup_entry none m = some (none, m)
lookup_entry (some (f, i)) m =
    let pte = m.frame f i in
    if pte == 0
    then some (none, m)
    else if ltb (pg_num pte) m.npages
    then some (some (pg_num pte, f, i), m)
    else none

-- The result carries the page with the address that is stored through `pte_store`.
unfoldable pub page_lookup : ℕ → ℕ → M (Option (ℕ × ℕ × ℕ))
page_lookup pgdir va = do entry ← pgdir_walk pgdir va false; lookup_entry entry

unfoldable pub drop_entry : Option (ℕ × ℕ × ℕ) → M (Unit {0})
drop_entry none m = some (tt, m)
drop_entry (some (p, f, i)) m = elim (page_decref p m) [
  | none ↦ none
  | some (_, m') ↦ some (tt, put_word f i 0 m')
]

unfoldable pub page_remove : ℕ → ℕ → M (Unit {0})
page_remove pgdir va = do
  pte ← pgdir_walk pgdir va false
  page_rmv ← page_lookup pgdir va
  drop_entry page_rmv

-- `page2pa(pp) | perm | PTE_P`
abbrev pub new_pte : ℕ → ℕ → ℕ
new_pte p perm = or_p (bit_or (p * pg_size) perm)

unfoldable pub insert_entry : ℕ → ℕ → ℕ → ℕ → Option (ℕ × ℕ) → M Ret
insert_entry pgdir p va perm none m = some (err no_mem, m)
insert_entry pgdir p va perm (some (f, i)) m = elim (page_remove pgdir va (page_incref p m)) [
  | none ↦ none
  | some (_, m') ↦ some (val 0, put_word f i (new_pte p perm) m')
]

unfoldable pub page_insert : ℕ → ℕ → ℕ → ℕ → M Ret
page_insert pgdir p va perm = do
  page_table ← pgdir_walk pgdir va true
  insert_entry pgdir p va perm page_table

-- inc/memlayout.h
abbrev pub utop : ℕ
utop = 0xeec0_0000

-- inc/types.h, on uint32_t
abbrev pub rounddown : ℕ → ℕ
rounddown a = a / pg_size * pg_size

abbrev pub roundup : ℕ → ℕ
roundup a = rounddown ((a + (pg_size - 1)) % 2 ^ 32)

-- `((*pte) & want) == want`, at an entry that is there.
abbrev pub grants : Mem → ℕ → Option (ℕ × ℕ) → Bool
grants m want none = false
grants m want (some (f, i)) = bit_and (m.frame f i) want == want

-- The result of `user_mem_check`: 0, or `-E_FAULT` with `user_mem_check_addr`.
pub data Check : Type 0 where
  granted : Check
  denied : ℕ → Check

-- The loop of `user_mem_check` with `left` rounds at most. It leaves memory as it is, so the result
-- is `none` for a panic or a value.
unfoldable pub check_pages : ℕ → ℕ → ℕ → ℕ → ℕ → ℕ → Mem → Option Check
check_pages zero pgdir lo hi want va m = some granted
check_pages (suc left) pgdir lo hi want va m =
    let rest = check_pages left pgdir lo hi want ((va + pg_size) % 2 ^ 32) m in
    if ltb va hi
    then elim (pgdir_walk pgdir va false m) [
      | none ↦ none
      | some (pte, _) ↦
          if grants m want pte then rest else some (denied (if ltb lo va then va else lo))
    ]
    else some granted

unfoldable pub user_mem_check : ℕ → ℕ → ℕ → ℕ → Mem → Option Check
user_mem_check pgdir va len perm m =
    let va_hi = roundup ((va + len) % 2 ^ 32) in
    if ltb utop va_hi
    then some (denied va)
    else check_pages (va_hi / pg_size) pgdir va va_hi (or_p perm) (rounddown va) m
