-- ===== src/Sched/Memory/Defs.antt =====
-- Physical pages and page tables of sched/kern/pmap.c. A `struct PageInfo *` is the page's number,
-- so `page2pa` is `* 4096`; a page directory is the number of its page; a `pte_t *` is a page number
-- with the index of a word in that page. `none` for an operation is a panic.
use sistemas_operativos.Prelude.{
  ℕ, ◌+◌, ◌-◌, ◌*◌, ◌/◌, ◌%◌, ◌^◌, Bool, true, false, ◌&&◌, not, Option, none, some, ltb, ◌==◌,
  if◌then◌else◌, update, ◌≡◌,
}

-- `struct PageInfo`
pub record PageInfo : Type 0 where
  pub pp_link : Option ℕ
  pub pp_ref : ℕ

-- The globals of pmap.c. `frame p i` is word `i` of physical page `p`.
pub record Mem : Type 0 where
  pub npages : ℕ
  pub pages : ℕ → PageInfo
  pub page_free_list : Option ℕ
  pub frame : ℕ → ℕ → ℕ

-- An operation that may panic.
abbrev pub M : Type 0 → Type 0
M A = Mem → Option (A × Mem)

-- The rest of an operation, unless its start panicked.
abbrev pub carry_on : {A B : Type 0} → Option (A × Mem) → (A → M B) → Option (B × Mem)
carry_on none rest = none
carry_on (some (result, after)) rest = rest result after

infixl 5 ◌>>◌ ◌>>=◌
abbrev pub ◌>>=◌ : {A B : Type 0} → M A → (A → M B) → M B
◌>>=◌ start rest before = carry_on (start before) rest

abbrev pub ◌>>◌ : {A : Type 0} → M (Unit {0}) → M A → M A
start >> rest = start >>= (λ _. rest)

abbrev pub pure : {A : Type 0} → A → M A
pure result before = some (result, before)

-- One step of a sequence.
pub bind_some :
    {A B : Type 0} (x : M A) (f : A → M B) (m m' : Mem) {a : A}
    → x m ≡ some (a, m')
    → (x >>= f) m ≡ f a m'
bind_some x f m m' e = rw (e, ◌>>=◌)

pub bind_none : {A B : Type 0} (x : M A) (f : A → M B) (m : Mem) → x m ≡ none → (x >>= f) m ≡ none
bind_none x f m e = rw (e, ◌>>=◌)

-- The names of inc/error.h that the kernel returns.
pub data Err : Type 0 where
  bad_env inval no_mem no_free_env mem_fault ipc_not_recv : Err

-- What a function returns in `int`: a value that is not negative, or `-E_…`.
pub data Ret : Type 0 where
  val : ℕ → Ret
  err : Err → Ret

-- inc/mmu.h
abbrev pub pdx : ℕ → ℕ
pdx va = va / 2 ^ 22 % 1024

abbrev pub ptx : ℕ → ℕ
ptx va = va / 2 ^ 12 % 1024

abbrev pub pg_num : ℕ → ℕ
pg_num la = la / 2 ^ 12

abbrev pub pg_size : ℕ
pg_size = 4096

-- `x & PTE_P`, `x & PTE_W`, `x & PTE_U` as tests, and `x | PTE_P`, `x | PTE_U`.
abbrev pub pte_p : ℕ → Bool
pte_p x = x % 2 == 1

abbrev pub pte_w : ℕ → Bool
pte_w x = x / 2 % 2 == 1

abbrev pub pte_u : ℕ → Bool
pte_u x = x / 4 % 2 == 1

abbrev pub or_p : ℕ → ℕ
or_p x = x + (1 - x % 2)

abbrev pub or_u : ℕ → ℕ
or_u x = x + 4 * (1 - x / 4 % 2)

abbrev pub put_link : ℕ → Option ℕ → Mem → Mem
put_link p l m = record m {
  pages = update m.pages p (record { pp_link = l; pp_ref = (m.pages p).pp_ref });
}

abbrev pub put_ref : ℕ → ℕ → Mem → Mem
put_ref p r m = record m {
  pages = update m.pages p (record { pp_link = (m.pages p).pp_link; pp_ref = r });
}

abbrev pub put_word : ℕ → ℕ → ℕ → Mem → Mem
put_word p i w m = record m { frame = update m.frame p (update (m.frame p) i w) }

-- `memset(page2kva(p), 0, PGSIZE)`
abbrev pub zero_page : ℕ → Mem → Mem
zero_page p m = record m { frame = update m.frame p (λ _. 0) }

-- `page2kva` and `pa2page` panic beyond the last page.
abbrev pub check_page_number : ℕ → M (Unit {0})
check_page_number p m = if ltb p m.npages then some (tt, m) else none

-- `page_alloc(flags)`; the argument says whether ALLOC_ZERO is in the flags.
unfoldable pub page_alloc : Bool → M (Option ℕ)
page_alloc zeroed m = elim m.page_free_list [
  | none ↦ some (none, m)
  | some p ↦
      let m' = put_link p none (record m { page_free_list = (m.pages p).pp_link }) in
      if zeroed
      then (if ltb p m.npages then some (some p, zero_page p m') else none)
      else some (some p, m')
]

abbrev is_some : Option ℕ → Bool
is_some none = false
is_some (some _) = true

unfoldable pub page_free : ℕ → M (Unit {0})
page_free p m =
    if not ((m.pages p).pp_ref == 0)
    then none
    else if is_some (m.pages p).pp_link
    then none
    else some (tt, record (put_link p m.page_free_list m) { page_free_list = some p })

-- `pp_ref` is a uint16_t.
unfoldable pub page_decref : ℕ → M (Unit {0})
page_decref p m =
    let r = ((m.pages p).pp_ref + 65535) % 65536 in
    let m' = put_ref p r m in if r == 0 then page_free p m' else some (tt, m')

abbrev pub page_incref : ℕ → Mem → Mem
page_incref p m = put_ref p (((m.pages p).pp_ref + 1) % 65536) m

-- The first half of `pgdir_walk`: a page table is made where there is none.
unfoldable pub make_table : ℕ → ℕ → Bool → M (Unit {0})
make_table pgdir va create m =
    if m.frame pgdir (pdx va) == 0 && create
    then elim (page_alloc true m) [
      | none ↦ none
      | some (none, m') ↦ some (tt, m')
      | some (some p, m') ↦ some (tt, put_word pgdir (pdx va) (p * pg_size + 7) (page_incref p m'))
    ]
    else some (tt, m)

-- The second half: the address of the entry, if there is a table.
unfoldable pub find_entry : ℕ → ℕ → M (Option (ℕ × ℕ))
find_entry pgdir va m =
    let pde = m.frame pgdir (pdx va) in
    if pde == 0
    then some (none, m)
    else if ltb (pg_num pde) m.npages
    then some (some (pg_num pde, ptx va), m)
    else none

unfoldable pub pgdir_walk : ℕ → ℕ → Bool → M (Option (ℕ × ℕ))
pgdir_walk pgdir va create = do make_table pgdir va create; find_entry pgdir va
