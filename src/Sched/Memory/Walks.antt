-- ===== src/Sched/Memory/Walks.antt =====
-- `pgdir_walk` of sched/kern/pmap.c as a user of the page allocator.
use sistemas_operativos.Prelude.{
  ◌/◌, ℕ, ◌+◌, ◌%◌, ◌<◌, ◌≡◌, ◌⊎◌, Bool, true, false, ◌≢◌, Option, none, some, ◌*◌, ◌&&◌, ◌==◌,
}
use sistemas_operativos.Sched.Memory.Defs.{Mem, page_alloc, pg_size, pdx}
use sistemas_operativos.Sched.Memory.Ownership.{refs}

-- The page table that a walk has made in page `p`: nobody owned the page, it has one reference and no entry, and the
-- directory's entry leads to it with PTE_P, PTE_W and PTE_U.
pub record NewTable (owned : ℕ → Bool) (pgdir va p : ℕ) (m m' : Mem) : Type 0 where
  pub wanted : m.frame pgdir (pdx va) ≡ 0
  pub free : owned p ≡ false
  pub exists : p < m'.npages
  pub counted : refs p m' ≡ 1
  pub leads : m'.frame pgdir (pdx va) ≡ p * pg_size + 7
  pub cleared : (i : ℕ) → pgdir ≢ p → m'.frame p i ≡ 0

-- A walk without a new page table: none was wanted, or `page_alloc` had no page.
abbrev pub NoTable : ℕ → ℕ → Bool → Mem → Mem → Type 0
NoTable pgdir va create m m' =
    (m' ≡ m)
    × (((m.frame pgdir (pdx va) == 0) && create ≡ false) ⊎ (page_alloc true m ≡ some (none, m)))

-- What a walk has done about the page table, on the way from `m` to `m'`.
abbrev pub Walked : (ℕ → Bool) → ℕ → ℕ → Bool → Mem → Mem → Type 0
Walked owned pgdir va create m m' =
    NoTable pgdir va create m m' ⊎ ((p : ℕ) × NewTable owned pgdir va p m m')

-- What a walk returns, as the directory's word says: nothing, or the word of that table for the address.
abbrev pub Found : ℕ → ℕ → Mem → Option (ℕ × ℕ) → Type 0
Found pgdir va m entry =
    ((m.frame pgdir (pdx va) ≡ 0) × (entry ≡ none))
    ⊎ (entry ≡ some (m.frame pgdir (pdx va) / pg_size, va / pg_size % 1024))
