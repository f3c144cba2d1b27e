-- ===== src/Sched/Memory/Startup.antt =====
-- The tables that mem_init of sched/kern/pmap.c makes before there is a free list.
use sistemas_operativos.Prelude.{
  ℕ, ◌+◌, ◌-◌, ◌*◌, ◌/◌, ◌%◌, ◌^◌, ◌≤◌, ◌<◌, ◌≡◌, ◌≢◌, ◌⊎◌, ◌↔◌, refl, none, some, List, arith,
}
use sistemas_operativos.Sched.Memory.Defs.{Mem, pg_num, pg_size}
use sistemas_operativos.Sched.Memory.Tables.{roundup}
use sistemas_operativos.Sched.Memory.Init.{page_init}
use sistemas_operativos.Sched.Memory.FreeList.{HasFree}
use sistemas_operativos.Sched.Memory.Boot.{Contains, IsAvailable, page_init-HasFree}
use sistemas_operativos.Sched.Memory.Layout.{
  kernbase, paddr, kaddr, first_next, take_until, boot_alloc, Tables, page_info_size, env_size,
  boot_tables, clear_tables, start_memory,
}

-- `a` rounded up to a page, where nothing wraps around.
abbrev pub page_up : ℕ → ℕ
page_up a = (a + 4095) / 4096 * 4096

roundup-page_up : (a : ℕ) → a < 2 ^ 32 - 4096 → roundup a ≡ page_up a
roundup-page_up a h = omega arith

-- A call with `nextfree` set and enough memory.
boot_alloc_lem :
    (npages end_symbol n next : ℕ)
    → npages ≤ 65536
    → kernbase ≤ next
    → next + n < kernbase + npages * 4096
    → page_up (next + n) < 2 ^ 32
    → boot_alloc npages end_symbol n next ≡ some (next, page_up (next + n))
unfolding boot_alloc first_next take_until paddr kaddr
boot_alloc_lem npages end_symbol n next small low room top = ground arith

boot_alloc-first :
    (npages end_symbol n : ℕ)
    → roundup end_symbol ≢ 0
    → boot_alloc npages end_symbol n 0 ≡ boot_alloc npages end_symbol n (roundup end_symbol)
unfolding boot_alloc first_next
boot_alloc-first npages end_symbol n h = ground arith

-- The same from an aligned `nextfree` on, which leaves `next'` behind the last page.
boot_alloc-aligned :
    (npages end_symbol n next next' : ℕ)
    → npages ≤ 65536
    → kernbase ≤ next
    → next % 4096 ≡ 0
    → next + page_up n ≡ next'
    → next' < kernbase + npages * 4096
    → boot_alloc npages end_symbol n next ≡ some (next, next')
boot_alloc-aligned npages end_symbol n next next' small low aligned e room =
    rw (boot_alloc_lem npages end_symbol n next small low (omega arith) (omega arith), sums) refl
  where
    sums : page_up (next + n) ≡ next'
    sums = omega arith

-- The tables one behind the other, from the address `start` on.
abbrev pub tables_at : ℕ → ℕ → Tables
tables_at npages start = record {
  kern_pgdir = start;
  pages = start + 4096;
  envs = start + 4096 + page_up (npages * 8);
  nextfree = start + 4096 + page_up (npages * 8) + 131072;
}

module _ (npages end_symbol : ℕ) (small : npages ≤ 65536) (low : kernbase ≤ end_symbol)
    (room : page_up end_symbol + 4096 + page_up (npages * 8) + 131072
      < kernbase + npages * 4096) where
  abbrev t : Tables
  t = tables_at npages (page_up end_symbol)

  pgdir_call : boot_alloc npages end_symbol 4096 0 ≡ some (t.kern_pgdir, t.pages)
  pgdir_call =
      rw
        (
          boot_alloc-first npages end_symbol 4096 (omega arith),
          roundup-page_up end_symbol (omega arith),
          boot_alloc-aligned npages end_symbol 4096 t.kern_pgdir t.pages small (omega arith)
              (omega arith) (omega arith) (omega arith),
        )
        refl

  pages_call : boot_alloc npages end_symbol (npages * 8) t.pages ≡ some (t.pages, t.envs)
  pages_call =
      boot_alloc-aligned npages end_symbol (npages * 8) t.pages t.envs small (omega arith)
        (omega arith) (omega arith) (omega arith)

  envs_call : boot_alloc npages end_symbol 131072 t.envs ≡ some (t.envs, t.nextfree)
  envs_call =
      boot_alloc-aligned npages end_symbol 131072 t.envs t.nextfree small (omega arith)
        (omega arith) (omega arith) (omega arith)

  last_call : boot_alloc npages end_symbol 0 t.nextfree ≡ some (t.nextfree, t.nextfree)
  last_call =
      boot_alloc-aligned npages end_symbol 0 t.nextfree t.nextfree small (omega arith) (omega arith)
        (omega arith) (omega arith)

  size_lem : npages * 8 % 2 ^ 32 ≡ npages * 8
  size_lem = omega arith

  boot_tables_lem : boot_tables npages end_symbol ≡ some (t)
  unfolding boot_tables
  boot_tables_lem = rw (boot_tables, pgdir_call, size_lem, pages_call, envs_call, last_call) refl

-- Whether the areas of the tables lie one behind the other, behind the kernel and inside of memory.
pub record Placed (npages end_symbol : ℕ) (t : Tables) : Type 0 where
  pub behind_kernel : end_symbol ≤ t.kern_pgdir
  pub pgdir_fits : t.kern_pgdir + pg_size ≤ t.pages
  pub pages_fit : t.pages + npages * page_info_size ≤ t.envs
  pub envs_fit : t.envs + 1024 * env_size ≤ t.nextfree
  pub fits : t.nextfree ≤ kernbase + npages * pg_size
  pub aligned : (t.kern_pgdir % pg_size ≡ 0) × (t.pages % pg_size ≡ 0) × (t.envs % pg_size ≡ 0)

tables_at-Placed :
    (npages end_symbol : ℕ)
    → end_symbol ≤ page_up end_symbol
    → page_up end_symbol + 4096 + page_up (npages * 8) + 131072 < kernbase + npages * 4096
    → Placed npages end_symbol (tables_at npages (page_up end_symbol))
tables_at-Placed npages end_symbol up room = record {
  behind_kernel = up;
  pgdir_fits = omega arith;
  pages_fit = omega arith;
  envs_fit = omega arith;
  fits = omega arith;
  aligned = (omega arith, omega arith, omega arith);
}

-- What the free list holds, by addresses.
IsAvailable-iff :
    (nextfree p : ℕ)
    → nextfree % 4096 ≡ 0
    → kernbase ≤ nextfree
    → IsAvailable ((nextfree - kernbase) / 4096) p ↔ (
        (p ≢ 0)
        × (p ≢ 7)
        × ((p * 4096 < 0xa0000) ⊎ ((0x100000 ≤ p * 4096) × (nextfree ≤ kernbase + p * 4096))))
IsAvailable-iff nextfree p aligned low = ground arith

abbrev placed_at : ℕ → Mem → Tables
placed_at end_symbol m = tables_at m.npages (page_up end_symbol)

abbrev first_page : Tables → ℕ
first_page t = pg_num (t.nextfree - kernbase)

-- The memory that `page_init` finds.
abbrev cleared_at : Tables → Mem → Mem
cleared_at t m =
    clear_tables (pg_num (t.kern_pgdir - kernbase)) (record m { page_free_list = none })

-- Page `p` of the free list, by its address.
abbrev pub IsFreeAt : ℕ → Tables → ℕ → Type 0
IsFreeAt npages t p =
    (p < npages)
    × (p ≢ 0)
    × (p ≢ 7)
    × ((p * pg_size < 0xa0000) ⊎ ((0x100000 ≤ p * pg_size) × (t.nextfree ≤ kernbase + p * pg_size)))

available-IsFreeAt :
    (npages : ℕ) (t : Tables) (p : ℕ) {A : Type 0}
    → t.nextfree % 4096 ≡ 0
    → kernbase ≤ t.nextfree
    → A ↔ ((p < npages) × IsAvailable (first_page t) p)
    → A ↔ IsFreeAt npages t p
available-IsFreeAt npages table p aligned low (into, back) =
    let (there, here) = IsAvailable-iff table.nextfree p aligned low in
    (
      λ c. let (lt, a) = into c in let (zeroth, boot, at) = there a in (lt, zeroth, boot, at),
      λ (lt, zeroth, boot, at). back (lt, here (zeroth, boot, at)),
    )

-- With 256 MiB of memory at most, and room for the tables behind the kernel: `mem_init` reaches and ends
-- `page_init` without a panic. It has placed kern_pgdir, `pages` and `envs` one behind the other, each at the start
-- of a page, behind the kernel and inside of memory. The free list then holds distinct, unreferenced pages, and
-- holds page p exactly when p exists, is neither page 0 nor that of MPENTRY_PADDR, and lies below the IO hole, or
-- above it and behind the three tables.
pub start_memory-Placed :
    (end_symbol : ℕ) (m : Mem)
    → m.npages ≤ 65536
    → kernbase ≤ end_symbol
    → page_up end_symbol + pg_size + page_up (m.npages * page_info_size) + 1024 * env_size
      < kernbase + m.npages * pg_size
    → (t : Tables) × (m' : Mem) × (ps : List ℕ) × (start_memory end_symbol m ≡ some (t, m'))
      × Placed m.npages end_symbol t
      × HasFree m' ps
      × ((p : ℕ) → Contains p ps ↔ IsFreeAt m.npages t p)
unfolding start_memory page_init
start_memory-Placed end_symbol m small low room =
    let t = placed_at end_symbol m in
    let (ps, free, holds) = page_init-HasFree (first_page t) (cleared_at t m) refl in
    (
      t,
      page_init (first_page t) (cleared_at t m),
      ps,
      rw (start_memory, boot_tables_lem m.npages end_symbol small low room) refl,
      tables_at-Placed m.npages end_symbol (omega arith) room,
      free,
      λ p. available-IsFreeAt m.npages t p (omega arith) (omega arith) (holds p),
    )
