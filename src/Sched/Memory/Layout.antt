-- ===== src/Sched/Memory/Layout.antt =====
-- Memory at boot, of sched/kern/pmap.c: how much there is, the allocator that comes before the free list, the
-- tables that mem_init makes with it, and the mappings of the kernel.
use sistemas_operativos.Prelude.{
  ℕ, zero, suc, ◌+◌, ◌-◌, ◌*◌, ◌/◌, ◌%◌, ◌^◌, true, Option, none, some, bit_or, ltb, leb, ◌==◌,
  if◌then◌else◌, update,
}
use sistemas_operativos.Sched.Memory.Defs.{
  Mem, M, ◌>>=◌, ◌>>◌, pg_num, pg_size, pdx, or_p, put_word, pgdir_walk,
}
use sistemas_operativos.Sched.Memory.Tables.{rounddown, roundup, page_remove}
use sistemas_operativos.Sched.Memory.Init.{page_init}

abbrev pub npages_from : ℕ → ℕ → ℕ → ℕ
npages_from basemem extmem ext16mem =
    (if ext16mem == 0
      then (if extmem == 0 then basemem else 1 * 1024 + extmem)
      else 16 * 1024 + ext16mem)
    / 4

module _ (mc146818_read : ℕ → ℕ) where
  abbrev pub nvram_read : ℕ → ℕ
  nvram_read r = bit_or (mc146818_read r) (mc146818_read (r + 1) * 2 ^ 8)

  -- `npages` as `i386_detect_memory` sets it, from the numbers of KiB.
  unfoldable pub i386_detect_memory : ℕ
  i386_detect_memory = npages_from (nvram_read 0x15) (nvram_read 0x17) (nvram_read 0x34 * 64)

abbrev pub kernbase : ℕ
kernbase = 0xf0000000

-- PADDR and KADDR, which panic outside of the memory that the kernel maps.
unfoldable pub paddr : ℕ → Option ℕ
paddr kva = if ltb kva kernbase then none else some (kva - kernbase)

unfoldable pub kaddr : ℕ → ℕ → Option ℕ
kaddr npages pa = if leb npages (pg_num pa) then none else some ((pa + kernbase) % 2 ^ 32)

-- The static `nextfree` of `boot_alloc`, where 0 is the first call. `last` is PADDR(nextfree + n).
unfoldable pub first_next : ℕ → ℕ → ℕ
first_next end_symbol nextfree = if nextfree == 0 then roundup end_symbol else nextfree

unfoldable pub take_until : ℕ → ℕ → Option ℕ → Option (ℕ × ℕ)
take_until npages result none = none
take_until npages result (some last) =
    if leb (pg_size * npages % 2 ^ 32) last
    then none
    else elim (kaddr npages last) [ none ↦ none | some kva ↦ some (result, roundup kva) ]

-- The result of `boot_alloc`, with the new `nextfree`.
unfoldable pub boot_alloc : ℕ → ℕ → ℕ → ℕ → Option (ℕ × ℕ)
boot_alloc npages end_symbol n nextfree =
    let next = first_next end_symbol nextfree in
    take_until npages next (paddr ((next + n) % 2 ^ 32))

-- What `mem_init` has allocated when it calls `page_init`.
pub record Tables : Type 0 where
  pub kern_pgdir : ℕ
  pub pages : ℕ
  pub envs : ℕ
  pub nextfree : ℕ

-- sizeof(struct PageInfo) and sizeof(struct Env)
abbrev pub page_info_size : ℕ
page_info_size = 8

abbrev pub env_size : ℕ
env_size = 128

unfoldable pub boot_tables : ℕ → ℕ → Option Tables
boot_tables npages end_symbol = elim (boot_alloc npages end_symbol pg_size 0) [
  | none ↦ none
  | some (kern_pgdir, next) ↦
      elim (boot_alloc npages end_symbol (npages * page_info_size % 2 ^ 32) next) [
        | none ↦ none
        | some (pages, next') ↦ elim (boot_alloc npages end_symbol (1024 * env_size) next') [
          | none ↦ none
          | some (envs, next'') ↦ elim (boot_alloc npages end_symbol 0 next'') [
            | none ↦ none
            | some (nextfree, _) ↦ some (record {
              kern_pgdir = kern_pgdir;
              pages = pages;
              envs = envs;
              nextfree = nextfree;
            })
          ]
        ]
      ]
]

abbrev pub uvpt : ℕ
uvpt = 0xef400000

-- The page directory, zeroed but for its entry for itself, and the zeroed `pages`.
abbrev pub clear_tables : ℕ → Mem → Mem
clear_tables pgdir m = put_word pgdir (pdx uvpt) (pgdir * pg_size + 5) (record m {
  pages = λ _. record { pp_link = none; pp_ref = 0 };
  frame = update m.frame pgdir (λ _. 0);
})

-- `mem_init` up to and with `page_init`, with nothing on the free list before.
unfoldable pub start_memory : ℕ → M Tables
start_memory end_symbol m = elim (boot_tables m.npages end_symbol) [
  | none ↦ none
  | some t ↦ some (
    t,
    page_init (pg_num (t.nextfree - kernbase))
        (clear_tables (pg_num (t.kern_pgdir - kernbase)) (record m { page_free_list = none })),
  )
]

-- `*pte = (pa + i) | perm | PTE_P`; a null `pte` is a fault.
unfoldable pub store_entry : ℕ → Option (ℕ × ℕ) → M (Unit {0})
store_entry w none m = none
store_entry w (some (f, i)) m = some (tt, put_word f i w m)

unfoldable pub map_one : ℕ → ℕ → ℕ → ℕ → M (Unit {0})
map_one pgdir va pa perm = do
  pte ← pgdir_walk pgdir va true
  page_remove pgdir va
  store_entry (or_p (bit_or pa perm)) pte

-- The loop of `boot_map_region` with `left` rounds left, at `va + i` and `pa + i`.
unfoldable pub map_pages : ℕ → ℕ → ℕ → ℕ → ℕ → M (Unit {0})
map_pages zero pgdir va pa perm m = some (tt, m)
map_pages (suc left) pgdir va pa perm m =
    (map_one pgdir va pa perm
        >> map_pages left pgdir ((va + pg_size) % 2 ^ 32) ((pa + pg_size) % 2 ^ 32) perm)
      m

abbrev pub boot_map_region : ℕ → ℕ → ℕ → ℕ → ℕ → M (Unit {0})
boot_map_region pgdir va size pa perm =
    map_pages ((size + (pg_size - 1)) / pg_size) pgdir va pa perm

-- `kstacktop_i - KSTKSIZE`, the lowest address of the kernel stack of CPU `i`
abbrev pub stack_start : ℕ → ℕ
stack_start i = kernbase - i * (8 * pg_size + 8 * pg_size) - 8 * pg_size

-- `mem_init_mp` for the CPUs from `i` on, with `percpu_kstacks` at physical address `kstacks`.
unfoldable pub map_stacks : ℕ → ℕ → ℕ → ℕ → M (Unit {0})
map_stacks zero i pgdir kstacks m = some (tt, m)
map_stacks (suc left) i pgdir kstacks m =
    (boot_map_region pgdir (stack_start i) (8 * pg_size) (kstacks + i * (8 * pg_size)) 3
        >> map_stacks left (i + 1) pgdir kstacks)
      m

abbrev pub mem_init_mp : ℕ → ℕ → M (Unit {0})
mem_init_mp = map_stacks 8 0

-- UPAGES and UENVS
abbrev pub upages : ℕ
upages = 0xef000000

abbrev pub uenvs : ℕ
uenvs = 0xeec00000

-- The mappings of `mem_init` behind `page_init`.
unfoldable pub map_kernel : ℕ → ℕ → Tables → M (Unit {0})
map_kernel npages kstacks t =
    let pgdir = pg_num (t.kern_pgdir - kernbase) in
    boot_map_region pgdir upages (roundup (npages * page_info_size % 2 ^ 32)) (t.pages - kernbase) 5
    >> boot_map_region pgdir uenvs (roundup (1024 * env_size)) (t.envs - kernbase) 5
    >> boot_map_region pgdir kernbase (2 ^ 28) 0 3
    >> mem_init_mp pgdir kstacks

abbrev pub mmiolim : ℕ
mmiolim = 0xefc00000

abbrev pub mmiobase : ℕ
mmiobase = 0xef800000

-- The static `base` goes in, and the result carries the new one. PTE_W | PTE_P | PTE_PCD | PTE_PWT is 27.
unfoldable pub mmio_map_region : ℕ → ℕ → ℕ → ℕ → M (ℕ × ℕ)
mmio_map_region pgdir base pa size m =
    let size' = roundup size in
    let base' = (base + size') % 2 ^ 32 in
    if leb mmiolim base'
    then none
    else elim (boot_map_region pgdir base size' (rounddown pa) 27 m) [
      | none ↦ none
      | some (_, m') ↦ some ((base, base'), m')
    ]
