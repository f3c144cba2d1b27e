-- ===== src/Sched/Memory/Init.antt =====
-- `page_init` of sched/kern/pmap.c. `first_free` is PGNUM(PADDR(boot_alloc(0))), the first page
-- behind the kernel and its tables.
use sistemas_operativos.Prelude.{
  ℕ, zero, suc, ◌+◌, Bool, ◌&&◌, ◌||◌, none, some, ltb, leb, ◌==◌, if◌then◌else◌,
}
use sistemas_operativos.Sched.Memory.Defs.{Mem, put_link, put_ref}

-- The four `continue`s: page 0, MPENTRY_PADDR, the IO hole from IOPHYSMEM to EXTPHYSMEM, the kernel.
abbrev pub is_reserved : ℕ → ℕ → Bool
is_reserved first_free i =
    i == 0 || i == 7 || leb 160 i && ltb i 256 || leb 256 i && ltb i first_free

abbrev pub link_page : ℕ → Mem → Mem
link_page i m = record (put_ref i 0 (put_link i m.page_free_list m)) { page_free_list = some i }

abbrev pub init_page : ℕ → ℕ → Mem → Mem
init_page first_free i m =
    let m' = put_link i none m in if is_reserved first_free i then m' else link_page i m'

unfoldable pub init_pages : ℕ → ℕ → ℕ → Mem → Mem
init_pages zero first_free i m = m
init_pages (suc left) first_free i m = init_pages left first_free (i + 1) (init_page first_free i m)

-- `page_free_list` is NULL when `page_init` is called.
unfoldable pub page_init : ℕ → Mem → Mem
page_init first_free m = init_pages m.npages first_free 0 m
