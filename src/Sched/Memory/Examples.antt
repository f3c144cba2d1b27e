-- ===== src/Sched/Memory/Examples.antt =====
-- Four pages, of which pages 1 and 2 are free and page 3 is a page directory: the theorems on
-- sched/kern/pmap.c at concrete inputs.
use sistemas_operativos.Prelude.{
  ℕ, zero, suc, ◌+◌, ◌*◌, ◌≤◌, ◌<◌, ◌≡◌, ◌≢◌, ◌⊎◌, ◌↔◌, refl, true, false, Option, none, some, List,
  [], ◌∷◌, arith, Bool, update,
}
use sistemas_operativos.Sched.Memory.Defs.{
  PageInfo, Mem, pgdir_walk, make_table, find_entry, val, page_alloc, page_free, page_decref,
  page_incref, pg_size, or_p,
}
use sistemas_operativos.Sched.Memory.Init.{page_init, init_pages}
use sistemas_operativos.Sched.Memory.Tables.{
  page_lookup, lookup_entry, insert_entry, drop_entry, page_insert, page_remove, user_mem_check,
  utop, rounddown, granted,
}
use sistemas_operativos.Sched.Memory.FreeList.{HasFree}
use sistemas_operativos.Sched.Memory.Boot.{page_init-HasFree, Contains, IsAvailable}
use sistemas_operativos.Sched.Memory.Layout.{Tables, start_memory}
use sistemas_operativos.Sched.Memory.Startup.{Placed, IsFreeAt, start_memory-Placed}
use sistemas_operativos.Sched.Memory.Mapping.{page_insert-page_lookup}
use sistemas_operativos.Sched.Memory.Access.{user_mem_check_iff, PageGrants}
use sistemas_operativos.Sched.Memory.Ownership.{
  Heap, refs, Uses, none_yet, then_use, takes, counts_up,
}
use sistemas_operativos.Sched.Memory.Reachable.{at_boot, Last, Uses-page_alloc, Uses-page_decref}

abbrev page_infos : ℕ → PageInfo
page_infos zero = record { pp_link = none; pp_ref = 1 }
page_infos (suc zero) = record { pp_link = some 2; pp_ref = 0 }
page_infos (suc (suc zero)) = record { pp_link = none; pp_ref = 0 }
page_infos (suc (suc (suc p))) = record { pp_link = none; pp_ref = 1 }

abbrev pub small : Mem
small = record { npages = 4; pages = page_infos; page_free_list = some 1; frame = λ _ _. 0 }

abbrev pub full : Mem
full = record { npages = 4; pages = page_infos; page_free_list = none; frame = λ _ _. 0 }

pub small-HasFree : HasFree small (1 ∷ 2 ∷ [])
small-HasFree = record {
  chain = (refl, (refl, refl));
  distinct = ((λ e. omega (arith, e), tt), (tt, tt));
  unused = ((omega arith, refl), ((omega arith, refl), tt));
}

pub full-HasFree : HasFree full []
full-HasFree = record { chain = refl; distinct = tt; unused = tt }

page_init_example :
    (ps : List ℕ) × HasFree (page_init 2 full) ps
    × ((p : ℕ) → Contains p ps ↔ ((p < full.npages) × IsAvailable 2 p))
page_init_example = page_init-HasFree 2 full refl

abbrev pub mem_of : {A : Type 0} → Option (A × Mem) → Mem
mem_of none = full
mem_of (some (_, m)) = m

-- Page 0 is mapped at the address 0 by page directory 3; page 1 becomes the page table.
abbrev walked : Mem
walked = mem_of (pgdir_walk 3 0 true small)

abbrev pub inserted : Mem
inserted = mem_of (page_insert 3 0 0 6 small)

walk_small : pgdir_walk 3 0 true small ≡ some (some (1, 0), walked)
unfolding pgdir_walk make_table find_entry page_alloc
walk_small = refl

insert_small : page_insert 3 0 0 6 small ≡ some (val 0, inserted)
unfolding page_insert pgdir_walk make_table find_entry page_alloc insert_entry page_remove
    page_lookup lookup_entry drop_entry
insert_small = refl

npages_inserted : inserted.npages ≡ 4
unfolding page_insert pgdir_walk make_table find_entry page_alloc insert_entry page_remove
    page_lookup lookup_entry drop_entry
npages_inserted = refl

page_insert_example :
    (page_lookup 3 0 inserted ≡ some (some (0, 1, 0), inserted))
    × (inserted.frame 1 0 ≡ or_p (0 * pg_size + 6))
    × ((j : ℕ) → j ≢ 0 → inserted.frame 1 j ≡ walked.frame 1 j)
page_insert_example =
    page_insert-page_lookup 3 0 0 6 1 0 small walked inserted (omega (arith, npages_inserted))
      (omega arith) walk_small (λ e. omega (arith, e)) insert_small

pub lookup_inserted : page_lookup 3 0 inserted ≡ some (some (0, 1, 0), inserted)
unfolding page_insert pgdir_walk make_table find_entry page_alloc insert_entry page_remove
    page_lookup lookup_entry drop_entry
lookup_inserted = refl

abbrev removed : Mem
removed = mem_of (page_remove 3 0 inserted)

walk_inserted : pgdir_walk 3 0 false inserted ≡ some (some (1, 0), inserted)
unfolding page_insert pgdir_walk make_table find_entry page_alloc insert_entry page_remove
    page_lookup lookup_entry drop_entry
walk_inserted = refl

remove_inserted : page_remove 3 0 inserted ≡ some (tt, removed)
unfolding page_insert pgdir_walk make_table find_entry page_alloc insert_entry page_remove
    page_lookup lookup_entry drop_entry page_decref page_free
remove_inserted = refl

user_mem_check_example : (user_mem_check 3 0 1 4 inserted ≡ some granted) ↔ (
    (rounddown (0 + 1 + 4095) ≤ utop)
    × ((k : ℕ)
        → rounddown 0 + k * pg_size < 0 + 1
        → PageGrants 3 (or_p 4) inserted (rounddown 0 + k * pg_size)))
user_mem_check_example = user_mem_check_iff 3 0 1 4 inserted (omega arith)

-- Four pages, of which page 0 is reserved.
abbrev blank : Mem
blank = record {
  npages = 4;
  pages = λ p. record { pp_link = none; pp_ref = 0 };
  page_free_list = none;
  frame = λ p i. 0;
}

Uses-page_alloc_example :
    (page_alloc false (page_init 300 blank) ≡ some (none, page_init 300 blank))
    ⊎ ((p : ℕ) × ((m' : Mem) × ((page_alloc false (page_init 300 blank) ≡ some (some p, m'))
            × ((false ≡ false) × ((p < (page_init 300 blank).npages) × (refs p m' ≡ 0))))))
Uses-page_alloc_example = Uses-page_alloc 300 blank (at_boot 300 blank) false refl none_yet

abbrev memory_of : Option (Option ℕ × Mem) → Mem
memory_of none = blank
memory_of (some (_, m)) = m

-- Page 3 was taken, and then a reference to it counted.
abbrev took_three : Mem
took_three = memory_of (page_alloc false (page_init 300 blank))

three_taken : page_alloc false (page_init 300 blank) ≡ some (some 3, took_three)
unfolding page_alloc page_init init_pages
three_taken = refl

abbrev three_owned : ℕ → Bool
three_owned = update (λ _. false) 3 true

abbrev took : Heap
took = record { mem = took_three; owned = three_owned }

abbrev counted_three : Heap
counted_three = record { mem = page_incref 3 took_three; owned = three_owned }

fresh_three : refs 3 took_three ≡ 0
unfolding page_alloc page_init init_pages
fresh_three = refl

counted_three-Uses : Uses (at_boot 300 blank) counted_three
counted_three-Uses =
    then_use (then_use none_yet (takes (at_boot 300 blank) false 3 took_three three_taken))
      (counts_up took 3 refl (omega (arith, fresh_three)))

Uses-page_decref_example :
    (m' : Mem) × ((page_decref 3 (page_incref 3 took_three) ≡ some (tt, m'))
      × ((refs 3 m' ≡ 0) × Last 0 3 m'))
Uses-page_decref_example =
    Uses-page_decref 300 blank counted_three 3 0 refl counted_three-Uses refl counted_one
  where
    counted_one : refs 3 (page_incref 3 took_three) ≡ 1
    counted_one = omega (arith, fresh_three)

abbrev memory_behind : Option (Option (ℕ × ℕ) × Mem) → Mem
memory_behind none = blank
memory_behind (some (_, m)) = m

-- Four MiB of memory, with a kernel that ends behind the first of them.
abbrev four_mib : Mem
four_mib = record {
  npages = 1024;
  pages = λ p. record { pp_link = none; pp_ref = 0 };
  page_free_list = none;
  frame = λ p i. 0;
}

start_memory-Placed_example :
    (t : Tables) × (m' : Mem) × (ps : List ℕ) × (start_memory 0xf0112345 four_mib ≡ some (t, m'))
    × Placed 1024 0xf0112345 t
    × HasFree m' ps
    × ((p : ℕ) → Contains p ps ↔ IsFreeAt 1024 t p)
start_memory-Placed_example =
    start_memory-Placed 0xf0112345 four_mib (omega arith) (omega arith) (omega arith)
