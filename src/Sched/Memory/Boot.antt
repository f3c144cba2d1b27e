-- ===== src/Sched/Memory/Boot.antt =====
-- `page_init` of sched/kern/pmap.c builds the free list of the pages that are not reserved.
use sistemas_operativos.Prelude.{
  ℕ, zero, suc, ◌+◌, ◌≤◌, ◌<◌, ◌≡◌, ◌≢◌, ◌⊎◌, ◌↔◌, inl, inr, refl, none, List, [], ◌∷◌, arith,
  if◌then◌else◌, Bool-cases,
}
use native.Mathlib.Nat.{add-zero, zero-add}
use native.Mathlib.Numerals.{add-one}
use sistemas_operativos.Sched.Memory.Defs.{Mem, put_link}
use sistemas_operativos.Sched.Memory.Init.{is_reserved, link_page, init_page, init_pages, page_init}
use sistemas_operativos.Sched.Memory.FreeList.{Avoids, HasFree, Chain-update, IsUnused-update}

-- The pages below `n` that are not reserved, the last one first.
abbrev pub free_below : ℕ → ℕ → List ℕ
free_below first_free zero = []
free_below first_free (suc n) =
    if is_reserved first_free n then free_below first_free n else n ∷ free_below first_free n

free_below-Avoids : (first_free n q : ℕ) → n ≤ q → Avoids q (free_below first_free n)
free_below-Avoids first_free zero q h = tt
free_below-Avoids first_free (suc n) q h = elim (Bool-cases (is_reserved first_free n)) [
  | inl e ↦ rw e (free_below-Avoids first_free n q (omega arith))
  | inr e ↦ rw e (omega arith, free_below-Avoids first_free n q (omega arith))
]

-- Three writes to the record of a page off the list, the last of which links it to the head.
module _ (first_free i : ℕ) (m : Mem) (lt : i < m.npages) where
  abbrev below : List ℕ
  below = free_below first_free i

  i-Avoids : Avoids i below
  i-Avoids = free_below-Avoids first_free i i (omega arith)

  reserved-HasFree : HasFree m below → HasFree (put_link i none m) below
  reserved-HasFree h = record {
    chain = Chain-update m.pages m.page_free_list i _ below i-Avoids h.chain;
    distinct = h.distinct;
    unused = IsUnused-update m.npages m.pages i _ below i-Avoids h.unused;
  }

  linked-HasFree : HasFree m below → HasFree (link_page i (put_link i none m)) (i ∷ below)
  linked-HasFree h = record {
    chain = (
      refl,
      rw here (
          Chain-update _ m.page_free_list i _ below i-Avoids (
            Chain-update _ m.page_free_list i _ below i-Avoids
              (Chain-update m.pages m.page_free_list i _ below i-Avoids h.chain))),
    );
    distinct = (i-Avoids, h.distinct);
    unused = (
      (lt, ground arith),
      IsUnused-update m.npages _ i _ below i-Avoids (
          IsUnused-update m.npages _ i _ below i-Avoids
            (IsUnused-update m.npages m.pages i _ below i-Avoids h.unused)),
    );
  }
    where
      here : ((link_page i (put_link i none m)).pages i).pp_link ≡ m.page_free_list
      here = ground arith

  init_page-HasFree :
      HasFree m below → HasFree (init_page first_free i m) (free_below first_free (suc i))
  init_page-HasFree h = elim (Bool-cases (is_reserved first_free i)) [
    | inl e ↦ rw e (reserved-HasFree h)
    | inr e ↦ rw e (linked-HasFree h)
  ]

npages-init_page : (first_free i : ℕ) (m : Mem) → (init_page first_free i m).npages ≡ m.npages
npages-init_page first_free i m = ground arith

init_pages-HasFree :
    (left first_free i : ℕ) (m : Mem)
    → i + left ≡ m.npages
    → HasFree m (free_below first_free i)
    → HasFree (init_pages left first_free i m) (free_below first_free (i + left))
unfolding init_pages
init_pages-HasFree zero first_free i m e h = rw (add-zero i) h
init_pages-HasFree (suc left) first_free i m e h = rw next (
    init_pages-HasFree left first_free (i + 1) (init_page first_free i m)
      (omega (arith, npages-init_page first_free i m)) (rw (add-one i) step))
  where
    next : i + suc left ≡ i + 1 + left
    next = omega arith

    step : HasFree (init_page first_free i m) (free_below first_free (suc i))
    step = init_page-HasFree first_free i m (omega arith) h

abbrev pub Contains : ℕ → List ℕ → Type 0
Contains p [] = ⊥
Contains p (x ∷ xs) = (p ≡ x) ⊎ Contains p xs

-- The pages that the comment of `page_init` calls free: base memory but for page 0 and the page of
-- MPENTRY_PADDR, and extended memory behind the kernel.
abbrev pub IsAvailable : ℕ → ℕ → Type 0
IsAvailable first_free p = (p ≢ 0) × (p ≢ 7) × ((p < 160) ⊎ ((256 ≤ p) × (first_free ≤ p)))

Contains-free_below :
    (first_free n p : ℕ) → Contains p (free_below first_free n) → (p < n) × IsAvailable first_free p
Contains-free_below first_free zero p h = absurd h
Contains-free_below first_free (suc n) p h = ground (arith, Contains-free_below first_free n p)

available-Contains :
    (first_free n p : ℕ) → p < n → IsAvailable first_free p → Contains p (free_below first_free n)
available-Contains first_free zero p lt a = absurd (omega arith)
available-Contains first_free (suc n) p lt a = ground (arith, available-Contains first_free n p)

-- From an empty list `page_init` leaves a free list of distinct, unreferenced pages which holds page
-- p exactly when p exists and is neither page 0, nor the page of MPENTRY_PADDR, nor in the IO hole,
-- nor in extended memory below the first free page of the kernel.
pub page_init-HasFree :
    (first_free : ℕ) (m : Mem)
    → m.page_free_list ≡ none
    → (ps : List ℕ) × HasFree (page_init first_free m) ps
      × ((p : ℕ) → Contains p ps ↔ ((p < m.npages) × IsAvailable first_free p))
unfolding page_init
page_init-HasFree first_free m e = (
  free_below first_free m.npages,
  rw zero-add at (
      init_pages-HasFree m.npages first_free 0 m (omega arith)
        (record { chain = e; distinct = tt; unused = tt })),
  λ p. (
    Contains-free_below first_free m.npages p,
    λ h. available-Contains first_free m.npages p h.0 h.1,
  ),
)
