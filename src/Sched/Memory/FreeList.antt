-- ===== src/Sched/Memory/FreeList.antt =====
-- The free list of sched/kern/pmap.c as a list of page numbers, and what the allocator does to it.
use sistemas_operativos.Prelude.{
  ℕ, zero, suc, ◌<◌, ◌≡◌, ◌≢◌, ◌⊎◌, refl, Bool, true, false, Option, none, some, List, [], ◌∷◌,
  arith, lt→ltb, update,
}
use sistemas_operativos.Sched.Memory.Defs.{
  PageInfo, Mem, page_alloc, page_free, page_decref, put_link, put_ref,
}

-- The links from `head` run through the pages of the list, in order, to NULL.
abbrev pub Chain : (ℕ → PageInfo) → Option ℕ → List ℕ → Type 0
Chain pages head [] = head ≡ none
Chain pages head (p ∷ ps) = (head ≡ some p) × Chain pages (pages p).pp_link ps

abbrev pub Avoids : ℕ → List ℕ → Type 0
Avoids q [] = Unit
Avoids q (p ∷ ps) = (q ≢ p) × Avoids q ps

abbrev pub IsDistinct : List ℕ → Type 0
IsDistinct [] = Unit
IsDistinct (p ∷ ps) = Avoids p ps × IsDistinct ps

-- Each page of the list exists and is unused.
abbrev pub IsUnused : ℕ → (ℕ → PageInfo) → List ℕ → Type 0
IsUnused npages pages [] = Unit
IsUnused npages pages (p ∷ ps) = ((p < npages) × ((pages p).pp_ref ≡ 0)) × IsUnused npages pages ps

-- The free list of `m` is `ps`: a chain of different, unused pages.
pub record HasFree (m : Mem) (ps : List ℕ) : Type 0 where
  pub chain : Chain m.pages m.page_free_list ps
  pub distinct : IsDistinct ps
  pub unused : IsUnused m.npages m.pages ps

-- A page off the list can be written without touching the chain.
pub Chain-update :
    (pages : ℕ → PageInfo) (head : Option ℕ) (q : ℕ) (x : PageInfo) (ps : List ℕ)
    → Avoids q ps
    → Chain pages head ps
    → Chain (update pages q x) head ps
Chain-update pages head q x [] a c = c
Chain-update pages head q x (p ∷ ps) a c =
    (c.0, rw off (Chain-update pages (pages p).pp_link q x ps a.1 c.1))
  where
    off : update pages q x p ≡ pages p
    off = ground arith

pub IsUnused-update :
    (n : ℕ) (pages : ℕ → PageInfo) (q : ℕ) (x : PageInfo) (ps : List ℕ)
    → Avoids q ps
    → IsUnused n pages ps
    → IsUnused n (update pages q x) ps
IsUnused-update n pages q x [] a u = tt
IsUnused-update n pages q x (p ∷ ps) a u =
    ((u.0.0, ground arith), IsUnused-update n pages q x ps a.1 u.1)

-- The state that `page_alloc` leaves when it takes page `p`, with the page's words in `frame`.
abbrev taken : ℕ → (ℕ → ℕ → ℕ) → Mem → Mem
taken p frame m = record (put_link p none (record m { page_free_list = (m.pages p).pp_link })) {
  frame = frame;
}

taken-HasFree :
    (m : Mem) (p : ℕ) (ps : List ℕ) (f : ℕ → ℕ → ℕ) → HasFree m (p ∷ ps) → HasFree (taken p f m) ps
taken-HasFree m p ps f h = record {
  chain = Chain-update m.pages (m.pages p).pp_link p _ ps h.distinct.0 h.chain.1;
  distinct = h.distinct.1;
  unused = IsUnused-update m.npages m.pages p _ ps h.distinct.0 h.unused.1;
}

-- With nothing free `page_alloc` returns NULL and changes nothing.
pub page_alloc-empty : (z : Bool) (m : Mem) → HasFree m [] → page_alloc z m ≡ some (none, m)
unfolding page_alloc
page_alloc-empty z m h = rw (h.chain)

-- What `page_alloc` promises of the state that it returns with page `p`.
pub record Allocated (z : Bool) (p : ℕ) (ps : List ℕ) (m m' : Mem) : Type 0 where
  pub rest : HasFree m' ps
  pub same_npages : m'.npages ≡ m.npages
  pub unlinked : (m'.pages p).pp_link ≡ none
  pub unreferenced : (m'.pages p).pp_ref ≡ 0
  pub others : (q : ℕ) → q ≢ p → m'.pages q ≡ m.pages q
  pub words : (q i : ℕ) → q ≢ p → m'.frame q i ≡ m.frame q i
  pub zeroed : z ≡ true → (i : ℕ) → m'.frame p i ≡ 0

-- With page `p` at the head of the free list `page_alloc` does not panic, returns `p` and takes it
-- off the list; every other page's record and words are unchanged, and ALLOC_ZERO clears the page.
pub page_alloc-cons :
    (z : Bool) (m : Mem) (p : ℕ) (ps : List ℕ)
    → HasFree m (p ∷ ps)
    → (m' : Mem) × (page_alloc z m ≡ some (some p, m')) × Allocated z p ps m m'
unfolding page_alloc
page_alloc-cons true m p ps h = (
  taken p (update m.frame p (λ _. 0)) m,
  rw (h.chain.0) (rw (lt→ltb p m.npages h.unused.0.0)),
  record {
    rest = taken-HasFree m p ps _ h;
    same_npages = refl;
    unlinked = ground arith;
    unreferenced = ground (arith, h.unused.0.1);
    others = λ q ne. ground arith;
    words = λ q i ne. ground arith;
    zeroed = λ _ i. ground arith;
  },
)
page_alloc-cons false m p ps h = (
  taken p m.frame m,
  rw (h.chain.0),
  record {
    rest = taken-HasFree m p ps _ h;
    same_npages = refl;
    unlinked = ground arith;
    unreferenced = ground (arith, h.unused.0.1);
    others = λ q ne. ground arith;
    words = λ q i ne. refl;
    zeroed = λ e. cc;
  },
)

abbrev pub freed : ℕ → Mem → Mem
freed p m = record (put_link p m.page_free_list m) { page_free_list = some p }

-- An unused page off the list can be put at its head.
freed-HasFree :
    (m : Mem) (p : ℕ) (ps : List ℕ)
    → HasFree m ps
    → Avoids p ps
    → p < m.npages
    → (m.pages p).pp_ref ≡ 0
    → HasFree (freed p m) (p ∷ ps)
freed-HasFree m p ps h a lt r = record {
  chain = (refl, rw link (Chain-update m.pages m.page_free_list p _ ps a h.chain));
  distinct = (a, h.distinct);
  unused = ((lt, ground arith), IsUnused-update m.npages m.pages p _ ps a h.unused);
}
  where
    link : ((freed p m).pages p).pp_link ≡ m.page_free_list
    link = ground arith

abbrev IsLinked : Option ℕ → Type 0
IsLinked l = (q : ℕ) × (l ≡ some q)

-- `page_free` panics at a page that has references or a link.
pub page_free-panic :
    (p : ℕ) (m : Mem)
    → ((m.pages p).pp_ref ≢ 0) ⊎ IsLinked (m.pages p).pp_link
    → page_free p m ≡ none
unfolding page_free
page_free-panic p m h = ground arith

-- `page_free` of an existing page off the list, without references and link, puts it at the head.
pub page_free-push :
    (m : Mem) (p : ℕ) (ps : List ℕ)
    → HasFree m ps
    → Avoids p ps
    → p < m.npages
    → (m.pages p).pp_ref ≡ 0
    → (m.pages p).pp_link ≡ none
    → (page_free p m ≡ some (tt, freed p m)) × HasFree (freed p m) (p ∷ ps)
unfolding page_free
page_free-push m p ps h a lt r l = (rw (r, l), freed-HasFree m p ps h a lt r)

abbrev pub counted : ℕ → ℕ → Mem → Mem
counted p r m = put_ref p r m

pub counted-HasFree :
    (m : Mem) (p r : ℕ) (ps : List ℕ) → HasFree m ps → Avoids p ps → HasFree (counted p r m) ps
counted-HasFree m p r ps h a = record {
  chain = Chain-update m.pages m.page_free_list p _ ps a h.chain;
  distinct = h.distinct;
  unused = IsUnused-update m.npages m.pages p _ ps a h.unused;
}

-- The free list after a page has come down to `r` references.
abbrev pub list_after : ℕ → ℕ → List ℕ → List ℕ
list_after zero p ps = p ∷ ps
list_after (suc r) p ps = ps

-- `page_decref` of a mapped page (off the free list, unlinked, with 1 to 65535 references) counts
-- down; the last reference puts the page at the head of the free list, any other leaves the list.
pub page_decref_lem :
    (m : Mem) (p r : ℕ) (ps : List ℕ)
    → HasFree m ps
    → Avoids p ps
    → p < m.npages
    → (m.pages p).pp_link ≡ none
    → (m.pages p).pp_ref ≡ suc r
    → r < 65535
    → (m' : Mem) × (page_decref p m ≡ some (tt, m'))
      × ((m'.pages p).pp_ref ≡ r)
      × HasFree m' (list_after r p ps)
unfolding page_decref
page_decref_lem m p zero ps h a lt l e small =
    let m1 = counted p 0 m in
    let q =
      page_free-push m1 p ps (counted-HasFree m p 0 ps h a) a lt (ground arith) (ground arith) in
    (freed p m1, simp e q.0, ground arith, q.1)
page_decref_lem m p (suc r) ps h a lt l e small =
    (counted p (suc r) m, ground arith, ground arith, counted-HasFree m p (suc r) ps h a)
