-- ===== src/Sched/Memory/Reachable.antt =====
-- The page allocator of sched/kern/pmap.c in every state that its users reach.
use sistemas_operativos.Prelude.{
  ℕ, zero, suc, ◌+◌, ◌%◌, ◌<◌, ◌≡◌, ◌⊎◌, inl, inr, refl, sym, ap, subst, ◌∙◌, Bool, true, false,
  none, some, List, [], ◌∷◌, arith, Bool-cases, some_injective, none≢some,
}
use sistemas_operativos.Sched.Memory.Defs.{Mem, page_alloc, page_decref}
use sistemas_operativos.Sched.Memory.Init.{page_init}
use sistemas_operativos.Sched.Memory.FreeList.{
  HasFree, Allocated, page_alloc-empty, page_alloc-cons, page_decref_lem, list_after,
}
use sistemas_operativos.Sched.Memory.Boot.{page_init-HasFree}
use sistemas_operativos.Sched.Memory.Ownership.{
  Heap, refs, Use, takes, finds_none, writes, counts_up, counts_down, gives_back, Uses, none_yet,
  then_use, Sound, still-Held, taken-Sound, counted-Sound, counted_down-Sound, freed-Sound,
}

-- What a call of `page_alloc` says of the free list.
pub taken_first :
    (h : Heap) (z : Bool) (p : ℕ) (m' : Mem) (ps : List ℕ)
    → Sound h ps
    → page_alloc z h.mem ≡ some (some p, m')
    → (rest : List ℕ) × Sound h (p ∷ rest) × Allocated z p rest h.mem m'
taken_first h z p m' [] s e = absurd (ground (arith, page_alloc-empty z h.mem s.free))
taken_first h z p m' (x ∷ ps) s e =
    let (m1, run, a) = page_alloc-cons z h.mem x ps s.free in
    let same = some_injective (some x, m1) (some p, m') (sym run ∙ e) in
    let is_first : x ≡ p = some_injective x p (ap (λ r. r.0) same) in
    (
      ps,
      subst (λ k. Sound h (k ∷ ps)) is_first s,
      subst (λ k. Allocated z k ps h.mem m') is_first
          (subst (λ m. Allocated z x ps h.mem m) (ap (λ r. r.1) same) a),
    )

none_left :
    (h : Heap) (z : Bool) (m' : Mem) (ps : List ℕ)
    → Sound h ps
    → page_alloc z h.mem ≡ some (none, m')
    → h.mem ≡ m'
none_left h z m' [] s e =
    ap (λ r. r.1)
      (some_injective (none, h.mem) (none, m') (sym (page_alloc-empty z h.mem s.free) ∙ e))
none_left h z m' (x ∷ ps) s e =
    let (m1, run, a) = page_alloc-cons z h.mem x ps s.free in
    absurd (none≢some x (ap (λ r. r.0) (some_injective (none, m') (some x, m1) (sym e ∙ run))))

Use-Sound : {h h' : Heap} (ps : List ℕ) → Use h h' → Sound h ps → (qs : List ℕ) × Sound h' qs
Use-Sound ps (takes h z p m' e) s =
    let (rest, s', a) = taken_first h z p m' ps s e in (rest, taken-Sound h z p rest m' s' a)
Use-Sound ps (finds_none h z m' e) s = (
  ps,
  subst (λ m. Sound (record { mem = m; owned = h.owned }) ps) (none_left h z m' ps s e)
      (record { free = s.free; held = s.held }),
)
Use-Sound ps (writes h frame) s = (
  ps,
  record {
    free = record { chain = s.free.chain; distinct = s.free.distinct; unused = s.free.unused };
    held = λ q o. still-Held q (s.held q o) refl refl (s.held q o).off_list;
  },
)
Use-Sound ps (counts_up h p own small) s =
    (ps, counted-Sound h p ((refs p h.mem + 1) % 65536) ps s own (omega arith))
Use-Sound ps (counts_down h p r m' own e run) s =
    (list_after r p ps, counted_down-Sound h p r ps m' s own e run)
Use-Sound ps (gives_back h p m' own e run) s = (p ∷ ps, freed-Sound h p ps m' s own e run)

Uses-Sound : {h h' : Heap} (ps : List ℕ) → Uses h h' → Sound h ps → (qs : List ℕ) × Sound h' qs
Uses-Sound ps none_yet s = (ps, s)
Uses-Sound ps (then_use us u) s = let (qs, s') = Uses-Sound ps us s in Use-Sound qs u s'

-- The allocator behind `page_init`, when nobody owns a page.
abbrev pub at_boot : ℕ → Mem → Heap
at_boot first_free m = record { mem = page_init first_free m; owned = λ _. false }

at_boot-Sound :
    (first_free : ℕ) (m : Mem)
    → m.page_free_list ≡ none
    → (ps : List ℕ) × Sound (at_boot first_free m) ps
at_boot-Sound first_free m e =
    let (ps, free, all) = page_init-HasFree first_free m e in
    (ps, record { free = free; held = λ q o. absurd (ground arith) })

pub reached :
    (first_free : ℕ) (m : Mem) (h : Heap)
    → m.page_free_list ≡ none
    → Uses (at_boot first_free m) h
    → (ps : List ℕ) × Sound h ps
reached first_free m h e us = let (ps, s) = at_boot-Sound first_free m e in Uses-Sound ps us s

pub not_owned : (h : Heap) (p : ℕ) (ps : List ℕ) → Sound h (p ∷ ps) → h.owned p ≡ false
not_owned h p ps s = elim (Bool-cases (h.owned p)) [
  | inl o ↦ absurd ((s.held p o).off_list.0 refl)
  | inr o ↦ o
]

-- Whatever the users of the allocator have done since `page_init`, `page_alloc` never panics: it changes nothing
-- and returns NULL, or returns an existing page without references that nobody owns.
pub Uses-page_alloc :
    (first_free : ℕ) (m : Mem) (h : Heap) (z : Bool)
    → m.page_free_list ≡ none
    → Uses (at_boot first_free m) h
    → (page_alloc z h.mem ≡ some (none, h.mem))
      ⊎ ((p : ℕ) × ((m' : Mem) × ((page_alloc z h.mem ≡ some (some p, m'))
              × ((h.owned p ≡ false) × ((p < h.mem.npages) × (refs p m' ≡ 0))))))
Uses-page_alloc first_free m h z e us = from (reached first_free m h e us)
  where
    from :
        (ps : List ℕ) × Sound h ps
        → (page_alloc z h.mem ≡ some (none, h.mem))
          ⊎ ((p : ℕ) × ((m' : Mem) × ((page_alloc z h.mem ≡ some (some p, m'))
                  × ((h.owned p ≡ false) × ((p < h.mem.npages) × (refs p m' ≡ 0))))))
    from ([], s) = inl (page_alloc-empty z h.mem s.free)
    from (p ∷ ps, s) =
        let (m', run, a) = page_alloc-cons z h.mem p ps s.free in
        inr (p, (m', (run, (not_owned h p ps s, (s.free.unused.0.0, a.unreferenced)))))

-- Behind the last reference: `page_alloc` returns the page.
abbrev pub Last : ℕ → ℕ → Mem → Type 0
Last zero p m = (m' : Mem) × (page_alloc false m ≡ some (some p, m'))
Last (suc r) p m = Unit

Last-list_after : (r p : ℕ) (ps : List ℕ) (m : Mem) → HasFree m (list_after r p ps) → Last r p m
Last-list_after zero p ps m free = let (m', run, a) = page_alloc-cons false m p ps free in (m', run)
Last-list_after (suc r) p ps m free = tt

-- Whatever the users of the allocator have done since `page_init`, a page with an owner and a
-- reference can be counted down: `page_decref` does not panic and takes one reference off,
-- and where it was the last one the next `page_alloc` returns this page.
pub Uses-page_decref :
    (first_free : ℕ) (m : Mem) (h : Heap) (p r : ℕ)
    → m.page_free_list ≡ none
    → Uses (at_boot first_free m) h
    → h.owned p ≡ true
    → refs p h.mem ≡ suc r
    → (m' : Mem) × ((page_decref p h.mem ≡ some (tt, m')) × ((refs p m' ≡ r) × Last r p m'))
Uses-page_decref first_free m h p r e us own counted_refs =
    let (ps, s) = reached first_free m h e us in
    let here = s.held p own in
    let (m', run, left, free) =
      page_decref_lem h.mem p r ps s.free here.off_list here.exists here.unlinked counted_refs
        (omega (arith, here.small, counted_refs)) in
    (m', (run, (left, Last-list_after r p ps m' free)))
