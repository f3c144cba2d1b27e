-- ===== src/Sched/Memory/Ownership.antt =====
-- The page allocator of sched/kern/pmap.c over time: who has which page.
use sistemas_operativos.Prelude.{
  ℕ, zero, suc, ◌+◌, ◌%◌, ◌≤◌, ◌<◌, ◌≡◌, ◌≢◌, inl, inr, refl, sym, ap, subst, ◌∙◌, Bool, true,
  false, none, some, not, List, ◌∷◌, arith, update, update_ne, ◌==◌, if◌then◌else◌, Bool-cases,
  some_injective,
}
use sistemas_operativos.Sched.Memory.Defs.{
  PageInfo, Mem, page_alloc, page_free, page_decref, page_incref, put_ref,
}
use sistemas_operativos.Sched.Memory.FreeList.{
  Avoids, HasFree, Allocated, page_free-push, page_decref_lem, list_after, freed, counted,
  counted-HasFree,
}

-- The memory, and the pages that `page_alloc` has handed out and that were not given back.
pub record Heap : Type 0 where
  pub mem : Mem
  pub owned : ℕ → Bool

abbrev pub refs : ℕ → Mem → ℕ
refs p m = (m.pages p).pp_ref

-- What users of the allocator do: they take pages, write to memory, count references to pages that they own up
-- and down, and give unreferenced pages back.
pub data Use : Heap → Heap → Type 0 where
  takes :
      (h : Heap) (z : Bool) (p : ℕ) (m' : Mem)
      → page_alloc z h.mem ≡ some (some p, m')
      → Use h (record { mem = m'; owned = update h.owned p true })
  finds_none :
      (h : Heap) (z : Bool) (m' : Mem)
      → page_alloc z h.mem ≡ some (none, m')
      → Use h (record { mem = m'; owned = h.owned })
  writes :
      (h : Heap) (frame : ℕ → ℕ → ℕ)
      → Use h (record { mem = record (h.mem) { frame = frame }; owned = h.owned })
  counts_up :
      (h : Heap) (p : ℕ)
      → h.owned p ≡ true
      → refs p h.mem < 65535
      → Use h (record { mem = page_incref p h.mem; owned = h.owned })
  counts_down :
      (h : Heap) (p r : ℕ) (m' : Mem)
      → h.owned p ≡ true
      → refs p h.mem ≡ suc r
      → page_decref p h.mem ≡ some (tt, m')
      → Use h (record { mem = m'; owned = update h.owned p (not (r == 0)) })
  gives_back :
      (h : Heap) (p : ℕ) (m' : Mem)
      → h.owned p ≡ true
      → refs p h.mem ≡ 0
      → page_free p h.mem ≡ some (tt, m')
      → Use h (record { mem = m'; owned = update h.owned p false })

pub data Uses (start : Heap) : Heap → Type 0 where
  none_yet : Uses start start
  then_use : {h h' : Heap} → Uses start h → Use h h' → Uses start h'

-- An owned page exists, is off the free list, and has a counter that did not wrap.
pub record Held (m : Mem) (ps : List ℕ) (p : ℕ) : Type 0 where
  pub off_list : Avoids p ps
  pub exists : p < m.npages
  pub unlinked : (m.pages p).pp_link ≡ none
  pub small : refs p m ≤ 65535

pub record Sound (h : Heap) (ps : List ℕ) : Type 0 where
  pub free : HasFree h.mem ps
  pub held : (p : ℕ) → h.owned p ≡ true → Held h.mem ps p

ap_small : {a b : ℕ} → a ≡ b → b ≤ 65535 → a ≤ 65535
ap_small e h = omega (arith, e, h)

-- A page whose record stays.
pub still-Held :
    {m m' : Mem} {ps ps' : List ℕ} (q : ℕ)
    → Held m ps q
    → m'.npages ≡ m.npages
    → m'.pages q ≡ m.pages q
    → Avoids q ps'
    → Held m' ps' q
still-Held q h n e a = record {
  off_list = a;
  exists = rw n h.exists;
  unlinked = ap (λ (i : PageInfo). i.pp_link) e ∙ h.unlinked;
  small = ap_small (ap (λ (i : PageInfo). i.pp_ref) e) h.small;
}

-- Page `p` gets or loses its owner, and the others keep theirs.
changed-held :
    (owned : ℕ → Bool) (b : Bool) (p : ℕ) (P : ℕ → Type 0)
    → (b ≡ true → P p)
    → ((q : ℕ) → q ≢ p → owned q ≡ true → P q)
    → (q : ℕ) → update owned p b q ≡ true
    → P q
changed-held owned b p P here there q o = elim (Bool-cases (p == q)) [
  | inl e ↦
      let same : p ≡ q = ground arith in
      subst P same (here (sym (ap (λ t. if t then b else owned q) e) ∙ o))
  | inr e ↦ there q (λ same. ground arith) (sym (ap (λ t. if t then b else owned q) e) ∙ o)
]

pub taken-Sound :
    (h : Heap) (z : Bool) (p : ℕ) (ps : List ℕ) (m' : Mem)
    → Sound h (p ∷ ps)
    → Allocated z p ps h.mem m'
    → Sound (record { mem = m'; owned = update h.owned p true }) ps
taken-Sound h z p ps m' s a = record {
  free = a.rest;
  held =
      changed-held h.owned true p (Held m' ps)
        (λ _. record {
          off_list = s.free.distinct.0;
          exists = rw a.same_npages s.free.unused.0.0;
          unlinked = a.unlinked;
          small = omega (arith, a.unreferenced);
        })
        (λ q ne o. still-Held q (s.held q o) a.same_npages (a.others q ne) (s.held q o).off_list.1);
}

pub counted-Sound :
    (h : Heap) (p r : ℕ) (ps : List ℕ)
    → Sound h ps
    → h.owned p ≡ true
    → r ≤ 65535
    → Sound (record { mem = counted p r h.mem; owned = h.owned }) ps
counted-Sound h p r ps s own small = record {
  free = counted-HasFree h.mem p r ps s.free (s.held p own).off_list;
  held = λ q o. elim (Bool-cases (p == q)) [
    | inl e ↦ record {
      off_list = (s.held q o).off_list;
      exists = (s.held q o).exists;
      unlinked = ground (arith, (s.held q o).unlinked);
      small = ground arith;
    }
    | inr e ↦
        still-Held q (s.held q o) refl (update_ne h.mem.pages p q _ (λ same. ground arith))
          (s.held q o).off_list
  ];
}

-- A page that an operation counts down or frees is the only one whose record it writes.
page_free-others :
    (p : ℕ) (m m' : Mem)
    → page_free p m ≡ some (tt, m')
    → (m'.npages ≡ m.npages) × ((q : ℕ) → q ≢ p → m'.pages q ≡ m.pages q)
unfolding page_free
page_free-others p m m' e = (ground arith, λ q ne. ground arith)

page_decref-others :
    (p : ℕ) (m m' : Mem)
    → page_decref p m ≡ some (tt, m')
    → (m'.npages ≡ m.npages) × ((q : ℕ) → q ≢ p → m'.pages q ≡ m.pages q)
unfolding page_decref
page_decref-others p m m' e = elim (Bool-cases ((refs p m + 65535) % 65536 == 0)) [
  | inl zero_refs ↦
      let (n, o) =
        page_free-others p (put_ref p ((refs p m + 65535) % 65536) m) m' (ground arith) in
      (n, λ q ne. o q ne ∙ ground arith)
  | inr some_refs ↦ (ground arith, λ q ne. ground arith)
]

Avoids-list_after : (r p q : ℕ) (ps : List ℕ) → q ≢ p → Avoids q ps → Avoids q (list_after r p ps)
Avoids-list_after zero p q ps ne a = (ne, a)
Avoids-list_after (suc r) p q ps ne a = a

page_decref-link :
    (p r : ℕ) (m m' : Mem)
    → refs p m ≡ suc (suc r)
    → refs p m ≤ 65535
    → page_decref p m ≡ some (tt, m')
    → (m'.pages p).pp_link ≡ (m.pages p).pp_link
unfolding page_decref
page_decref-link p r m m' e small run = ground arith

keeps_owner :
    (p r : ℕ) (m m' : Mem) (ps : List ℕ)
    → not (r == 0) ≡ true
    → Held m ps p
    → refs p m ≡ suc r
    → page_decref p m ≡ some (tt, m')
    → refs p m' ≡ r
    → m'.npages ≡ m.npages
    → Held m' (list_after r p ps) p
keeps_owner p zero m m' ps some_left h e run left n = absurd (ground arith)
keeps_owner p (suc r) m m' ps some_left h e run left n = record {
  off_list = h.off_list;
  exists = rw n h.exists;
  unlinked = page_decref-link p r m m' e h.small run ∙ h.unlinked;
  small = omega (arith, left, e, h.small);
}

-- A page that is counted down to no reference loses its owner, any other keeps it.
pub counted_down-Sound :
    (h : Heap) (p r : ℕ) (ps : List ℕ) (m' : Mem)
    → Sound h ps
    → h.owned p ≡ true
    → refs p h.mem ≡ suc r
    → page_decref p h.mem ≡ some (tt, m')
    → Sound (record { mem = m'; owned = update h.owned p (not (r == 0)) }) (list_after r p ps)
counted_down-Sound h p r ps m' s own e run =
    let here = s.held p own in
    let (m1, run1, left, free) =
      page_decref_lem h.mem p r ps s.free here.off_list here.exists here.unlinked e
        (omega (arith, here.small, e)) in
    let same : m1 ≡ m' = ap (λ x. x.1) (some_injective (tt, m1) (tt, m') (sym run1 ∙ run)) in
    let (n, others) = page_decref-others p h.mem m' run in
    record {
      free = subst (λ m. HasFree m (list_after r p ps)) same free;
      held =
          changed-held h.owned (not (r == 0)) p (Held m' (list_after r p ps))
            (λ some_left.
              keeps_owner p r h.mem m' ps some_left here e run (ap (refs p) (sym same) ∙ left) n)
            (λ q ne o.
              still-Held q (s.held q o) n (others q ne)
                (Avoids-list_after r p q ps ne (s.held q o).off_list));
    }

pub freed-Sound :
    (h : Heap) (p : ℕ) (ps : List ℕ) (m' : Mem)
    → Sound h ps
    → h.owned p ≡ true
    → refs p h.mem ≡ 0
    → page_free p h.mem ≡ some (tt, m')
    → Sound (record { mem = m'; owned = update h.owned p false }) (p ∷ ps)
freed-Sound h p ps m' s own e run =
    let here = s.held p own in
    let (run1, free) = page_free-push h.mem p ps s.free here.off_list here.exists e here.unlinked in
    let same : freed p h.mem ≡ m' =
      ap (λ x. x.1) (some_injective (tt, freed p h.mem) (tt, m') (sym run1 ∙ run)) in
    let (n, others) = page_free-others p h.mem m' run in
    record {
      free = subst (λ m. HasFree m (p ∷ ps)) same free;
      held =
          changed-held h.owned false p (Held m' (p ∷ ps)) (λ never. absurd (ground arith))
            (λ q ne o. still-Held q (s.held q o) n (others q ne) (ne, (s.held q o).off_list));
    }
