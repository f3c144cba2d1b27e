-- ===== src/Sched/Memory/Mapping.antt =====
-- What `page_insert`, `page_remove` and `page_lookup` of sched/kern/pmap.c do to one mapping.
use sistemas_operativos.Prelude.{
  ℕ, ◌+◌, ◌*◌, ◌%◌, ◌<◌, ◌≡◌, ◌≢◌, ◌⊎◌, inl, inr, refl, sym, ap, subst, Bool, true, false, Option,
  none, some, arith, ltb, ◌==◌, ==_iff, Bool-cases, Option-cases, ◌∙◌,
}
use sistemas_operativos.Prelude.Bits.{bit_or-page}
use sistemas_operativos.Sched.Memory.Defs.{
  Mem, ◌>>=◌, bind_some, bind_none, or_p, val, pdx, ptx, pg_num, pg_size, put_ref, page_decref,
  page_free, page_incref, make_table, find_entry, pgdir_walk,
}
use sistemas_operativos.Sched.Memory.Tables.{
  lookup_entry, page_lookup, drop_entry, page_remove, new_pte, insert_entry, page_insert,
}

-- Without `create` the walk only reads.
make_table-read : (pgdir va : ℕ) (m : Mem) → make_table pgdir va false m ≡ some (tt, m)
unfolding make_table
make_table-read pgdir va m = ground arith

pgdir_walk-read : (pgdir va : ℕ) (m : Mem) → pgdir_walk pgdir va false m ≡ find_entry pgdir va m
unfolding pgdir_walk
pgdir_walk-read pgdir va m = rw (make_table-read pgdir va m, ◌>>=◌)

-- The frames stay as they are when a page is counted down or freed.
page_free-frame :
    (p : ℕ) (m m' : Mem)
    → page_free p m ≡ some (tt, m')
    → (m'.frame ≡ m.frame) × (m'.npages ≡ m.npages)
unfolding page_free
page_free-frame p m m' e = ground arith

page_decref-frame :
    (p : ℕ) (m m' : Mem)
    → page_decref p m ≡ some (tt, m')
    → (m'.frame ≡ m.frame) × (m'.npages ≡ m.npages)
unfolding page_decref
page_decref-frame p m m' e =
    ground (arith, page_free-frame p (put_ref p (((m.pages p).pp_ref + 65535) % 65536) m) m')

-- The entry of `va` in `m` is word `i` of page `f`.
pub record Entry (pgdir va : ℕ) (m : Mem) (f i : ℕ) : Type 0 where
  pub table : m.frame pgdir (pdx va) ≢ 0
  pub number : pg_num (m.frame pgdir (pdx va)) ≡ f
  pub index : ptx va ≡ i
  pub exists : f < m.npages

find_entry-Entry :
    (pgdir va : ℕ) (m : Mem) {m' : Mem} (f i : ℕ)
    → find_entry pgdir va m ≡ some (some (f, i), m')
    → Entry pgdir va m f i × (m' ≡ m)
unfolding find_entry
find_entry-Entry pgdir va m f i e = ground arith

Entry-find_entry :
    (pgdir va : ℕ) (m : Mem) (f i : ℕ)
    → Entry pgdir va m f i
    → find_entry pgdir va m ≡ some (some (f, i), m)
unfolding find_entry
Entry-find_entry pgdir va m f i e = ground arith

-- A word that is read, or is 0: what `page_lookup` makes of an entry.
Entry-page_lookup :
    (pgdir va : ℕ) (m : Mem) (f i : ℕ)
    → Entry pgdir va m f i
    → page_lookup pgdir va m ≡ lookup_entry (some (f, i)) m
unfolding page_lookup
Entry-page_lookup pgdir va m f i e =
    rw (pgdir_walk-read pgdir va m, Entry-find_entry pgdir va m f i e, ◌>>=◌)

-- What `page_remove` leaves of the frames.
record Cleared (f i : ℕ) (m m' : Mem) : Type 0 where
  same_npages : m'.npages ≡ m.npages
  word : m'.frame f i ≡ 0
  others : (q j : ℕ) → (q ≢ f) ⊎ (j ≢ i) → m'.frame q j ≡ m.frame q j

drop_entry-Cleared :
    (p f i : ℕ) (m m' : Mem) → drop_entry (some (p, f, i)) m ≡ some (tt, m') → Cleared f i m m'
unfolding drop_entry
drop_entry-Cleared p f i m m' e = elim (Option-cases (page_decref p m)) [
  | inl stuck ↦ absurd (ground (arith, stuck))
  | inr ((_, m1), q) ↦ record {
    same_npages = ground (arith, page_decref-frame p m m1 q);
    word = ground (arith, page_decref-frame p m m1 q);
    others = λ r j ne. ground (arith, page_decref-frame p m m1 q);
  }
]

drop_none : (m : Mem) → drop_entry none m ≡ some (tt, m)
unfolding drop_entry
drop_none m = refl

lookup_entry-zero :
    (m : Mem) (f i : ℕ) → m.frame f i ≡ 0 → lookup_entry (some (f, i)) m ≡ some (none, m)
unfolding lookup_entry
lookup_entry-zero m f i z = rw z

zero-Cleared :
    (m m' : Mem) (f i : ℕ) → m.frame f i ≡ 0 → drop_entry none m ≡ some (tt, m') → Cleared f i m m'
zero-Cleared m m' f i z e = record {
  same_npages = ground (arith, drop_none m);
  word = ground (arith, drop_none m);
  others = λ r j ne. ground (arith, drop_none m);
}

lookup_entry-Cleared :
    (m m' : Mem) (f i : ℕ)
    → (lookup_entry (some (f, i)) >>= drop_entry) m ≡ some (tt, m')
    → Cleared f i m m'
unfolding lookup_entry
lookup_entry-Cleared m m' f i e = elim (Bool-cases (m.frame f i == 0)) [
  | inl z ↦ zero-Cleared m m' f i ((==_iff _ _).0 z) (
      sym (
        bind_some (lookup_entry (some (f, i))) drop_entry m m
          (lookup_entry-zero m f i ((==_iff _ _).0 z)))
      ∙ e)
  | inr nz ↦ elim (Bool-cases (ltb (pg_num (m.frame f i)) m.npages)) [
    | inl lt ↦ drop_entry-Cleared (pg_num (m.frame f i)) f i m m' (ground arith)
    | inr ge ↦ absurd (ground arith)
  ]
]

Entry-page_remove :
    (pgdir va : ℕ) (m : Mem) (f i : ℕ)
    → Entry pgdir va m f i
    → page_remove pgdir va m ≡ (lookup_entry (some (f, i)) >>= drop_entry) m
unfolding page_remove
Entry-page_remove pgdir va m f i e = rw (
  pgdir_walk-read pgdir va m,
  Entry-find_entry pgdir va m f i e,
  Entry-page_lookup pgdir va m f i e,
  ◌>>=◌,
)

page_remove-Cleared :
    (pgdir va : ℕ) (m m' : Mem) (f i : ℕ)
    → Entry pgdir va m f i
    → page_remove pgdir va m ≡ some (tt, m')
    → Cleared f i m m'
page_remove-Cleared pgdir va m m' f i e h =
    lookup_entry-Cleared m m' f i (sym (Entry-page_remove pgdir va m f i e) ∙ h)

new_pte_lem : (p perm : ℕ) → perm < 4096 → (new_pte p perm ≢ 0) × (pg_num (new_pte p perm) ≡ p)
new_pte_lem p perm h = omega (arith, bit_or-page p perm h)

-- The frames and sizes that `page_insert` leaves behind the walk.
insert_entry-effect :
    (pgdir p va perm f i : ℕ) (m m' : Mem)
    → Entry pgdir va m f i
    → insert_entry pgdir p va perm (some (f, i)) m ≡ some (val 0, m')
    → (m'.npages ≡ m.npages)
      × (m'.frame f i ≡ new_pte p perm)
      × ((q j : ℕ) → (q ≢ f) ⊎ (j ≢ i) → m'.frame q j ≡ m.frame q j)
unfolding insert_entry
insert_entry-effect pgdir p va perm f i m m' e h =
    elim (Option-cases (page_remove pgdir va (page_incref p m))) [
      | inl stuck ↦ absurd (ground (arith, stuck))
      | inr ((_, m1), q) ↦
          let c =
            page_remove-Cleared pgdir va (page_incref p m) m1 f i
              (record { table = e.table; number = e.number; index = e.index; exists = e.exists })
              q in
          (ground (arith, c.same_npages), ground arith, λ r j ne. ground (arith, c.others r j ne))
    ]

lookup_entry-page :
    (m : Mem) (f i p perm : ℕ)
    → perm < 4096
    → p < m.npages
    → m.frame f i ≡ new_pte p perm
    → lookup_entry (some (f, i)) m ≡ some (some (p, f, i), m)
unfolding lookup_entry
lookup_entry-page m f i p perm small lt e = ground (arith, new_pte_lem p perm small)

none≢some : {A : Type 0} {a : A} → ◌≢◌ {A = Option A} none (some a)
none≢some e = cc

-- The walk that creates tables ends at an entry of the state that it leaves.
pgdir_walk-Entry :
    (pgdir va : ℕ) (z : Bool) (m m' : Mem) (f i : ℕ)
    → pgdir_walk pgdir va z m ≡ some (some (f, i), m')
    → Entry pgdir va m' f i
unfolding pgdir_walk
pgdir_walk-Entry pgdir va z m m' f i h = elim (Option-cases (make_table pgdir va z m)) [
  | inl stuck ↦
      absurd
        (none≢some (sym (bind_none (make_table pgdir va z) (λ _. find_entry pgdir va) m stuck) ∙ h))
  | inr ((_, m1), q) ↦
      let r =
        find_entry-Entry pgdir va m1 f i
          (sym (bind_some (make_table pgdir va z) (λ _. find_entry pgdir va) m m1 q) ∙ h) in
      subst (λ n. Entry pgdir va n f i) (sym r.1) r.0
]

-- A mapping that `page_insert` made, of an existing page p with permissions below 4096 and with the
-- entry outside of the page directory itself: `page_lookup` of the same address finds page p, and
-- the word that it stores the address of holds page2pa(p) | perm | PTE_P. The rest of that page
-- table is as the walk left it.
pub page_insert-page_lookup :
    (pgdir p va perm f i : ℕ) (m m1 m' : Mem)
    → p < m'.npages
    → perm < 4096
    → pgdir_walk pgdir va true m ≡ some (some (f, i), m1)
    → f ≢ pgdir
    → page_insert pgdir p va perm m ≡ some (val 0, m')
    → (page_lookup pgdir va m' ≡ some (some (p, f, i), m'))
      × (m'.frame f i ≡ or_p (p * pg_size + perm))
      × ((j : ℕ) → j ≢ i → m'.frame f j ≡ m1.frame f j)
unfolding page_insert
page_insert-page_lookup pgdir p va perm f i m m1 m' lt small w apart h =
    let e = pgdir_walk-Entry pgdir va true m m1 f i w in
    let g =
      insert_entry-effect pgdir p va perm f i m1 m' e
        (sym (bind_some (pgdir_walk pgdir va true) (insert_entry pgdir p va perm) m m1 w) ∙ h) in
    (
      Entry-page_lookup pgdir va m' f i (record {
        table = ground (arith, g.2 pgdir (pdx va), e.table);
        number = ground (arith, g.2 pgdir (pdx va), e.number);
        index = e.index;
        exists = ground (arith, e.exists);
      })
          ∙ lookup_entry-page m' f i p perm small lt g.1,
      g.1 ∙ ap or_p (bit_or-page p perm small),
      λ j ne. g.2 f j (inr ne),
    )

-- After `page_remove` of an address whose entry lies outside of the page directory, `page_lookup`
-- finds nothing there, and no other word of memory has changed.
pub page_remove-page_lookup :
    (pgdir va f i : ℕ) (m m' : Mem)
    → pgdir_walk pgdir va false m ≡ some (some (f, i), m)
    → f ≢ pgdir
    → page_remove pgdir va m ≡ some (tt, m')
    → (page_lookup pgdir va m' ≡ some (none, m'))
      × ((q j : ℕ) → (q ≢ f) ⊎ (j ≢ i) → m'.frame q j ≡ m.frame q j)
page_remove-page_lookup pgdir va f i m m' w apart h =
    let e = pgdir_walk-Entry pgdir va false m m f i w in
    let c = page_remove-Cleared pgdir va m m' f i e h in
    (
      Entry-page_lookup pgdir va m' f i (record {
        table = ground (arith, c.others pgdir (pdx va), e.table);
        number = ground (arith, c.others pgdir (pdx va), e.number);
        index = e.index;
        exists = ground (arith, e.exists, c.same_npages);
      })
          ∙ lookup_entry-zero m' f i c.word,
      c.others,
    )
