-- ===== src/Sched/Debug/Step.antt =====
-- One round of the loop of `stab_binsearch`, in sched/kern/kdebug.c, and what it keeps.
use sistemas_operativos.Prelude.{
  ℕ, ◌+◌, ◌-◌, ◌*◌, ◌%◌, ◌^◌, ◌≡◌, ◌≢◌, ◌≤◌, ◌<◌, ◌⊎◌, inl, inr, refl, true, false, none, ltb,
  arith, Bool-cases, Option-cases, dec_lt, ltb→lt, ap, ◌∙◌,
}
use native.Mathlib.Nat.{mod-eq_of_lt}
use sistemas_operativos.Sched.Debug.Search.{
  Stab, Search, Region, find_down, at_match, middle, search_step,
}
use sistemas_operativos.Sched.Debug.Scan.{NoneBetween, find_down-none, find_down-some}

-- The entries of a type in a region stand in the order of their addresses.
abbrev pub InOrder : (ℕ → Stab) → ℕ → Region → Type 0
InOrder stabs type r =
    (i j : ℕ)
    → r.left ≤ i
    → i ≤ j
    → j < r.behind
    → (stabs i).n_type ≡ type
    → (stabs j).n_type ≡ type
    → (stabs i).n_value ≤ (stabs j).n_value

module _ (stabs : ℕ → Stab) (type : ℕ) (r : Region) (addr : ℕ) where
  -- The left end is the last entry that was found, or still the first index with no entry found.
  abbrev pub Progress : Search → Type 0
  Progress s =
      ((r.left ≤ s.region_left)
        × ((s.region_left < s.hi)
            × (((stabs s.region_left).n_type ≡ type)
                × (((stabs s.region_left).n_value ≤ addr)
                    × ((s.any_matches ≡ true) × NoneBetween stabs type s.region_left s.lo)))))
      ⊎ ((j : ℕ) → r.left ≤ j → j < s.lo → (stabs j).n_type ≢ type)

  pub record Invariant (s : Search) : Type 0 where
    pub from : r.left ≤ s.lo
    pub upto : s.hi ≤ r.behind
    pub same_end : s.region_end ≡ s.hi
    pub searched : (s.addr ≡ addr) ⊎ (s.addr ≡ addr + 1)
    pub progress : Progress s
    pub behind_end :
        (j : ℕ) → s.hi ≤ j → j < r.behind → (stabs j).n_type ≡ type → addr < (stabs j).n_value

  module _ (sorted : InOrder stabs type r)
      (no_next : (j : ℕ)
        → r.left ≤ j
        → j < r.behind
        → (stabs j).n_type ≡ type
        → (stabs j).n_value ≢ addr + 1)
      (small : addr + 1 < 2 ^ 32) where
    at_match-Invariant :
        (s : Search) (m : ℕ)
        → Invariant s
        → s.lo < s.hi
        → s.lo ≤ m
        → m ≤ middle s
        → (stabs m).n_type ≡ type
        → NoneBetween stabs type m (middle s + 1)
        → Invariant (at_match stabs type (middle s) m s)
    unfolding at_match
    at_match-Invariant s m inv more le le' t alone =
        elim (Bool-cases (ltb (stabs m).n_value s.addr)) [
          | inl less ↦
              rw (at_match, less)
                (record {
                  from = omega (arith, inv.from, le);
                  upto = inv.upto;
                  same_end = inv.same_end;
                  searched = inv.searched;
                  progress = inl (
                    omega (arith, inv.from, le),
                    (omega (arith, more, le'), (t, (within less, (refl, alone)))),
                  );
                  behind_end = inv.behind_end;
                })
          | inr not_less ↦ elim (Bool-cases (ltb s.addr (stabs m).n_value)) [
            | inl greater ↦
                rw (at_match, not_less, greater)
                  (record {
                    from = inv.from;
                    upto = omega (arith, inv.upto, more, le');
                    same_end = refl;
                    searched = inv.searched;
                    progress = left_of greater inv.progress;
                    behind_end = λ j le'' lt t'. omega (
                      arith,
                      above greater,
                      sorted m j (omega (arith, inv.from, le)) le'' lt t t',
                    );
                  })
            | inr not_greater ↦
                let here : s.addr ≡ addr = exact (equal not_less not_greater) in
                rw (at_match, not_less, not_greater)
                  (record {
                    from = omega (arith, inv.from, le);
                    upto = inv.upto;
                    same_end = inv.same_end;
                    searched = inr (ap (λ (a : ℕ). (a + 1) % 2 ^ 32) here ∙ mod-eq_of_lt small);
                    progress = inl (
                      omega (arith, inv.from, le),
                      (
                        omega (arith, more, le'),
                        (
                          t,
                          (
                            omega (arith, equal not_less not_greater, here),
                            (refl, λ j a b. absurd (omega (arith, a, b))),
                          ),
                        ),
                      ),
                    );
                    behind_end = inv.behind_end;
                  })
          ]
        ]
      where
        in_region : (r.left ≤ m) × (m < r.behind)
        in_region = (omega (arith, inv.from, le), omega (arith, inv.upto, more, le'))

        searching : (s.addr ≤ addr + 1) × (addr ≤ s.addr)
        searching = elim (inv.searched) [
          | inl e ↦ (omega (arith, e), omega (arith, e))
          | inr e ↦ (omega (arith, e), omega (arith, e))
        ]

        within : ltb (stabs m).n_value s.addr ≡ true → (stabs m).n_value ≤ addr
        within e = omega (arith, ltb→lt (stabs m).n_value s.addr e, searching.0)

        above : ltb s.addr (stabs m).n_value ≡ true → addr < (stabs m).n_value
        above e = omega (arith, ltb→lt s.addr (stabs m).n_value e, searching.1)

        equal :
            ltb (stabs m).n_value s.addr ≡ false
            → ltb s.addr (stabs m).n_value ≡ false
            → (stabs m).n_value ≡ s.addr
        equal e e' = ground arith

        exact : (stabs m).n_value ≡ s.addr → s.addr ≡ addr
        exact e = elim (inv.searched) [
          | inl here ↦ here
          | inr next ↦ absurd (no_next m (in_region.0) (in_region.1) t (e ∙ next))
        ]

        left_of :
            (ltb s.addr (stabs m).n_value ≡ true)
            → Progress s
            → Progress (record s { region_end = m; hi = m; any_matches = true })
        left_of e (inl (a, (b, (c, (d, (f, g)))))) = elim (dec_lt s.region_left m) [
          | yes lt ↦ inl (a, (lt, (c, (d, (refl, g)))))
          | no not_lt ↦ absurd (
              omega (
                arith,
                above e,
                d,
                sorted m s.region_left (in_region.0) (omega (arith, not_lt))
                    (omega (arith, b, inv.upto)) t c,
              ))
        ]
        left_of e (inr none_yet) = inr none_yet

    abbrev pub measure : Search → ℕ
    measure s = 2 * (s.hi - s.lo) + (addr + 1 - s.addr)

    at_match-fewer :
        (s : Search) (m : ℕ)
        → Invariant s
        → Invariant (at_match stabs type (middle s) m s)
        → s.lo < s.hi
        → s.lo ≤ m
        → m ≤ middle s
        → measure (at_match stabs type (middle s) m s) < measure s
    unfolding at_match
    at_match-fewer s m inv inv' more le le' = ground (arith, inv.searched, inv'.searched, small)

    none-Invariant :
        (s : Search)
        → Invariant s
        → s.lo < s.hi
        → find_down stabs type (middle s + 1 - s.lo) (middle s) ≡ none
        → Invariant (record s { lo = middle s + 1 })
    none-Invariant s inv more e = record {
      from = omega (arith, inv.from, more);
      upto = inv.upto;
      same_end = inv.same_end;
      searched = inv.searched;
      progress = further (inv.progress);
      behind_end = inv.behind_end;
    }
      where
        passed : (j : ℕ) → s.lo ≤ j → j < middle s + 1 → (stabs j).n_type ≢ type
        passed j le lt =
            find_down-none stabs type (middle s + 1 - s.lo) (middle s) j e (omega (arith, le, more))
              (omega (arith, lt))

        further : Progress s → Progress (record s { lo = middle s + 1 })
        further (inl (a, (b, (c, (d, (f, g)))))) = inl (
          a,
          (
            b,
            (
              c,
              (
                d,
                (
                  f,
                  λ j lt lt'. elim (dec_lt j s.lo) [
                    | yes old ↦ g j lt old
                    | no new ↦ passed j (omega (arith, new)) lt'
                  ],
                ),
              ),
            ),
          ),
        )
        further (inr none_yet) = inr (λ j le lt. elim (dec_lt j s.lo) [
          | yes old ↦ none_yet j le old
          | no new ↦ passed j (omega (arith, new)) lt
        ])

    pub search_step-Invariant :
        (s : Search)
        → Invariant s
        → s.lo < s.hi
        → Invariant (search_step stabs type s) × (measure (search_step stabs type s) < measure s)
    unfolding search_step
    search_step-Invariant s inv more =
        elim (Option-cases (find_down stabs type (middle s + 1 - s.lo) (middle s))) [
          | inl e ↦ rw (search_step, e) (none-Invariant s inv more e, omega (arith, more))
          | inr (m, e) ↦
              let (a, (b, (c, d))) =
                find_down-some stabs type (middle s + 1 - s.lo) (middle s) m e (omega arith) in
              let le : s.lo ≤ m = omega (arith, b, more) in
              let inv' = at_match-Invariant s m inv more le a c d in
              rw (search_step, e) (inv', at_match-fewer s m inv inv' more le a)
        ]
