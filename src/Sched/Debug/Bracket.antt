-- ===== src/Sched/Debug/Bracket.antt =====
-- `stab_binsearch` of sched/kern/kdebug.c brackets the address.
use sistemas_operativos.Prelude.{
  ℕ, zero, suc, ◌+◌, ◌-◌, ◌*◌, ◌^◌, ◌≡◌, ◌≢◌, ◌≤◌, ◌<◌, inl, inr, refl, false, none, some, ltb,
  ◌==◌, arith, Bool-cases, Option-cases, dec_lt, ltb→lt,
}
use sistemas_operativos.Sched.Debug.Search.{
  Stab, Search, Region, find_down, search_step, search_loop, search_end, start_search,
  stab_binsearch,
}
use sistemas_operativos.Sched.Debug.Scan.{NoneBetween, find_down-some}
use sistemas_operativos.Sched.Debug.Step.{InOrder, Invariant, measure, search_step-Invariant}

-- What `stab_binsearch` is asked for: the last entry of the type at or before the address, and the place
-- of the next one.
pub record Brackets (stabs : ℕ → Stab) (type : ℕ) (r : Region) (addr : ℕ) (s : Region)
    : Type 0 where
  pub inside : (r.left ≤ s.left) × ((s.left < s.behind) × (s.behind ≤ r.behind))
  pub matches : (stabs s.left).n_type ≡ type
  pub before : (stabs s.left).n_value ≤ addr
  pub alone : NoneBetween stabs type s.left s.behind
  pub after :
      (j : ℕ) → s.behind ≤ j → j < r.behind → (stabs j).n_type ≡ type → addr < (stabs j).n_value

module _ (stabs : ℕ → Stab) (type : ℕ) (r : Region) (addr : ℕ) (sorted : InOrder stabs type r)
    (no_next : (j : ℕ)
      → r.left ≤ j
      → j < r.behind
      → (stabs j).n_type ≡ type
      → (stabs j).n_value ≢ addr + 1)
    (small : addr + 1 < 2 ^ 32) where
  abbrev Kept : Search → Type 0
  Kept = Invariant stabs type r addr

  search_loop-Invariant :
      (fuel : ℕ) (s : Search)
      → Kept s
      → measure stabs type r addr sorted no_next small s < fuel
      → (s' : Search) × ((search_loop stabs type fuel s ≡ some s') × (Kept s' × (s'.hi ≤ s'.lo)))
  unfolding search_loop
  search_loop-Invariant zero s inv le = elim le [ ]
  search_loop-Invariant (suc fuel) s inv le = elim (Bool-cases (ltb s.lo s.hi)) [
    | inr stop ↦ (s, (rw (search_loop, stop) refl, (inv, ground arith)))
    | inl more ↦
        let (inv', fewer) =
          search_step-Invariant stabs type r addr sorted no_next small s inv
            (ltb→lt s.lo s.hi more) in
        let (s', (run, rest)) =
          search_loop-Invariant fuel (search_step stabs type s) inv' (omega (arith, le, fewer)) in
        (s', (rw (search_loop, more) run, rest))
  ]

  start-Invariant : Kept (start_search addr r)
  start-Invariant = record {
    from = omega arith;
    upto = omega arith;
    same_end = refl;
    searched = inl refl;
    progress = inr (λ j le lt. absurd (omega (arith, le, lt)));
    behind_end = λ j le lt. absurd (omega (arith, le, lt));
  }

  search_end-Brackets :
      (s : Search) (i : ℕ)
      → Kept s
      → s.hi ≤ s.lo
      → r.left ≤ i
      → i < r.behind
      → (stabs i).n_type ≡ type
      → (stabs i).n_value ≤ addr
      → (e : Region) × ((search_end stabs type s ≡ some e) × Brackets stabs type r addr e)
  unfolding search_end
  search_end-Brackets s i inv done le lt t v = elim (inv.progress) [
    | inr none_yet ↦ (elim (dec_lt i s.hi) [
      | yes early ↦ absurd (none_yet i le (omega (arith, early, done)) t)
      | no late ↦ absurd (omega (arith, v, inv.behind_end i (omega (arith, late)) lt t))
    ])
    | inl (a, (b, (c, (d, (f, g))))) ↦
        let e : Region = record { left = s.region_left; behind = s.region_end } in
        let some_left : (s.region_end == 0) ≡ false = ground (arith, inv.same_end, b) in
        let inside : ltb (s.region_end - 1) s.region_left ≡ false =
          ground (arith, inv.same_end, b) in
        (
          e,
          (
            rw (search_end, f, some_left, scan g, inside) refl,
            record {
              inside = (a, (omega (arith, b, inv.same_end), omega (arith, inv.upto, inv.same_end)));
              matches = c;
              before = d;
              alone = λ j lt' lt''. g j lt' (omega (arith, lt'', inv.same_end, done));
              after = λ j le' lt'. inv.behind_end j (omega (arith, le', inv.same_end)) lt';
            },
          ),
        )
  ]
    where
      scan :
          NoneBetween stabs type s.region_left s.lo
          → find_down stabs type (s.region_end - 1 - s.region_left) (s.region_end - 1) ≡ none
      scan g =
          elim (Option-cases
            (find_down stabs type (s.region_end - 1 - s.region_left) (s.region_end - 1))) [
              | inl e ↦ e
              | inr (k, e) ↦
                  let (a, (b, (c, d))) =
                    find_down-some stabs type (s.region_end - 1 - s.region_left) (s.region_end - 1)
                      k e (omega arith) in
                  absurd (g k (omega (arith, a, b)) (omega (arith, a, inv.same_end, done, b)) c)
            ]

-- Let the entries of a type in a region stand in the order of their addresses, some of them at or before the
-- address `addr`, and none exactly at `addr + 1`. With twice as many rounds as the region has entries, and two
-- more, `stab_binsearch` ends, and its result brackets `addr`: the left end is the last entry of the type at or
-- before `addr`, and all entries of the type from the right end on, within the region, are behind it.
pub stab_binsearch_lem :
    (stabs : ℕ → Stab) (type : ℕ) (r : Region) (addr fuel i : ℕ)
    → InOrder stabs type r
    → ((j : ℕ) → r.left ≤ j → j < r.behind → (stabs j).n_type ≡ type → (stabs j).n_value ≢ addr + 1)
    → addr + 1 < 2 ^ 32
    → r.left ≤ i
    → i < r.behind
    → (stabs i).n_type ≡ type
    → (stabs i).n_value ≤ addr
    → 2 * (r.behind - r.left) + 2 ≤ fuel
    → (e : Region) × ((stab_binsearch stabs type fuel r addr ≡ some e)
        × Brackets stabs type r addr e)
unfolding stab_binsearch
stab_binsearch_lem stabs type r addr fuel i sorted no_next small le lt t v enough =
    let start = start-Invariant stabs type r addr sorted no_next small in
    let (s, (run, (inv, done))) =
      search_loop-Invariant stabs type r addr sorted no_next small fuel (start_search addr r) start
        (omega (arith, enough)) in
    let (e, (ends, brackets)) =
      search_end-Brackets stabs type r addr sorted no_next small s i inv done le lt t v in
    (e, (rw (run) ends, brackets))
