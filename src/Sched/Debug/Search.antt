-- ===== src/Sched/Debug/Search.antt =====
-- `stab_binsearch` of sched/kern/kdebug.c. A right end is the index behind it, so that the right end -1 is 0.
use sistemas_operativos.Prelude.{
  ℕ, zero, suc, ◌+◌, ◌-◌, ◌/◌, ◌%◌, ◌^◌, Bool, true, false, Option, none, some, ltb, ◌==◌,
  if◌then◌else◌,
}

-- `struct Stab`
pub record Stab : Type 0 where
  pub n_strx : ℕ
  pub n_type : ℕ
  pub n_other : ℕ
  pub n_desc : ℕ
  pub n_value : ℕ

-- The local variables of `stab_binsearch` and what its two pointers point to.
pub record Search : Type 0 where
  pub lo : ℕ
  pub hi : ℕ
  pub addr : ℕ
  pub region_left : ℕ
  pub region_end : ℕ
  pub any_matches : Bool

pub record Region : Type 0 where
  pub left : ℕ
  pub behind : ℕ

abbrev pub middle : Search → ℕ
middle s = (s.lo + s.hi - 1) / 2

abbrev pub start_search : ℕ → Region → Search
start_search addr r = record {
  lo = r.left;
  hi = r.behind;
  addr = addr;
  region_left = r.left;
  region_end = r.behind;
  any_matches = false;
}

module _ (stabs : ℕ → Stab) (type : ℕ) where
  -- "search for earliest stab with right type": at most `n` entries, from `m` down.
  unfoldable pub find_down : ℕ → ℕ → Option ℕ
  find_down zero m = none
  find_down (suc n) m =
      let rest = find_down n (m - 1) in if (stabs m).n_type == type then some m else rest

  -- "actual binary search", at the entry `m`.
  unfoldable pub at_match : ℕ → ℕ → Search → Search
  at_match true_m m s =
      if ltb (stabs m).n_value s.addr
      then record s { region_left = m; lo = true_m + 1; any_matches = true }
      else if ltb s.addr (stabs m).n_value
      then record s { region_end = m; hi = m; any_matches = true }
      else record s { region_left = m; lo = m; addr = (s.addr + 1) % 2 ^ 32; any_matches = true }

  unfoldable pub search_step : Search → Search
  search_step s = elim (find_down (middle s + 1 - s.lo) (middle s)) [
    | none ↦ record s { lo = middle s + 1 }
    | some m ↦ at_match (middle s) m s
  ]

  -- The loop. The program has no fuel, which is `none` when it runs out.
  unfoldable pub search_loop : ℕ → Search → Option Search
  search_loop zero s = none
  search_loop (suc fuel) s =
      let rest = search_loop fuel (search_step s) in if ltb s.lo s.hi then rest else some s

  -- "find rightmost region containing 'addr'": from the last entry down to the left end. `none` is a
  -- left end of -1.
  unfoldable pub search_end : Search → Option Region
  search_end s =
      if s.any_matches
      then (if s.region_end == 0
          then none
          else (elim (find_down (s.region_end - 1 - s.region_left) (s.region_end - 1)) [
            | none ↦ some (record {
              left =
                  if ltb (s.region_end - 1) s.region_left then s.region_end - 1 else s.region_left;
              behind = s.region_end;
            })
            | some l ↦ some (record { left = l; behind = s.region_end })
          ]))
      else some (record { left = s.region_left; behind = s.region_left })

  abbrev pub and_end : Option Search → Option Region
  and_end none = none
  and_end (some s) = search_end s

  unfoldable pub stab_binsearch : ℕ → Region → ℕ → Option Region
  stab_binsearch fuel r addr = and_end (search_loop fuel (start_search addr r))
