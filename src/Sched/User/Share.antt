-- ===== src/Sched/User/Share.antt =====
-- The pages of the parent and the child behind the loop of `fork` of sched/lib/fork.c.
use sistemas_operativos.Prelude.{
  ℕ, zero, suc, ◌+◌, ◌*◌, ◌≡◌, ◌≤◌, ◌<◌, refl, sym, ap, ◌∙◌, Bool, true, false, ◌&&◌, ◌||◌, ltb,
  leb, ◌==◌, if◌then◌else◌, arith, Bool-cases, inl, inr,
}
use sistemas_operativos.Sched.Memory.Defs.{pte_p, pte_u, pg_size}
use sistemas_operativos.Sched.User.Calls.{back, must, Calls}
use sistemas_operativos.Sched.User.Fork.{
  share_perm, pnum_end, exception_page, table_there, duppage, share_one, share_all,
}
use sistemas_operativos.Sched.User.Entries.{
  cow_perm-Plain, share_perm-Plain, remap, cow_perm, is_copied, shared, left_over, put,
  shared-copied, shared-plain, left_over-copied, left_over-plain, Sharing, shares, must-val, seq,
  put_same, put_if, put_none, guarded, conjuncts, two_steps,
}

module _ {W : Type 0} (calls : Calls W) (envid : ℕ) {Roomy Alive : W → Type 0}
    (laws : Sharing calls envid Roomy Alive) where
  abbrev pub is_shared : W → ℕ → Bool
  is_shared w q = shares (calls.uvpd w) q (calls.uvpt w q)

  -- From `w` to `w'` the pages of a set were shared and the others left alone.
  pub record Shared (among : ℕ → Bool) (w w' : W) : Type 0 where
    pub in_child :
        (q : ℕ)
        → laws.child w' q
          ≡ (if among q && is_shared w q then shared (calls.uvpt w q) else laws.child w q)
    pub in_parent :
        (q : ℕ)
        → calls.uvpt w' q
          ≡ (if among q && is_shared w q then left_over (calls.uvpt w q) else calls.uvpt w q)
    pub tables : calls.uvpd w' ≡ calls.uvpd w

  -- From `w` to `w'` the entries of page `pn` change as `duppage` changes them, and no other.
  record One (pn : ℕ) (w w' : W) : Type 0 where
    child_put : (q : ℕ) → laws.child w' q ≡ put (laws.child w) pn (shared (calls.uvpt w pn)) q
    parent_put : (q : ℕ) → calls.uvpt w' q ≡ put (calls.uvpt w) pn (left_over (calls.uvpt w pn)) q
    same_tables : calls.uvpd w' ≡ calls.uvpd w

  duppage-One :
      (pn : ℕ) (w : W)
      → pn < pnum_end
      → pte_p (calls.uvpt w pn) ≡ true
      → pte_u (calls.uvpt w pn) ≡ true
      → Roomy w
      → (w' : W) × ((duppage calls envid pn w ≡ back tt w') × Roomy w' × One pn w w')
  unfolding duppage
  duppage-One pn w lt p u room = elim (Bool-cases (is_copied (calls.uvpt w pn))) [
    | inl copied ↦
        let perm = cow_perm (calls.uvpt w pn) in
        let (w1, (run1, (room1, (child1, (same1, tables1))))) =
          laws.to_child pn perm w lt p (cow_perm-Plain (calls.uvpt w pn)) room in
        let (w', (run', (room', (parent', (same', tables'))))) =
          laws.to_self pn perm w1 lt (ap (λ (f : ℕ → ℕ). pte_p (f pn)) same1 ∙ p)
            (cow_perm-Plain (calls.uvpt w pn)) room1 in
        (
          w',
          (
            rw (duppage, p, u, copied)
                (seq (must (calls.sys_page_map 0 (pn * pg_size) envid (pn * pg_size) perm))
                    (must (calls.sys_page_map 0 (pn * pg_size) 0 (pn * pg_size) perm)) w w1
                    (must-val (calls.sys_page_map 0 (pn * pg_size) envid (pn * pg_size) perm) w w1
                      run1)
                  ∙ must-val (calls.sys_page_map 0 (pn * pg_size) 0 (pn * pg_size) perm) w1 w'
                      run'),
            room',
            record {
              child_put = λ q.
                  ap (λ (f : ℕ → ℕ). f q) same'
                  ∙ child1 q
                  ∙ ap (λ x. put (laws.child w) pn x q)
                      (sym (shared-copied (calls.uvpt w pn) copied));
              parent_put = λ q.
                  parent' q
                  ∙ ap (λ (f : ℕ → ℕ). put f pn (remap (f pn) perm) q) same1
                  ∙ ap (λ x. put (calls.uvpt w) pn x q)
                      (sym (left_over-copied (calls.uvpt w pn) copied));
              same_tables = tables' ∙ tables1;
            },
          ),
        )
    | inr plain ↦
        let (w1, (run1, (room1, (child1, (same1, tables1))))) =
          laws.to_child pn (share_perm (calls.uvpt w pn)) w lt p
            (share_perm-Plain (calls.uvpt w pn)) room in
        (
          w1,
          (
            rw (duppage, p, u, plain)
                (must-val
                  (calls.sys_page_map 0 (pn * pg_size) envid (pn * pg_size)
                    (share_perm (calls.uvpt w pn)))
                  w w1 run1),
            room1,
            record {
              child_put = λ q.
                  child1 q
                  ∙ ap (λ x. put (laws.child w) pn x q)
                      (sym (shared-plain (calls.uvpt w pn) plain));
              parent_put = λ q.
                  ap (λ (f : ℕ → ℕ). f q) same1
                  ∙ put_same (calls.uvpt w) pn q
                  ∙ ap (λ x. put (calls.uvpt w) pn x q)
                      (sym (left_over-plain (calls.uvpt w pn) plain));
              same_tables = tables1;
            },
          ),
        )
  ]

  as_guarded :
      (pn : ℕ) (w : W)
      → share_one calls envid pn w
        ≡ (if is_shared w pn then duppage calls envid pn w else back tt w)
  unfolding share_one
  as_guarded pn w =
      guarded (pn == exception_page)
        (table_there calls pn w && (pte_p (calls.uvpt w pn) && pte_u (calls.uvpt w pn))) (back tt w)
        (duppage calls envid pn w)

  share_one-Shared :
      (pn : ℕ) (w : W)
      → pn < pnum_end
      → Roomy w
      → (w' : W) × ((share_one calls envid pn w ≡ back tt w')
          × Roomy w'
          × Shared (λ q. q == pn) w w')
  unfolding share_one
  share_one-Shared pn w lt room = elim (Bool-cases (is_shared w pn)) [
    | inl yes_shared ↦
        let (p, u) =
          conjuncts (pn == exception_page) (table_there calls pn w) (pte_p (calls.uvpt w pn))
            (pte_u (calls.uvpt w pn)) yes_shared in
        let (w', (run, room', one)) = duppage-One pn w lt p u room in
        (
          w',
          (
            as_guarded pn w
                ∙ ap (λ b. if b then duppage calls envid pn w else back tt w) yes_shared
                ∙ run,
            room',
            record {
              in_child = λ q.
                  one.child_put q
                  ∙ put_if (laws.child w) (λ r. shared (calls.uvpt w r)) (is_shared w) pn q
                      yes_shared;
              in_parent = λ q.
                  one.parent_put q
                  ∙ put_if (calls.uvpt w) (λ r. left_over (calls.uvpt w r)) (is_shared w) pn q
                      yes_shared;
              tables = one.same_tables;
            },
          ),
        )
    | inr no_shared ↦ (
      w,
      (
        as_guarded pn w ∙ ap (λ b. if b then duppage calls envid pn w else back tt w) no_shared,
        room,
        record {
          in_child = λ q.
              put_none (laws.child w) (λ r. shared (calls.uvpt w r)) (is_shared w) pn q no_shared;
          in_parent = λ q.
              put_none (calls.uvpt w) (λ r. left_over (calls.uvpt w r)) (is_shared w) pn q
                no_shared;
          tables = refl;
        },
      ),
    )
  ]

  abbrev pub from_on : ℕ → ℕ → ℕ → Bool
  from_on pn left q = leb pn q && ltb q (pn + left)

  one_more : (pn left q : ℕ) → ((q == pn) || from_on (pn + 1) left q) ≡ from_on pn (suc left) q
  one_more pn left q = ground arith

  apart : (pn left q : ℕ) → (q == pn) && from_on (pn + 1) left q ≡ false
  apart pn left q = ground arith

  join-Shared :
      (pn left : ℕ) (w w1 w' : W)
      → Shared (λ q. q == pn) w w1
      → Shared (from_on (pn + 1) left) w1 w'
      → Shared (from_on pn (suc left)) w w'
  join-Shared pn left w w1 w' a b = record {
    in_child = λ q.
        two_steps shared (shares (calls.uvpd w) q) (q == pn) (from_on (pn + 1) left q) _ _ _ _ _
          (apart pn left q)
          (λ ne.
            a.in_parent q
            ∙ ap (λ o. if o && is_shared w q then left_over (calls.uvpt w q) else calls.uvpt w q)
                ne)
          (a.in_child q)
          (b.in_child q
            ∙ ap
                (λ t.
                  if from_on (pn + 1) left q && shares t q (calls.uvpt w1 q)
                  then shared (calls.uvpt w1 q)
                  else laws.child w1 q)
                a.tables)
        ∙ ap (λ o. if o && is_shared w q then shared (calls.uvpt w q) else laws.child w q)
            (one_more pn left q);
    in_parent = λ q.
        two_steps left_over (shares (calls.uvpd w) q) (q == pn) (from_on (pn + 1) left q) _ _ _ _ _
          (apart pn left q)
          (λ ne.
            a.in_parent q
            ∙ ap (λ o. if o && is_shared w q then left_over (calls.uvpt w q) else calls.uvpt w q)
                ne)
          (a.in_parent q)
          (b.in_parent q
            ∙ ap
                (λ t.
                  if from_on (pn + 1) left q && shares t q (calls.uvpt w1 q)
                  then left_over (calls.uvpt w1 q)
                  else calls.uvpt w1 q)
                a.tables)
        ∙ ap (λ o. if o && is_shared w q then left_over (calls.uvpt w q) else calls.uvpt w q)
            (one_more pn left q);
    tables = b.tables ∙ a.tables;
  }

  pub share_all-Shared :
      (left pn : ℕ) (w : W)
      → pn + left ≤ pnum_end
      → Roomy w
      → (w' : W) × ((share_all calls left envid pn w ≡ back tt w')
          × Roomy w'
          × Shared (from_on pn left) w w')
  unfolding share_all
  share_all-Shared zero pn w le room = (
    w,
    (
      refl,
      room,
      record { in_child = λ q. ground arith; in_parent = λ q. ground arith; tables = refl },
    ),
  )
  share_all-Shared (suc left) pn w le room =
      let (w1, (run1, room1, one)) = share_one-Shared pn w (omega (arith, le)) room in
      let (w', (run, room', rest)) = share_all-Shared left (pn + 1) w1 (omega (arith, le)) room1 in
      (
        w',
        (
          seq (share_one calls envid pn) (share_all calls left envid (pn + 1)) w w1 run1 ∙ run,
          room',
          join-Shared pn left w w1 w' one rest,
        ),
      )
