-- ===== src/Sched/User/Entries.antt =====
-- The page table entries that `duppage` of sched/lib/fork.c leaves, and what its system calls do.
use sistemas_operativos.Prelude.{
  ℕ, ◌+◌, ◌*◌, ◌/◌, ◌≡◌, ◌≢◌, ◌<◌, refl, sym, ap, ◌∙◌, Bool, true, false, not, ◌&&◌, ◌||◌, ◌==◌,
  if◌then◌else◌, arith, Bool-cases, inl, inr, bit_or,
}
use sistemas_operativos.Sched.Memory.Defs.{Ret, val, pte_p, pte_w, pte_u, pg_size}
use sistemas_operativos.Sched.User.Calls.{Back, back, ◌>>=◌, ◌>>◌, must, Calls}
use sistemas_operativos.Sched.User.Fork.{
  pte_io, pte_cow, has, share_perm, pnum_end, exception_page, env_runnable,
}

-- The entry of the same page with other permissions.
abbrev pub remap : ℕ → ℕ → ℕ
remap pte perm = pte / pg_size * pg_size + perm

abbrev pub cow_perm : ℕ → ℕ
cow_perm pte = bit_or (share_perm pte) pte_cow

-- What `duppage` makes of an entry in the child, and in the parent.
abbrev pub is_copied : ℕ → Bool
is_copied pte = pte_w pte || has pte pte_cow

abbrev pub child_perm : ℕ → ℕ
child_perm pte = if has pte pte_io then 0x1d else 5

abbrev pub shared : ℕ → ℕ
shared pte = remap pte (if is_copied pte then child_perm pte + pte_cow else child_perm pte)

share_perm-child_perm : (pte : ℕ) → child_perm pte ≡ share_perm pte
share_perm-child_perm pte = go (has pte pte_io)
  where
    go : (io : Bool) → (if io then 0x1d else 5) ≡ (if io then bit_or 5 pte_io else 5)
    go true = refl
    go false = refl

cow_perm-child_perm : (pte : ℕ) → child_perm pte + pte_cow ≡ cow_perm pte
cow_perm-child_perm pte = go (has pte pte_io)
  where
    go :
        (io : Bool)
        → (if io then 0x1d else 5) + pte_cow ≡ bit_or (if io then bit_or 5 pte_io else 5) pte_cow
    go true = refl
    go false = refl

abbrev pub left_over : ℕ → ℕ
left_over pte = if is_copied pte then shared pte else pte

pub shared-copied : (pte : ℕ) → is_copied pte ≡ true → shared pte ≡ remap pte (cow_perm pte)
shared-copied pte e =
    ap (λ b. remap pte (if b then child_perm pte + pte_cow else child_perm pte)) e
    ∙ ap (remap pte) (cow_perm-child_perm pte)

pub shared-plain : (pte : ℕ) → is_copied pte ≡ false → shared pte ≡ remap pte (share_perm pte)
shared-plain pte e =
    ap (λ b. remap pte (if b then child_perm pte + pte_cow else child_perm pte)) e
    ∙ ap (remap pte) (share_perm-child_perm pte)

pub left_over-copied : (pte : ℕ) → is_copied pte ≡ true → left_over pte ≡ remap pte (cow_perm pte)
left_over-copied pte e = ap (λ b. if b then shared pte else pte) e ∙ shared-copied pte e

pub left_over-plain : (pte : ℕ) → is_copied pte ≡ false → left_over pte ≡ pte
left_over-plain pte e = ap (λ b. if b then shared pte else pte) e

abbrev pub put : (ℕ → ℕ) → ℕ → ℕ → ℕ → ℕ
put f i x j = if j == i then x else f j

-- Permissions that `sys_page_map` of the kernel takes for every page, and stores as they are: below 4096, with PTE_P
-- and PTE_U, and without PTE_W.
abbrev pub Plain : ℕ → Type 0
Plain perm = (perm < pg_size) × ((pte_p perm ≡ true) × ((pte_u perm ≡ true) × (pte_w perm ≡ false)))

perm_Plain :
    (copied io : Bool)
    → Plain (
        if copied
        then bit_or (if io then bit_or 5 pte_io else 5) pte_cow
        else (if io then bit_or 5 pte_io else 5))
perm_Plain true true = (omega arith, (refl, (refl, refl)))
perm_Plain true false = (omega arith, (refl, (refl, refl)))
perm_Plain false true = (omega arith, (refl, (refl, refl)))
perm_Plain false false = (omega arith, (refl, (refl, refl)))

pub cow_perm-Plain : (pte : ℕ) → Plain (cow_perm pte)
cow_perm-Plain pte = perm_Plain true (has pte pte_io)

pub share_perm-Plain : (pte : ℕ) → Plain (share_perm pte)
share_perm-Plain pte = perm_Plain false (has pte pte_io)

-- What the calls of `fork` do in a world with room, where the child exists and can be changed, its page tables are
-- there and a page is free: the entries of the child and of the caller that they write, and that they write no other.
-- Mapping leaves room; behind the allocation of the stack the child is still there. `sys_page_map` is described for
-- the permissions alone that the kernel neither refuses nor completes.
pub record Sharing {W : Type 0} (calls : Calls W) (envid : ℕ) (Roomy Alive : W → Type 0)
    : Type 0 where
  pub child : W → ℕ → ℕ
  pub to_child :
      (pn perm : ℕ) (w : W)
      → pn < pnum_end
      → pte_p (calls.uvpt w pn) ≡ true
      → Plain perm
      → Roomy w
      → (w' : W) × ((calls.sys_page_map 0 (pn * pg_size) envid (pn * pg_size) perm w
            ≡ back (val 0) w')
          × (Roomy w'
              × (((q : ℕ) → child w' q ≡ put (child w) pn (remap (calls.uvpt w pn) perm) q)
                  × ((calls.uvpt w' ≡ calls.uvpt w) × (calls.uvpd w' ≡ calls.uvpd w)))))
  pub to_self :
      (pn perm : ℕ) (w : W)
      → pn < pnum_end
      → pte_p (calls.uvpt w pn) ≡ true
      → Plain perm
      → Roomy w
      → (w' : W) × ((calls.sys_page_map 0 (pn * pg_size) 0 (pn * pg_size) perm w ≡ back (val 0) w')
          × (Roomy w'
              × (((q : ℕ)
                    → calls.uvpt w' q ≡ put (calls.uvpt w) pn (remap (calls.uvpt w pn) perm) q)
                  × ((child w' ≡ child w) × (calls.uvpd w' ≡ calls.uvpd w)))))
  pub to_stack :
      (w : W)
      → Roomy w
      → (w' : W) × ((calls.sys_page_alloc envid (exception_page * pg_size) 7 w ≡ back (val 0) w')
          × (Alive w'
              × ((pte_w (child w' exception_page) ≡ true)
                  × (((q : ℕ) → q ≢ exception_page → child w' q ≡ child w q)
                      × (calls.uvpt w' ≡ calls.uvpt w)))))
  pub to_upcall :
      (upcall : ℕ) (w : W)
      → Alive w
      → (w' : W) × ((calls.sys_env_set_pgfault_upcall envid upcall w ≡ back (val 0) w')
          × (Alive w' × ((child w' ≡ child w) × (calls.uvpt w' ≡ calls.uvpt w))))
  pub to_status :
      (w : W)
      → Alive w
      → (w' : W) × ((calls.sys_env_set_status envid env_runnable w ≡ back (val 0) w')
          × ((child w' ≡ child w) × (calls.uvpt w' ≡ calls.uvpt w)))

pub must-val :
    {W : Type 0} (call : W → Back W Ret) (w w' : W) {n : ℕ}
    → call w ≡ back (val n) w'
    → must call w ≡ back tt w'
must-val call w w' e = rw (e, ◌>>=◌) refl

pub seq :
    {W A : Type 0} (x : W → Back W (Unit {0})) (y : W → Back W A) (w w' : W)
    → x w ≡ back tt w'
    → (x >> y) w ≡ y w'
seq x y w w' e = rw (e, ◌>>=◌) refl

pub put_same : (f : ℕ → ℕ) (i q : ℕ) → f q ≡ put f i (f i) q
put_same f i q = elim (Bool-cases (q == i)) [
  | inl e ↦ let same : q ≡ i = ground arith in ap f same ∙ ap (λ b. if b then f i else f q) (sym e)
  | inr e ↦ ap (λ b. if b then f i else f q) (sym e)
]

-- Entry `q` of a table in which the entry of page `i` alone changed, or none.
pub put_if :
    (f g : ℕ → ℕ) (s : ℕ → Bool) (i q : ℕ)
    → s i ≡ true
    → put f i (g i) q ≡ (if q == i && s q then g q else f q)
put_if f g s i q ok = elim (Bool-cases (q == i)) [
  | inl e ↦ let same : q ≡ i = ground arith in rw same (ground arith)
  | inr e ↦ rw e refl
]

pub put_none :
    (f g : ℕ → ℕ) (s : ℕ → Bool) (i q : ℕ)
    → s i ≡ false
    → f q ≡ (if q == i && s q then g q else f q)
put_none f g s i q other = elim (Bool-cases (q == i)) [
  | inl e ↦ let same : q ≡ i = ground arith in rw same (ground arith)
  | inr e ↦ rw e refl
]

pub guarded :
    {A : Type 0} (a b : Bool) (x y : A)
    → (if a then x else if b then y else x) ≡ (if not a && b then y else x)
guarded true b x y = refl
guarded false b x y = refl

pub conjuncts : (a b c d : Bool) → not a && (b && (c && d)) ≡ true → (c ≡ true) × (d ≡ true)
conjuncts false true true true e = (refl, refl)
conjuncts true b c d e = absurd (ground arith)
conjuncts false false c d e = absurd (ground arith)
conjuncts false true false d e = absurd (ground arith)
conjuncts false true true false e = absurd (ground arith)

-- An entry through two steps, each of which changes it or not.
pub two_steps :
    (change : ℕ → ℕ) (s : ℕ → Bool) (a b : Bool) (u u1 x x1 x' : ℕ)
    → a && b ≡ false
    → (a ≡ false → u1 ≡ u)
    → x1 ≡ (if a && s u then change u else x)
    → x' ≡ (if b && s u1 then change u1 else x1)
    → x' ≡ (if (a || b) && s u then change u else x)
two_steps change s true true u u1 x x1 x' none same e1 e2 = absurd (ground arith)
two_steps change s true false u u1 x x1 x' none same e1 e2 = e2 ∙ e1
two_steps change s false false u u1 x x1 x' none same e1 e2 = e2 ∙ e1
two_steps change s false true u u1 x x1 x' none same e1 e2 =
    e2
    ∙ ap (λ o. if s u1 then change u1 else o) e1
    ∙ ap (λ o. if s o then change o else x) (same refl)

-- The pages that `fork` shares, from the page directory and the page's entry.
abbrev pub shares : (ℕ → ℕ) → ℕ → ℕ → Bool
shares tables q pte =
    not (q == exception_page)
    && ((pte_p (tables (q / 1024)) && pte_u (tables (q / 1024))) && (pte_p pte && pte_u pte))
