-- ===== src/Sched/Memory/Access.antt =====
-- What `user_mem_check` of sched/kern/pmap.c grants, and what slips through when the range wraps.
use sistemas_operativos.Prelude.{
  ℕ, zero, suc, ◌+◌, ◌*◌, ◌/◌, ◌%◌, ◌^◌, ◌≤◌, ◌<◌, ◌≡◌, ◌≢◌, inl, inr, refl, sym, true, false,
  Option, none, some, arith, ltb, ==_iff, if◌then◌else◌, Bool-cases, Option-cases, bit_and, ltb→lt,
  lt→ltb, ◌∙◌, subst, ◌↔◌, dec_lt,
}
use native.Mathlib.Nat.{add-zero}
use sistemas_operativos.Sched.Memory.Defs.{Mem, pg_size, or_p, pgdir_walk}
use sistemas_operativos.Sched.Memory.Tables.{
  utop, rounddown, roundup, grants, Check, granted, denied, check_pages, user_mem_check,
}

-- The walk finds an entry for `va` that carries all the bits of `want`.
abbrev pub PageGrants : ℕ → ℕ → Mem → ℕ → Type 0
PageGrants pgdir want m va =
    (f : ℕ) × (i : ℕ) × (m' : Mem) × (pgdir_walk pgdir va false m ≡ some (some (f, i), m'))
    × (bit_and (m.frame f i) want ≡ want)

grants-PageGrants :
    (pgdir want va : ℕ) (m m' : Mem) (pte : Option (ℕ × ℕ))
    → pgdir_walk pgdir va false m ≡ some (pte, m')
    → grants m want pte ≡ true
    → PageGrants pgdir want m va
grants-PageGrants pgdir want va m m' none w h = absurd (ground arith)
grants-PageGrants pgdir want va m m' (some (f, i)) w h = (f, i, m', w, (==_iff _ _).0 h)

PageGrants-grants :
    (pgdir want va : ℕ) (m m' : Mem) (pte : Option (ℕ × ℕ))
    → pgdir_walk pgdir va false m ≡ some (pte, m')
    → PageGrants pgdir want m va
    → grants m want pte ≡ true
PageGrants-grants pgdir want va m m' pte w (f, i, m2, w2, g) =
    let same : pte ≡ some (f, i) = cc in rw same ((==_iff _ _).1 g)

denied≢granted : {a : ℕ} → ◌≢◌ {A = Option Check} (some (denied a)) (some granted)
denied≢granted e = cc

-- One round of the loop.
module _ (left pgdir lo hi want va : ℕ) (m : Mem) (lt : va < hi) where
  check_pages-step :
      (m' : Mem) (pte : Option (ℕ × ℕ))
      → pgdir_walk pgdir va false m ≡ some (pte, m')
      → check_pages (suc left) pgdir lo hi want va m ≡ (
          if grants m want pte
          then check_pages left pgdir lo hi want ((va + pg_size) % 2 ^ 32) m
          else some (denied (if ltb lo va then va else lo)))
  unfolding check_pages
  check_pages-step m' pte w = rw (lt→ltb va hi lt, w)

  check_pages-stuck :
      pgdir_walk pgdir va false m ≡ none → check_pages (suc left) pgdir lo hi want va m ≡ none
  unfolding check_pages
  check_pages-stuck w = rw (lt→ltb va hi lt, w)

  check_pages-first :
      check_pages (suc left) pgdir lo hi want va m ≡ some granted
      → PageGrants pgdir want m va
        × (check_pages left pgdir lo hi want ((va + pg_size) % 2 ^ 32) m ≡ some granted)
  check_pages-first h = elim (Option-cases (pgdir_walk pgdir va false m)) [
    | inl stuck ↦ absurd (ground (arith, check_pages-stuck stuck))
    | inr ((pte, m'), w) ↦ elim (Bool-cases (grants m want pte)) [
      | inl good ↦ (
        grants-PageGrants pgdir want va m m' pte w good,
        rw good at (sym (check_pages-step m' pte w) ∙ h),
      )
      | inr bad ↦ absurd (denied≢granted (rw bad at (sym (check_pages-step m' pte w) ∙ h)))
    ]
  ]

  check_pages-next :
      PageGrants pgdir want m va
      → check_pages left pgdir lo hi want ((va + pg_size) % 2 ^ 32) m ≡ some granted
      → check_pages (suc left) pgdir lo hi want va m ≡ some granted
  check_pages-next (f, i, m', w, g) rest =
      check_pages-step m' (some (f, i)) w
      ∙ rw (PageGrants-grants pgdir want va m m' (some (f, i)) w (f, i, m', w, g)) rest

check_pages-end :
    (left pgdir lo hi want va : ℕ) (m : Mem)
    → hi ≤ va
    → check_pages left pgdir lo hi want va m ≡ some granted
unfolding check_pages
check_pages-end zero pgdir lo hi want va m h = refl
check_pages-end (suc left) pgdir lo hi want va m h = ground arith

-- The address of the next page does not wrap below UTOP.
next_page : (va hi : ℕ) → va < hi → hi ≤ utop → (va + pg_size) % 2 ^ 32 ≡ va + pg_size
next_page va hi lt low = omega arith

check_pages_sound :
    (left pgdir lo hi want va : ℕ) (m : Mem)
    → hi ≤ va + left * pg_size
    → hi ≤ utop
    → check_pages left pgdir lo hi want va m ≡ some granted
    → (k : ℕ) → va + k * pg_size < hi
    → PageGrants pgdir want m (va + k * pg_size)
check_pages_sound zero pgdir lo hi want va m room low h k lt = absurd (omega arith)
check_pages_sound (suc left) pgdir lo hi want va m room low h zero lt =
    rw add-zero (check_pages-first left pgdir lo hi want va m (omega arith) h).0
check_pages_sound (suc left) pgdir lo hi want va m room low h (suc k) lt = rw later (
    check_pages_sound left pgdir lo hi want (va + pg_size) m (omega arith) low
      (rw (next_page va hi (omega arith) low) at
        (check_pages-first left pgdir lo hi want va m (omega arith) h).1)
      k (omega arith))
  where
    later : va + suc k * pg_size ≡ va + pg_size + k * pg_size
    later = omega arith

check_pages_complete :
    (left pgdir lo hi want va : ℕ) (m : Mem)
    → hi ≤ utop
    → ((k : ℕ) → va + k * pg_size < hi → PageGrants pgdir want m (va + k * pg_size))
    → check_pages left pgdir lo hi want va m ≡ some granted
check_pages_complete zero pgdir lo hi want va m low all = check_pages-none
  where
    check_pages-none : check_pages zero pgdir lo hi want va m ≡ some granted
    check_pages-none = unfold check_pages in refl
check_pages_complete (suc left) pgdir lo hi want va m low all = elim (dec_lt va hi) [
  | yes lt ↦ check_pages-next left pgdir lo hi want va m lt (rw add-zero at (all 0 (omega arith))) (
      rw (next_page va hi lt low) (
        check_pages_complete left pgdir lo hi want (va + pg_size) m low
          (λ k h. subst (PageGrants pgdir want m) (later k) (all (suc k) (omega arith)))))
  | no ge ↦ check_pages-end (suc left) pgdir lo hi want va m (omega arith)
]
  where
    later : (k : ℕ) → va + suc k * pg_size ≡ va + pg_size + k * pg_size
    later k = omega arith

-- For a range whose end, rounded up to a page, does not pass 2 ^ 32, `user_mem_check` grants it
-- exactly when the rounded end is at most UTOP and every page that meets the range has an entry that
-- carries all of the bits of perm | PTE_P.
pub user_mem_check_iff :
    (pgdir va len perm : ℕ) (m : Mem)
    → va + len + pg_size ≤ 2 ^ 32
    → (user_mem_check pgdir va len perm m ≡ some granted) ↔ (
        (rounddown (va + len + 4095) ≤ utop)
        × ((k : ℕ)
            → rounddown va + k * pg_size < va + len
            → PageGrants pgdir (or_p perm) m (rounddown va + k * pg_size)))
unfolding user_mem_check
user_mem_check_iff pgdir va len perm m fits = (
  λ h. elim (Bool-cases (ltb utop hi)) [
    | inl high ↦ absurd (denied≢granted (rw high at h))
    | inr low ↦ (
      ground arith,
      λ k lt.
          check_pages_sound (hi / pg_size) pgdir va hi (or_p perm) (rounddown va) m (omega arith)
            (ground arith) (rw low at h) k (omega arith),
    )
  ],
  λ (low, all). elim (Bool-cases (ltb utop hi)) [
    | inl high ↦ absurd (omega (arith, ltb→lt utop hi high))
    | inr ok ↦ rw ok (
        check_pages_complete (hi / pg_size) pgdir va hi (or_p perm) (rounddown va) m (omega arith)
          (λ k lt. all k (omega arith)))
  ],
)
  where
    hi : ℕ
    hi = roundup ((va + len) % 2 ^ 32)

-- A range that wraps past 2 ^ 32 is granted whatever the page tables hold, if its wrapped end,
-- rounded up, is at most UTOP and not above the page of its start: no page is looked at.
pub user_mem_check_wrapped :
    (pgdir va len perm : ℕ) (m : Mem)
    → roundup ((va + len) % 2 ^ 32) ≤ utop
    → roundup ((va + len) % 2 ^ 32) ≤ rounddown va
    → user_mem_check pgdir va len perm m ≡ some granted
unfolding user_mem_check
user_mem_check_wrapped pgdir va len perm m low below =
    elim (Bool-cases (ltb utop (roundup ((va + len) % 2 ^ 32)))) [
      | inl high ↦ absurd (ground arith)
      | inr ok ↦ rw ok (check_pages-end _ pgdir va _ (or_p perm) (rounddown va) m below)
    ]
