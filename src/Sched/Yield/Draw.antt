-- ===== src/Sched/Yield/Draw.antt =====
-- Who wins the draw of `lottery` in sched/kern/sched.c.
use sistemas_operativos.Prelude.{
  ℕ, zero, suc, ◌+◌, ◌-◌, ◌≤◌, ◌<◌, ◌≡◌, ◌≢◌, ◌⊎◌, ◌↔◌, inl, inr, refl, ap, Bool, true, false, some,
  arith, leb, if◌then◌else◌, Bool-cases, dec_lt, ◌&&◌, subst,
}
use native.Mathlib.Nat.{add-zero, zero-add, add-suc}
use native.Mathlib.Numerals.{add-one}
use sistemas_operativos.Sched.Kernel.{Env}
use sistemas_operativos.Sched.Yield.{takes_part, ticket_pool, draw}

-- The tickets of the first `n` environments that take part, counted from the front.
abbrev pub tickets_below : (ℕ → Env) → ℕ → ℕ
tickets_below envs zero = 0
tickets_below envs (suc n) =
    tickets_below envs n + (if takes_part (envs n).env_status then (envs n).env_tickets else 0)

-- The loop with an accumulator counts the same.
ticket_pool_from :
    (left i pool : ℕ) (envs : ℕ → Env)
    → ticket_pool left i pool envs + tickets_below envs i ≡ pool + tickets_below envs (i + left)
unfolding ticket_pool
ticket_pool_from zero i pool envs = rw (add-zero i) refl
ticket_pool_from (suc left) i pool envs = ground (
  arith,
  ticket_pool_from left (i + 1)
      (if takes_part (envs i).env_status then pool + (envs i).env_tickets else pool) envs,
  ap (tickets_below envs) (add-one i),
  ap (tickets_below envs) (later i left),
)
  where
    later : (a b : ℕ) → a + suc b ≡ a + 1 + b
    later a b = omega arith

-- The first loop of `lottery` adds up the tickets of the environments below n that take part.
pub ticket_pool_lem : (n : ℕ) (envs : ℕ → Env) → ticket_pool n 0 0 envs ≡ tickets_below envs n
ticket_pool_lem n envs =
    omega (arith, ticket_pool_from n 0 0 envs, ap (tickets_below envs) (zero-add n))

tickets_below_mono : (envs : ℕ → Env) (i n : ℕ) → tickets_below envs i ≤ tickets_below envs (i + n)
tickets_below_mono envs i zero = rw add-zero (omega arith)
tickets_below_mono envs i (suc n) =
    omega (arith, tickets_below_mono envs i n, ap (tickets_below envs) (add-suc i n))

-- `winner` falls to environment `i`: it takes part, it reaches the number, and none before it does.
pub record Wins (envs : ℕ → Env) (winner i : ℕ) : Type 0 where
  pub participates : takes_part (envs i).env_status ≡ true
  pub reaches : winner ≤ tickets_below envs (suc i)
  pub first :
      (j : ℕ) → j < i → takes_part (envs j).env_status ≡ true → tickets_below envs (suc j) < winner

abbrev wins_here : (ℕ → Env) → ℕ → ℕ → Bool
wins_here envs winner i = takes_part (envs i).env_status && leb winner (tickets_below envs (suc i))

-- One round of the second loop.
draw-step :
    (left i winner : ℕ) (envs : ℕ → Env)
    → draw (suc left) i (tickets_below envs i) winner envs ≡ (
        if wins_here envs winner i
        then some i
        else draw left (i + 1) (tickets_below envs (i + 1)) winner envs)
unfolding draw
draw-step left i winner envs = ground (arith, ap (tickets_below envs) (add-one i))

abbrev Before : (ℕ → Env) → ℕ → ℕ → Type 0
Before envs winner i =
    (j : ℕ) → j < i → takes_part (envs j).env_status ≡ true → tickets_below envs (suc j) < winner

Before-next :
    (envs : ℕ → Env) (winner i : ℕ)
    → wins_here envs winner i ≡ false
    → Before envs winner i
    → Before envs winner (i + 1)
Before-next envs winner i lose before j lt part = elim (dec_lt j i) [
  | yes below ↦ before j below part
  | no last ↦ let here : j ≡ i = omega arith in rw here (ground (arith, here))
]

draw_from-Wins :
    (left i winner : ℕ) (envs : ℕ → Env) (r : ℕ)
    → Before envs winner i
    → draw left i (tickets_below envs i) winner envs ≡ some r
    → Wins envs winner r × (r < i + left)
draw_from-Wins zero i winner envs r before h = absurd (no_draw h)
  where
    no_draw : draw zero i (tickets_below envs i) winner envs ≢ some r
    no_draw e = unfold draw in cc
draw_from-Wins (suc left) i winner envs r before h = elim (Bool-cases (wins_here envs winner i)) [
  | inl win ↦
      let e : some i ≡ some r = rw (draw-step left i winner envs, win) at h in
      let here : i ≡ r = cc in
      (
        subst (Wins envs winner) here
            (record { participates = ground arith; reaches = ground arith; first = before }),
        omega arith,
      )
  | inr lose ↦
      let rest =
        draw_from-Wins left (i + 1) winner envs r (Before-next envs winner i lose before)
          (rw (draw-step left i winner envs, lose) at h) in
      (rest.0, omega (arith, rest.1))
]

Wins-wins_here :
    (envs : ℕ → Env) (winner i : ℕ) → Wins envs winner i → wins_here envs winner i ≡ true
Wins-wins_here envs winner i w = ground (arith, w.participates, w.reaches)

Wins-loses_before :
    (envs : ℕ → Env) (winner r i : ℕ) → Wins envs winner r → i < r → wins_here envs winner i ≡ false
Wins-loses_before envs winner r i w lt = ground (arith, w.first i lt)

Wins-draw_from :
    (left i winner : ℕ) (envs : ℕ → Env) (r : ℕ)
    → i ≤ r
    → r < i + left
    → Wins envs winner r
    → draw left i (tickets_below envs i) winner envs ≡ some r
Wins-draw_from zero i winner envs r le lt w = absurd (omega arith)
Wins-draw_from (suc left) i winner envs r le lt w = elim (dec_lt i r) [
  | yes below ↦
      rw (draw-step left i winner envs, Wins-loses_before envs winner r i w below)
        (Wins-draw_from left (i + 1) winner envs r (omega arith) (omega arith) w)
  | no last ↦
      let here : i ≡ r = omega arith in
      rw (draw-step left i winner envs, here, Wins-wins_here envs winner r w)
]

-- The draw finds environment i below n exactly when i takes part, the tickets up to and with i reach
-- the winning number, and those of every earlier one that takes part stay below it.
pub draw_iff :
    (n winner i : ℕ) (envs : ℕ → Env)
    → (draw n 0 0 winner envs ≡ some i) ↔ ((i < n) × Wins envs winner i)
draw_iff n winner i envs = (
  λ h.
      let r = draw_from-Wins n 0 winner envs i (λ j lt part. elim lt [ ]) h in
      (omega (arith, r.1), r.0),
  λ h. Wins-draw_from n 0 winner envs i (omega arith) (omega (arith, h.0)) h.1,
)

-- An environment below n that takes part is found by each winning number that lies above the
-- tickets before it and not above those tickets with its own: as many numbers as it has tickets.
pub draw_fair :
    (n winner i : ℕ) (envs : ℕ → Env)
    → i < n
    → takes_part (envs i).env_status ≡ true
    → tickets_below envs i < winner
    → winner ≤ tickets_below envs i + (envs i).env_tickets
    → draw n 0 0 winner envs ≡ some i
draw_fair n winner i envs lt part above reach = (draw_iff n winner i envs).1 (
  lt,
  record {
    participates = part;
    reaches = ground arith;
    first = λ j below _.
        omega (
          arith,
          tickets_below_mono envs (suc j) (i - suc j),
          ap (tickets_below envs) (up j below),
        );
  },
)
  where
    up : (j : ℕ) → j < i → suc j + (i - suc j) ≡ i
    up j below = omega arith

-- What makes sure that the rest of the loop finds somebody.
abbrev Pending : (ℕ → Env) → ℕ → ℕ → ℕ → ℕ → Type 0
Pending envs winner q i end = ((i ≤ q) × (q < end)) ⊎ (tickets_below envs i < winner)

Pending-next :
    (envs : ℕ → Env) (winner q i end : ℕ)
    → takes_part (envs q).env_status ≡ true
    → wins_here envs winner i ≡ false
    → Pending envs winner q i end
    → Pending envs winner q (i + 1) end
Pending-next envs winner q i end part lose p = elim (Bool-cases (takes_part (envs i).env_status)) [
  | inl here ↦ inr (ground (arith, ap (tickets_below envs) (add-one i)))
  | inr skip ↦ elim (dec_lt i q) [
    | yes later ↦ ground (arith, ap (tickets_below envs) (add-one i))
    | no same ↦ elim p [
      | inl at_q ↦ let e : i ≡ q = omega arith in absurd (ground (arith, e))
      | inr low ↦ inr (ground (arith, ap (tickets_below envs) (add-one i)))
    ]
  ]
]

draw_from-total :
    (left i winner q : ℕ) (envs : ℕ → Env)
    → takes_part (envs q).env_status ≡ true
    → Pending envs winner q i (i + left)
    → winner ≤ tickets_below envs (i + left)
    → (r : ℕ) × (draw left i (tickets_below envs i) winner envs ≡ some r)
draw_from-total zero i winner q envs part p w = absurd (stuck p w)
  where
    stuck : Pending envs winner q i (i + 0) → winner ≤ tickets_below envs (i + 0) → ⊥
    stuck p w = ground (arith, ap (tickets_below envs) (add-zero i))
draw_from-total (suc left) i winner q envs part p w = elim (Bool-cases (wins_here envs winner i)) [
  | inl win ↦ (i, rw (draw-step left i winner envs, win))
  | inr lose ↦
      rw (draw-step left i winner envs, lose)
        (draw_from-total left (i + 1) winner q envs part
          (Pending-next envs winner q i (i + 1 + left) part lose (rw end at p)) (rw end at w))
]
  where
    end : i + suc left ≡ i + 1 + left
    end = omega arith

-- If anybody below n takes part, each winning number up to the pool is drawn by somebody.
pub draw_total :
    (n winner q : ℕ) (envs : ℕ → Env)
    → q < n
    → takes_part (envs q).env_status ≡ true
    → winner ≤ ticket_pool n 0 0 envs
    → (i : ℕ) × (draw n 0 0 winner envs ≡ some i)
draw_total n winner q envs lt part w =
    draw_from-total n 0 winner q envs part (inl (omega arith, omega arith))
      (omega (arith, ticket_pool_lem n envs, ap (tickets_below envs) (zero-add n)))
