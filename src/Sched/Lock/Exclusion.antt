-- ===== src/Sched/Lock/Exclusion.antt =====
-- One CPU at a time is in the kernel with the lock of sched/kern/spinlock.c, and no CPU panics over it.
use sistemas_operativos.Prelude.{
  ℕ, Bool, true, false, not, none, some, ◌≡◌, ◌≢◌, ◌⊎◌, sym, ◌∙◌, inl, inr, if◌then◌else◌, arith,
  ℕ_discrete,
}
use sistemas_operativos.Sched.Lock.{
  Spinlock, Stack, is_cpu, LockAt, spin_lock, UnlockAt, spin_unlock,
}
use sistemas_operativos.Sched.Lock.System.{
  CpuStatus, Mode, Leave, Stage, booting, starting, running, halted, trapped, testing, relocking,
  locking, inside, unlocking, panicked, Cpu, Choice, is_halted, test_mode, after_unlock, go_on_from,
  leave_kernel, enter_trap, advance, Machine, step, start_cpu, power_on, Reach, start, later,
}

-- Whether `spin_lock` has the lock, and whether `lk->cpu` then names its owner.
unfoldable pub has_lock : LockAt → Bool
has_lock LockAt.store_cpu = true
has_lock LockAt.store_pcs = true
has_lock _ = false

unfoldable has_name : LockAt → Bool
has_name LockAt.store_pcs = true
has_name _ = false

-- Whether a CPU with this status and stage has the lock, and whether it is without it.
unfoldable pub is_in : CpuStatus → Stage → Bool
is_in status (trapped Mode.kernel) = not (is_halted status)
is_in status (testing Mode.kernel) = not (is_halted status)
is_in status (relocking Mode.kernel a) = if has_lock a then not (is_halted status) else false
is_in status (locking a) = if has_lock a then not (is_halted status) else false
is_in status inside = not (is_halted status)
is_in status (unlocking Leave.to_env a) = not (is_halted status)
is_in status (unlocking Leave.to_halt a) = is_halted status
is_in status _ = false

abbrev pub has_kernel : Cpu → Bool
has_kernel c = is_in c.status c.stage

unfoldable is_out : CpuStatus → Stage → Bool
is_out status booting = not (is_halted status)
is_out status starting = not (is_halted status)
is_out status running = not (is_halted status)
is_out status halted = is_halted status
is_out status (trapped Mode.user) = not (is_halted status)
is_out status (trapped Mode.kernel) = is_halted status
is_out status (testing Mode.user) = not (is_halted status)
is_out status (relocking Mode.kernel a) = if has_lock a then false else not (is_halted status)
is_out status (locking a) = if has_lock a then false else not (is_halted status)
is_out status _ = false

unfoldable names_owner : Stage → Bool
names_owner (relocking _ a) = has_name a
names_owner (locking a) = has_name a
names_owner (unlocking _ UnlockAt.exchange) = false
names_owner _ = true

-- The lock that nobody has, with a CPU that is without it.
record Free (lk : Spinlock) (c : Cpu) : Type 0 where
  unlocked : lk.locked ≡ false
  unnamed : lk.cpu ≡ none
  out : is_out c.status c.stage ≡ true

-- The lock that CPU `i` has.
record Held (i : ℕ) (lk : Spinlock) (c : Cpu) : Type 0 where
  locked : lk.locked ≡ true
  named : lk.cpu ≡ (if names_owner c.stage then some i else none)
  within : is_in c.status c.stage ≡ true

-- The lock that another CPU has, which `lk->cpu` may name.
record Others (i : ℕ) (lk : Spinlock) (c : Cpu) : Type 0 where
  locked : lk.locked ≡ true
  other : is_cpu lk.cpu i ≡ false
  out : is_out c.status c.stage ≡ true

module _ (stack : Stack) (c : Choice) (i : ℕ) (lk : Spinlock) where
  abbrev after : CpuStatus → Stage → Spinlock × Cpu
  after status stage = advance stack c i lk status stage

  Free-advance :
      (status : CpuStatus) (stage : Stage)
      → Free lk (record { status = status; stage = stage })
      → Free (after status stage).0 (after status stage).1
        ⊎ Held i (after status stage).0 (after status stage).1
  unfolding advance spin_lock spin_unlock is_cpu is_halted has_lock has_name is_in is_out
      names_owner enter_trap test_mode go_on_from leave_kernel after_unlock
  Free-advance status stage f = ground arith

  Held-advance :
      (status : CpuStatus) (stage : Stage)
      → Held i lk (record { status = status; stage = stage })
      → Free (after status stage).0 (after status stage).1
        ⊎ Held i (after status stage).0 (after status stage).1
  unfolding advance spin_lock spin_unlock is_cpu is_halted has_lock has_name is_in is_out
      names_owner enter_trap test_mode go_on_from leave_kernel after_unlock
  Held-advance status stage f = ground arith

  Others-advance :
      (status : CpuStatus) (stage : Stage)
      → Others i lk (record { status = status; stage = stage })
      → Others i (after status stage).0 (after status stage).1
        × ((after status stage).0.cpu ≡ lk.cpu)
  unfolding advance spin_lock is_halted has_lock is_out enter_trap test_mode go_on_from
  Others-advance status stage f = ground arith

-- Nobody has the lock, or one CPU has it and all others are without it.
data Inv (s : Machine) : Type 0 where
  nobody : ((j : ℕ) → Free s.lock (s.cpus j)) → Inv s
  owned :
      (o : ℕ) → Held o s.lock (s.cpus o) → ((j : ℕ) → j ≢ o → Others j s.lock (s.cpus j)) → Inv s

module _ (stack : Stack) (c : Choice) (i : ℕ) (s : Machine) where
  abbrev next : Spinlock × Cpu
  next = advance stack c i s.lock (s.cpus i).status (s.cpus i).stage

  -- What a step does to the CPU that takes it, and to any other.
  cpus-step : (step stack c i s).cpus i ≡ next.1
  unfolding step
  cpus-step = ground arith

  cpus-step_ne : (j : ℕ) → j ≢ i → (step stack c i s).cpus j ≡ s.cpus j
  unfolding step
  cpus-step_ne j h = ground arith

  nobody-Inv :
      ((j : ℕ) → Free s.lock (s.cpus j))
      → Free next.0 next.1 ⊎ Held i next.0 next.1
      → Inv (step stack c i s)
  unfolding step is_cpu
  nobody-Inv h (inl f) =
      nobody
        (λ j. elim (ℕ_discrete j i) [ yes e ↦ ground (arith, f) | no ne ↦ ground (arith, f, h j) ])
  nobody-Inv h (inr f) = owned i (ground (arith, f)) (λ j ne. ground (arith, f, h j))

  owner-Inv :
      ((j : ℕ) → j ≢ i → Others j s.lock (s.cpus j))
      → Free next.0 next.1 ⊎ Held i next.0 next.1
      → Inv (step stack c i s)
  unfolding step is_cpu
  owner-Inv h (inl f) =
      nobody
        (λ j. elim (ℕ_discrete j i) [ yes e ↦ ground (arith, f) | no ne ↦ ground (arith, f, h j) ])
  owner-Inv h (inr f) = owned i (ground (arith, f)) (λ j ne. ground (arith, f, h j))

  other-Inv :
      (o : ℕ)
      → i ≢ o
      → Held o s.lock (s.cpus o)
      → ((j : ℕ) → j ≢ o → Others j s.lock (s.cpus j))
      → Others i next.0 next.1 × (next.0.cpu ≡ s.lock.cpu)
      → Inv (step stack c i s)
  unfolding step
  other-Inv o ne held h (f, same) = owned o (ground (arith, held)) (λ j away.
      elim (ℕ_discrete j i) [ yes e ↦ ground (arith, f) | no apart ↦ ground (arith, f, h j) ])

  step-Inv : Inv s → Inv (step stack c i s)
  step-Inv (nobody h) = nobody-Inv h (Free-advance stack c i s.lock _ _ (h i))
  step-Inv (owned o held h) = elim (ℕ_discrete i o) [
    | yes e ↦
        owner-Inv (λ j away. h j (ground arith)) (Held-advance stack c i s.lock _ _ (rw e held))
    | no ne ↦ other-Inv o ne held h (Others-advance stack c i s.lock _ _ (h i ne))
  ]

power_on-Inv : (boot : ℕ) → Inv (power_on boot)
unfolding start_cpu is_out is_halted
power_on-Inv boot = nobody (λ j. ground arith)

Reach-Inv : {boot : ℕ} {s : Machine} → Reach boot s → Inv s
Reach-Inv {boot} start = power_on-Inv boot
Reach-Inv (later {s} stack c i r) = step-Inv stack c i s (Reach-Inv r)

module _ (s : Machine) (i j : ℕ) where
  unfoldable Exclusive : Type 0
  Exclusive =
      ((s.cpus i).stage ≢ panicked)
      × ((i ≡ j) ⊎ (has_kernel (s.cpus i) ≡ false) ⊎ (has_kernel (s.cpus j) ≡ false))

  Inv-Exclusive : Inv s → Exclusive
  unfolding Exclusive is_in is_out
  Inv-Exclusive (nobody h) = ground (arith, h i)
  Inv-Exclusive (owned o held h) = elim (ℕ_discrete i o) [
    | yes e ↦ ground (arith, held, h j)
    | no ne ↦ ground (arith, h i ne)
  ]

-- However the CPUs take turns: no CPU panics in `spin_lock` or `spin_unlock`, and of two CPUs one at least is
-- without the lock.
pub Reach-exclusive :
    {boot : ℕ} {s : Machine}
    → Reach boot s
    → (i j : ℕ)
    → ((s.cpus i).stage ≢ panicked)
      × ((i ≡ j) ⊎ (has_kernel (s.cpus i) ≡ false) ⊎ (has_kernel (s.cpus j) ≡ false))
unfolding Exclusive
Reach-exclusive {s} r i j = Inv-Exclusive s i j (Reach-Inv r)

true≢false : true ≢ false
true≢false e = cc

-- At the xchg of `spin_lock`, from the first `lock_kernel` of `trap` or from another one, and behind it.
unfoldable pub is_trying : Stage → Bool
is_trying (locking LockAt.exchange) = true
is_trying (relocking _ LockAt.exchange) = true
is_trying _ = false

unfoldable pub is_taking : Stage → Bool
is_taking (locking LockAt.store_cpu) = true
is_taking (relocking _ LockAt.store_cpu) = true
is_taking _ = false

-- A CPU whose xchg finds the lock free.
taking :
    (stack : Stack) (c : Choice) (i : ℕ) (lk : Spinlock) (status : CpuStatus) (stage : Stage)
    → lk.locked ≡ false
    → is_trying stage ≡ true
    → is_taking (advance stack c i lk status stage).1.stage ≡ true
unfolding advance spin_lock go_on_from is_trying is_taking
taking stack c i lk status stage free at = ground arith

outside-trying :
    (status : CpuStatus) (stage : Stage) → is_trying stage ≡ true → is_in status stage ≡ false
unfolding is_in has_lock is_trying
outside-trying status stage at = ground arith

module _ (stack : Stack) (c : Choice) (i : ℕ) (s : Machine)
    (at : is_trying (s.cpus i).stage ≡ true) where
  Inv-enters :
      Inv s
      → (is_taking ((step stack c i s).cpus i).stage ≡ true)
        ⊎ ((j : ℕ) × (j ≢ i) × (has_kernel (s.cpus j) ≡ true))
  Inv-enters (nobody h) = inl (
      rw (cpus-step stack c i s)
        (taking stack c i s.lock (s.cpus i).status (s.cpus i).stage (h i).unlocked at))
  Inv-enters (owned o held h) = inr (
    o,
    λ e. true≢false (sym held.within ∙ rw e (outside-trying (s.cpus i).status (s.cpus i).stage at)),
    held.within,
  )

-- However the CPUs take turns: a CPU at an xchg of `spin_lock`, wherever it was called, takes the lock with its
-- next step, or another CPU has it.
pub Reach-enters :
    {boot : ℕ} {s : Machine} (stack : Stack) (c : Choice) (i : ℕ)
    → Reach boot s
    → is_trying (s.cpus i).stage ≡ true
    → (is_taking ((step stack c i s).cpus i).stage ≡ true)
      ⊎ ((j : ℕ) × (j ≢ i) × (has_kernel (s.cpus j) ≡ true))
Reach-enters {s} stack c i r at = Inv-enters stack c i s at (Reach-Inv r)
