-- ===== src/Sched/Env/Lookup.antt =====
-- What `envid2env` of sched/kern/env.c finds, and the identifiers that `env_alloc` gives out.
use sistemas_operativos.Prelude.{
  ℕ, ◌+◌, ◌*◌, ◌/◌, ◌%◌, ◌^◌, ◌<◌, ◌≡◌, ◌≢◌, ◌⊎◌, inl, inr, refl, true, not, ◌||◌, none, some,
  arith, bit_or, ◌==◌, Bool-cases,
}
use sistemas_operativos.Prelude.Bits.{bit_or-add_digits}
use sistemas_operativos.Sched.Memory.Defs.{val, err, bad_env}
use sistemas_operativos.Sched.Kernel.{free, Kernel, returns, nenv, envx, is_free, is_at}
use sistemas_operativos.Sched.Env.Table.{envid2env, next_generation}

-- A caller in environment `c` may manipulate environment `i`: itself or a child of its own.
abbrev pub MayManipulate : Kernel → ℕ → ℕ → Type 0
MayManipulate k c i = (i ≡ c) ⊎ ((k.envs i).env_parent_id ≡ (k.envs c).env_id)

-- The environment that carries the identifier: the current one for 0, else the live one in its slot.
abbrev pub Names : Kernel → ℕ → ℕ → ℕ → Type 0
Names k c envid i =
    ((envid ≡ 0) × (i ≡ c))
    ⊎ ((envid ≢ 0)
        × (i ≡ envx envid)
        × ((k.envs i).env_status ≢ free)
        × ((k.envs i).env_id ≡ envid))

-- With a current environment c, `envid2env` with the permission check never faults: it leaves the
-- kernel as it is and either returns -E_BAD_ENV with a null pointer, or 0 with an environment that
-- carries the identifier and is c itself or a child of c.
pub envid2env-checked :
    (envid c : ℕ) (k : Kernel)
    → k.curenv ≡ some c
    → (envid2env envid true k ≡ returns (err bad_env, none) k)
      ⊎ ((i : ℕ) × (envid2env envid true k ≡ returns (val 0, some i) k)
          × Names k c envid i
          × MayManipulate k c i)
unfolding envid2env
envid2env-checked envid c k cur = elim (Bool-cases (envid == 0)) [
  | inl zero_id ↦ inr (c, ground arith, inl (ground arith, refl), inl refl)
  | inr nonzero ↦
      elim (Bool-cases (is_free (k.envs i).env_status || not ((k.envs i).env_id == envid))) [
        | inl stale ↦ inl (ground arith)
        | inr live ↦ elim (Bool-cases (is_at k.curenv i)) [
          | inl self ↦ inr (i, ground arith, ground arith, inl (ground arith))
          | inr other ↦ elim (Bool-cases ((k.envs i).env_parent_id == (k.envs c).env_id)) [
            | inl child ↦ inr (i, ground arith, ground arith, inr (ground arith))
            | inr stranger ↦ inl (ground arith)
          ]
        ]
      ]
]
  where
    i : ℕ
    i = envx envid

-- Conversely `envid2env` finds each live environment by its own identifier, if that is not 0, belongs
-- to the slot, and the caller may manipulate it.
pub envid2env_complete :
    (i c : ℕ) (k : Kernel)
    → k.curenv ≡ some c
    → (k.envs i).env_id ≢ 0
    → envx (k.envs i).env_id ≡ i
    → (k.envs i).env_status ≢ free
    → MayManipulate k c i
    → envid2env (k.envs i).env_id true k ≡ returns (val 0, some i) k
unfolding envid2env
envid2env_complete i c k cur nz slot live may = ground arith

generation_bounds :
    (id : ℕ)
    → (0 < next_generation id) × (next_generation id < 2 ^ 31) × (next_generation id % nenv ≡ 0)
generation_bounds id = ground arith

generation_split : (g : ℕ) → g % nenv ≡ 0 → g / nenv * 2 ^ 10 ≡ g
generation_split g e = omega arith

new_id-sum : (id i : ℕ) → i < nenv → bit_or (next_generation id) i ≡ next_generation id + i
new_id-sum id i lt =
    let s = generation_split (next_generation id) (generation_bounds id).2 in
    rw s at (bit_or-add_digits 10 (next_generation id / nenv) i lt)

-- The identifier that `env_alloc` gives to slot i is positive as an int32_t, so neither 0 nor an
-- error, has i for its index, and differs from the positive identifier that the slot had before.
pub new_id_lem :
    (id i : ℕ)
    → i < nenv
    → id < 2 ^ 31
    → let new = bit_or (next_generation id) i in
      (0 < new) × (new < 2 ^ 31) × (envx new ≡ i) × (new ≢ id)
new_id_lem id i lt small = rw (new_id-sum id i lt) (ground arith)
