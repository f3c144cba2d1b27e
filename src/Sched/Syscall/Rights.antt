-- ===== src/Sched/Syscall/Rights.antt =====
-- What the calls on environments and pages of sched/kern/syscall.c refuse, and what they change.
use sistemas_operativos.Prelude.{
  dec_lt, ℕ, ◌+◌, ◌*◌, ◌<◌, ap, ◌≤◌, ◌≡◌, ◌≢◌, ◌⊎◌, inl, inr, refl, sym, ◌∙◌, Bool, true, false,
  not, ◌&&◌, Option, none, some, List, ◌∷◌, arith, ◌==◌, if◌then◌else◌, Bool-cases, bit_or,
}
use sistemas_operativos.Sched.Memory.Defs.{
  Mem, Ret, val, err, inval, bad_env, Err, pte_w, or_p, pg_size, pgdir_walk,
}
use sistemas_operativos.Sched.Memory.Mapping.{page_insert-page_lookup}
use sistemas_operativos.Sched.Memory.Tables.{page_lookup, page_insert}
use sistemas_operativos.Sched.Memory.FreeList.{HasFree}
use sistemas_operativos.Sched.Kernel.{
  Status, runnable, not_runnable, Kernel, Outcome, returns, panics, after_mem, K, ◌>>=◌, set_status,
}
use sistemas_operativos.Sched.Env.Table.{envid2env, next_generation}
use sistemas_operativos.Sched.Env.Lookup.{Names, MayManipulate, envid2env-checked}
use sistemas_operativos.Sched.Env.Alloc.{Fresh, env_alloc_lem}
use sistemas_operativos.Sched.Syscall.Base.{with_env}
use sistemas_operativos.Sched.Syscall.Envs.{
  sys_env_set_status, start_child, sys_exofork, lower_tickets, sys_env_set_priority,
}
use sistemas_operativos.Sched.Syscall.Pages.{env_page_map}

pub with_env-found :
    (envid i : ℕ) (b : Bool) (rest : ℕ → K Ret) (k : Kernel)
    → envid2env envid b k ≡ returns (val 0, some i) k
    → with_env envid b rest k ≡ rest i k
with_env-found envid i b rest k e = rw (e, ◌>>=◌)

with_env-refused :
    (envid : ℕ) (b : Bool) (x : Err) (rest : ℕ → K Ret) (k : Kernel)
    → envid2env envid b k ≡ returns (err x, none) k
    → with_env envid b rest k ≡ returns (err x) k
with_env-refused envid b x rest k e = rw (e, ◌>>=◌)

abbrev pub status_of : ℕ → Status
status_of n = if n == 2 then runnable else not_runnable

-- `sys_env_set_status`, called by environment c, either returns -E_INVAL or -E_BAD_ENV and changes
-- nothing, or was given ENV_RUNNABLE (2) or ENV_NOT_RUNNABLE (4) and the identifier of c itself or
-- of a child of c, sets the status of that environment, and returns 0.
pub sys_env_set_status_lem :
    (envid status c : ℕ) (k : Kernel)
    → k.curenv ≡ some c
    → ((x : Err) × (sys_env_set_status envid status k ≡ returns (err x) k))
      ⊎ ((i : ℕ) × ((status ≡ 2) ⊎ (status ≡ 4))
          × Names k c envid i
          × MayManipulate k c i
          × (sys_env_set_status envid status k
              ≡ returns (val 0) (set_status i (status_of status) k)))
unfolding sys_env_set_status
sys_env_set_status_lem envid status c k cur =
    elim (Bool-cases (not (status == 2) && not (status == 4))) [
      | inl bad ↦ inl (inval, rw bad)
      | inr good ↦ elim (envid2env-checked envid c k cur) [
        | inl refused ↦ inl (bad_env, rw good (with_env-refused envid true bad_env _ k refused))
        | inr (i, ok, names, may) ↦
            inr (i, ground arith, names, may, rw good (with_env-found envid i true _ k ok))
      ]
    ]

-- A child that `sys_exofork` makes in slot i with page p: what the parent c and the child see.
pub record Forked (c i p : ℕ) (k k' : Kernel) : Type 0 where
  pub id : (k'.envs i).env_id ≡ bit_or (next_generation (k.envs i).env_id) i
  pub stopped : (k'.envs i).env_status ≡ not_runnable
  pub parent : (k'.envs i).env_parent_id ≡ (k.envs c).env_id
  pub tickets : (k'.envs i).env_tickets ≡ (k.envs c).env_tickets
  pub result : (k'.envs i).env_tf.reg_eax ≡ 0
  pub stack : (k'.envs i).env_tf.tf_esp ≡ (k.envs c).env_tf.tf_esp
  pub counter : (k'.envs i).env_tf.tf_eip ≡ (k.envs c).env_tf.tf_eip
  pub registers : (k'.envs i).env_tf.other ≡ (k.envs c).env_tf.other
  pub frame : (k'.envs i).env_tf ≡ record ((k.envs c).env_tf) { reg_eax = 0 }
  pub space : (k'.envs i).env_pgdir ≡ some p
  pub others : (j : ℕ) → j ≢ i → k'.envs j ≡ k.envs j

started-Forked :
    (c i p : ℕ) (k k1 : Kernel)
    → c ≢ i
    → Fresh i (k.envs c).env_id p k k1
    → (k' : Kernel) × (start_child c i k1 ≡ returns (val (k1.envs i).env_id) k') × Forked c i p k k'
started-Forked c i p k k1 ne f =
    let same = f.others c ne in
    (
      _,
      refl,
      record {
        id = ground (arith, f.id);
        stopped = ground arith;
        parent = ground (arith, f.child);
        tickets = ground (arith, same);
        result = ground (arith, same);
        stack = ground (arith, same);
        counter = ground (arith, same);
        registers = ground (arith, same);
        frame = ground (arith, same);
        space = ground (arith, f.space);
        others = λ j apart. ground (arith, f.others j apart);
      },
    )

-- With slot i and page p free, `sys_exofork` of environment c in another slot returns the new
-- identifier of slot i. The child is stopped, is c's child, has c's tickets, c's whole frame but for
-- a 0 in eax, and page p for its page directory; no other environment changes.
pub sys_exofork_lem :
    (c i p : ℕ) (ps : List ℕ) (k : Kernel)
    → k.curenv ≡ some c
    → c ≢ i
    → k.env_free_list ≡ some i
    → HasFree k.mem (p ∷ ps)
    → (k' : Kernel) × (sys_exofork k
        ≡ returns (val (bit_or (next_generation (k.envs i).env_id) i)) k')
      × Forked c i p k k'
unfolding sys_exofork
sys_exofork_lem c i p ps k cur ne slot h =
    let (k1, made, f) = env_alloc_lem (k.envs c).env_id i p ps k slot h in
    let (k', start, forked) = started-Forked c i p k k1 ne f in
    (k', ground (arith, made, start, f.id), forked)

-- `sys_env_set_priority` of a caller c with 2 tickets or more takes exactly one of them and leaves 2
-- or more, or changes nothing of them where there are 2; the other environments stay as they were.
pub sys_env_set_priority_lem :
    (c : ℕ) (k : Kernel)
    → k.curenv ≡ some c
    → 2 ≤ (k.envs c).env_tickets
    → (k' : Kernel) × (sys_env_set_priority k ≡ returns tt k')
      × (2 ≤ (k'.envs c).env_tickets)
      × (((k'.envs c).env_tickets + 1 ≡ (k.envs c).env_tickets)
          ⊎ (((k'.envs c).env_tickets ≡ 2) × ((k.envs c).env_tickets ≡ 2)))
      × ((j : ℕ) → j ≢ c → k'.envs j ≡ k.envs j)
unfolding sys_env_set_priority
sys_env_set_priority_lem c k cur low = (
  lower_tickets c k,
  ground arith,
  ground arith,
  elim (dec_lt 2 (k.envs c).env_tickets) [
    | yes more ↦ inl (ground arith)
    | no few ↦ inr (ground arith, omega arith)
  ],
  λ j ne. ground arith,
)

env_page_map-read_only :
    (src srcva dst dstva perm pgdir p f j : ℕ) (k : Kernel)
    → (k.envs src).env_pgdir ≡ some pgdir
    → page_lookup pgdir srcva k.mem ≡ some (some (p, f, j), k.mem)
    → pte_w (k.mem.frame f j) ≡ false
    → pte_w perm ≡ true
    → env_page_map src srcva dst dstva perm k ≡ returns (err inval) k
unfolding env_page_map
env_page_map-read_only src srcva dst dstva perm pgdir p f j k space look ro wr =
    rw (space, look, ◌>>=◌) (rw (wr, ro))

-- Where the guard on PTE_W holds, `env_page_map` is the call of `page_insert`.
env_page_map-insert :
    (src srcva dst dstva perm pgdir dst_pgdir p f j : ℕ) (k : Kernel)
    → (k.envs src).env_pgdir ≡ some pgdir
    → (k.envs dst).env_pgdir ≡ some dst_pgdir
    → page_lookup pgdir srcva k.mem ≡ some (some (p, f, j), k.mem)
    → (pte_w perm && not (pte_w (k.mem.frame f j))) ≡ false
    → env_page_map src srcva dst dstva perm k
      ≡ after_mem k (page_insert dst_pgdir p dstva perm k.mem)
unfolding env_page_map
env_page_map-insert src srcva dst dstva perm pgdir dst_pgdir p f j k space dst_space look guard =
    rw (space, look, ◌>>=◌) (rw (guard, dst_space) refl)

after_mem-returns :
    (k k' : Kernel) (r : Ret) (o : Option (Ret × Mem))
    → after_mem k o ≡ returns r k'
    → o ≡ some (r, k'.mem)
after_mem-returns k k' r none e = absurd (other e)
  where
    other : panics ≢ returns r k'
    other h = cc
after_mem-returns k k' r (some (r', m)) e =
    ap (λ (a : Outcome Ret). elim a [ returns x after ↦ some (x, after.mem) | _ ↦ none ]) e

pte_w-entry : (p perm : ℕ) → pte_w (or_p (p * 4096 + perm)) ≡ pte_w perm
pte_w-entry p perm = ap (λ (d : ℕ). d == 1) (omega arith)

-- When `env_page_map` returns 0, for permissions below 4096 and an entry outside of the page directory:
-- `page_lookup` of the target address finds the source's page, and the entry there holds exactly the page's
-- address, the permissions and PTE_P. It is not writeable, or the entry of the source was writeable.
pub env_page_map-writeable :
    (src srcva dst dstva perm pgdir dst_pgdir p f j f' j' : ℕ) (k k' : Kernel) (m1 : Mem)
    → (k.envs src).env_pgdir ≡ some pgdir
    → (k.envs dst).env_pgdir ≡ some dst_pgdir
    → page_lookup pgdir srcva k.mem ≡ some (some (p, f, j), k.mem)
    → p < k'.mem.npages
    → perm < 4096
    → pgdir_walk dst_pgdir dstva true k.mem ≡ some (some (f', j'), m1)
    → f' ≢ dst_pgdir
    → env_page_map src srcva dst dstva perm k ≡ returns (val 0) k'
    → (page_lookup dst_pgdir dstva k'.mem ≡ some (some (p, f', j'), k'.mem))
      × (k'.mem.frame f' j' ≡ or_p (p * pg_size + perm))
      × ((pte_w (k'.mem.frame f' j') ≡ false) ⊎ (pte_w (k.mem.frame f j) ≡ true))
env_page_map-writeable src srcva dst dstva perm pgdir dst_pgdir p f j f' j' k k' m1 space dst_space
      look lt small walk away ok =
    elim (Bool-cases (pte_w perm && not (pte_w (k.mem.frame f j)))) [
      | inl refused ↦ absurd (
          apart (
            sym (
              env_page_map-read_only src srcva dst dstva perm pgdir p f j k space look
                (ground arith) (ground arith))
            ∙ ok))
      | inr guard ↦
          let made = after_mem-returns k k' (val 0) (page_insert dst_pgdir p dstva perm k.mem) (
            sym (
              env_page_map-insert src srcva dst dstva perm pgdir dst_pgdir p f j k space dst_space
                look guard)
            ∙ ok) in
          let (there, word, others) =
            page_insert-page_lookup dst_pgdir p dstva perm f' j' k.mem m1 k'.mem lt small walk away
              made in
          (there, word, ground (arith, ap pte_w word ∙ pte_w-entry p perm))
    ]
  where
    apart : returns (err inval) k ≢ returns (val 0) k'
    apart e = cc
