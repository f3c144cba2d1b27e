-- ===== src/Sched/Env/Alloc.antt =====
-- What `env_alloc` of sched/kern/env.c makes of the first free slot, and how it fails.
use sistemas_operativos.Prelude.{
  ℕ, ◌+◌, ◌*◌, ◌≡◌, ◌≢◌, refl, sym, true, false, none, some, List, [], ◌∷◌, arith, bit_or,
}
use sistemas_operativos.Sched.Memory.Defs.{
  Mem, val, err, no_mem, no_free_env, page_alloc, pg_size, put_word, page_incref,
}
use sistemas_operativos.Sched.Memory.FreeList.{
  HasFree, Allocated, page_alloc-empty, page_alloc-cons,
}
use sistemas_operativos.Sched.Kernel.{runnable, Kernel, returns, put_env}
use sistemas_operativos.Sched.Env.Table.{
  env_setup_vm, install_pgdir, env_alloc, fresh_env, next_generation, user_frame, ticket_step,
  copy_page, uvpt_index,
}

setup-fails : (i : ℕ) (k : Kernel) → HasFree k.mem [] → env_setup_vm i k ≡ returns (err no_mem) k
unfolding env_setup_vm install_pgdir
setup-fails i k h = rw (page_alloc-empty true k.mem h)

-- `env_alloc` returns -E_NO_FREE_ENV when every slot is taken, and -E_NO_MEM when no page is left
-- for the page directory; in both cases the kernel is unchanged.
pub env_alloc-fails :
    (parent : ℕ) (k : Kernel)
    → (k.env_free_list ≡ none → env_alloc parent k ≡ returns (err no_free_env, none) k)
      × ((i : ℕ)
          → k.env_free_list ≡ some i
          → HasFree k.mem []
          → env_alloc parent k ≡ returns (err no_mem, none) k)
unfolding env_alloc
env_alloc-fails parent k = (λ e. ground arith, λ i e h. ground (arith, setup-fails i k h))

-- What a fresh environment is: the caller's child with a new identifier, RUNNABLE, with all its
-- tickets, no runs and no registers of an earlier use.
pub record Fresh (i parent p : ℕ) (k k' : Kernel) : Type 0 where
  pub id : (k'.envs i).env_id ≡ bit_or (next_generation (k.envs i).env_id) i
  pub child : (k'.envs i).env_parent_id ≡ parent
  pub status : (k'.envs i).env_status ≡ runnable
  pub tickets : (k'.envs i).env_tickets ≡ ticket_step
  pub runs : (k'.envs i).env_runs ≡ 0
  pub registers : (k'.envs i).env_tf ≡ user_frame
  pub deaf : (k'.envs i).env_ipc_recving ≡ false
  pub space : (k'.envs i).env_pgdir ≡ some p
  pub list : k'.env_free_list ≡ (k.envs i).env_link
  pub others : (j : ℕ) → j ≢ i → k'.envs j ≡ k.envs j
  pub same_current : k'.curenv ≡ k.curenv
  pub kernel_part :
      (x : ℕ) → x ≢ uvpt_index → p ≢ k.kern_pgdir → k'.mem.frame p x ≡ k.mem.frame k.kern_pgdir x
  pub itself : k'.mem.frame p uvpt_index ≡ p * pg_size + 5
  pub referenced : (k'.mem.pages p).pp_ref ≡ 1

abbrev page_dir : ℕ → Kernel → Mem → Mem
page_dir p k m =
    put_word p uvpt_index (p * pg_size + 5) (page_incref p (copy_page p k.kern_pgdir m))

abbrev set_up : ℕ → ℕ → Kernel → Mem → Kernel
set_up i p k m =
    put_env i (record (k.envs i) { env_pgdir = some p }) (record k { mem = page_dir p k m })

setup_lem :
    (i p : ℕ) (k : Kernel) (m : Mem)
    → page_alloc true k.mem ≡ some (some p, m)
    → env_setup_vm i k ≡ returns (val 0) (set_up i p k m)
unfolding env_setup_vm install_pgdir
setup_lem i p k m e = rw e

abbrev committed : ℕ → ℕ → Kernel → Kernel
committed i parent k =
    let e = fresh_env i parent (k.envs i) in record (put_env i e k) { env_free_list = e.env_link }

committed-Fresh :
    (i parent p : ℕ) (ps : List ℕ) (k : Kernel) (m : Mem)
    → Allocated true p ps k.mem m
    → Fresh i parent p k (committed i parent (set_up i p k m))
committed-Fresh i parent p ps k m a = record {
  id = ground arith;
  child = ground arith;
  status = ground arith;
  tickets = ground arith;
  runs = ground arith;
  registers = ground arith;
  deaf = ground arith;
  space = ground arith;
  list = ground arith;
  others = λ j ne. ground arith;
  same_current = refl;
  kernel_part = λ x ne apart. ground (arith, a.words k.kern_pgdir x (λ e. apart (sym e)));
  itself = ground arith;
  referenced = ground (arith, a.unreferenced);
}

-- With slot i at the head of the environments' free list and page p at the head of the pages' one,
-- `env_alloc` returns 0 with slot i, whose environment is fresh and has p for its page directory.
pub env_alloc_lem :
    (parent i p : ℕ) (ps : List ℕ) (k : Kernel)
    → k.env_free_list ≡ some i
    → HasFree k.mem (p ∷ ps)
    → (k' : Kernel) × (env_alloc parent k ≡ returns (val 0, some i) k') × Fresh i parent p k k'
unfolding env_alloc
env_alloc_lem parent i p ps k e h =
    let (m, got, a) = page_alloc-cons true k.mem p ps h in
    (
      committed i parent (set_up i p k m),
      ground (arith, setup_lem i p k m got),
      committed-Fresh i parent p ps k m a,
    )
