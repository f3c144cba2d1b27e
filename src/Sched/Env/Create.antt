-- ===== src/Sched/Env/Create.antt =====
-- What env_create of sched/kern/env.c makes of a program.
use sistemas_operativos.Prelude.{ℕ, ◌≡◌, ◌≢◌, ◌⊎◌, none, some}
use sistemas_operativos.Sched.Memory.Defs.{Mem}
use sistemas_operativos.Sched.Kernel.{Kernel}
use sistemas_operativos.Sched.Env.Load.{elf_at, elf_magic, load_image}

module _ (store : ℕ → ℕ → ℕ → (ℕ → ℕ) → Mem → Mem) (binary : ℕ → ℕ) where
  -- The kernel `k'` behind the load of the image into environment `i` with page directory `p`, from `k1` on.
  pub record Loaded (type i p : ℕ) (k1 k' : Kernel) : Type 0 where
    pub image : load_image store binary p k1.mem ≡ some (tt, k'.mem)
    pub created : k'.envs i ≡ record (k1.envs i) {
      env_tf = record ((k1.envs i).env_tf) { tf_eip = (elf_at binary).e_entry };
      env_type = type;
    }
    pub entry : (k'.envs i).env_tf.tf_eip ≡ (elf_at binary).e_entry
    pub stack : (k'.envs i).env_tf.tf_esp ≡ (k1.envs i).env_tf.tf_esp
    pub of_type : (k'.envs i).env_type ≡ type
    pub status : (k'.envs i).env_status ≡ (k1.envs i).env_status
    pub space : (k'.envs i).env_pgdir ≡ some p
    pub others : (j : ℕ) → j ≢ i → k'.envs j ≡ k1.envs j
    pub list : k'.env_free_list ≡ k1.env_free_list
    pub rest : k' ≡ record k1 { mem = k'.mem; envs = k'.envs; cr3 = k'.cr3 }
    pub directory : k'.cr3 ≡ k1.kern_pgdir

  -- The ways in which a program is no program, or memory runs out.
  abbrev pub IsRefused : ℕ → Mem → Type 0
  IsRefused p m = ((elf_at binary).e_magic ≢ elf_magic) ⊎ (load_image store binary p m ≡ none)
