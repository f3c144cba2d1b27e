-- ===== src/Sched/User/Fork.antt =====
-- sched/lib/fork.c and pgfault.c.
use sistemas_operativos.Prelude.{
  ℕ, zero, suc, ◌+◌, ◌-◌, ◌*◌, ◌/◌, Bool, not, ◌&&◌, ◌||◌, ◌==◌, if◌then◌else◌, bit_and, bit_or,
}
use sistemas_operativos.Sched.Memory.Defs.{Ret, val, err, pte_p, pte_w, pte_u, pg_size}
use sistemas_operativos.Sched.Memory.Tables.{utop, rounddown}
use sistemas_operativos.Sched.User.Calls.{back, panics, U, ◌>>=◌, ◌>>◌, pure, must, Calls}

abbrev pub pte_cow : ℕ
pte_cow = 0x800

-- `PTE_PCD | PTE_PWT`
abbrev pub pte_io : ℕ
pte_io = 0x18

abbrev pub has : ℕ → ℕ → Bool
has pte bits = not (bit_and pte bits == 0)

-- inc/memlayout.h
abbrev pub utemp : ℕ
utemp = 0x40_0000

abbrev pub pftemp : ℕ
pftemp = utemp + 0x40_0000 - pg_size

abbrev pub pnum_end : ℕ
pnum_end = utop / pg_size

abbrev pub exception_page : ℕ
exception_page = pnum_end - 1

-- ENV_RUNNABLE
abbrev pub env_runnable : ℕ
env_runnable = 2

-- `!x`
abbrev pub not_of : ℕ → ℕ
not_of x = if x == 0 then 1 else 0

abbrev pub share_perm : ℕ → ℕ
share_perm pte = if has pte pte_io then bit_or 5 pte_io else 5

abbrev pub kept_perm : ℕ → ℕ → ℕ
kept_perm pte perm =
    let kept = bit_and (bit_and perm (bit_and pte 2)) 0xE07 in
    if has pte pte_io then bit_or kept pte_io else kept

module _ {W : Type 0} (calls : Calls W) where
  -- The three system calls of `pgfault`.
  unfoldable pub replace_page : ℕ → U W (Unit {0})
  replace_page addr = do
    must (calls.sys_page_alloc 0 pftemp 7)
    (λ w. back tt (calls.copy_page pftemp addr w))
    must (calls.sys_page_map 0 pftemp 0 addr 7)
    must (calls.sys_page_unmap 0 pftemp)

  unfoldable pub pgfault : (fault_va error : ℕ) → U W (Unit {0})
  pgfault fault_va error w =
      let fault_pte = calls.uvpt w (fault_va / pg_size) in
      if not (bit_and (bit_and error 2) (not_of (bit_and fault_pte pte_cow)) == 0)
      then panics
      else replace_page (rounddown fault_va) w

  unfoldable pub duppage : ℕ → ℕ → U W (Unit {0})
  duppage envid pn w =
      let addr = pn * pg_size in
      let pte = calls.uvpt w pn in
      if not (pte_p pte) || not (pte_u pte)
      then panics
      else if pte_w pte || has pte pte_cow
      then (must (calls.sys_page_map 0 addr envid addr (bit_or (share_perm pte) pte_cow))
            >> must (calls.sys_page_map 0 addr 0 addr (bit_or (share_perm pte) pte_cow)))
          w
      else must (calls.sys_page_map 0 addr envid addr (share_perm pte)) w

  unfoldable pub dup_or_share : ℕ → ℕ → ℕ → U W (Unit {0})
  dup_or_share envid pnum perm w =
      let addr = pnum * pg_size in
      let pte = calls.uvpt w pnum in
      if not (pte_p pte)
      then back tt w
      else if not (pte_w pte) || has pte pte_io
      then must (calls.sys_page_map 0 addr envid addr (kept_perm pte perm)) w
      else (must (calls.sys_page_alloc envid addr (kept_perm pte perm))
            >> (must (calls.sys_page_map envid addr 0 utemp (kept_perm pte perm))
                >> ((λ w'. back tt (calls.copy_page utemp addr w'))
                    >> must (calls.sys_page_unmap 0 utemp))))
          w

  -- The page table of page `pn` is there, for the user.
  abbrev pub table_there : ℕ → W → Bool
  table_there pn w = pte_p (calls.uvpd w (pn / 1024)) && pte_u (calls.uvpd w (pn / 1024))

  -- A round of the loop of `fork_v0`, and the rounds from page `pn` on.
  unfoldable pub copy_one : ℕ → ℕ → U W (Unit {0})
  copy_one envid pn w = if table_there pn w then dup_or_share envid pn 7 w else back tt w

  unfoldable pub copy_all : ℕ → ℕ → ℕ → U W (Unit {0})
  copy_all zero envid pn = pure tt
  copy_all (suc left) envid pn = do copy_one envid pn; copy_all left envid (pn + 1)

  -- What the parent and the child do behind `sys_exofork`.
  unfoldable pub fork_v0_as : Ret → U W ℕ
  fork_v0_as (err e) w = panics
  fork_v0_as (val zero) w = back 0 (calls.set_thisenv w)
  fork_v0_as (val (suc n)) w =
      (copy_all pnum_end (suc n) 0
          >> (must (calls.sys_env_set_status (suc n) env_runnable) >> pure (suc n)))
        w

  unfoldable pub fork_v0 : U W ℕ
  fork_v0 = do r ← calls.sys_exofork; fork_v0_as r

  -- A round of the loop of `fork`, and the rounds from page `pn` on.
  unfoldable pub share_one : ℕ → ℕ → U W (Unit {0})
  share_one envid pn w =
      if pn == exception_page
      then back tt w
      else if table_there pn w && (pte_p (calls.uvpt w pn) && pte_u (calls.uvpt w pn))
      then duppage envid pn w
      else back tt w

  unfoldable pub share_all : ℕ → ℕ → ℕ → U W (Unit {0})
  share_all zero envid pn = pure tt
  share_all (suc left) envid pn = do share_one envid pn; share_all left envid (pn + 1)

  -- Behind the loop: the exception stack, the upcall and the status of the child.
  unfoldable pub finish_child : ℕ → U W ℕ
  finish_child envid = do
    must (calls.sys_page_alloc envid (exception_page * pg_size) 7)
    (λ w. must (calls.sys_env_set_pgfault_upcall envid (calls.thisenv_upcall w)) w)
    must (calls.sys_env_set_status envid env_runnable)
    pure envid

  unfoldable pub fork_as : Ret → U W ℕ
  fork_as (err e) w = panics
  fork_as (val zero) w = back 0 (calls.set_thisenv w)
  fork_as (val (suc n)) w = (share_all pnum_end (suc n) 0 >> finish_child (suc n)) w

  -- `set_pgfault_handler`, where `upcall` is the address of `_pgfault_upcall`.
  unfoldable pub save_handler : ℕ → Ret → U W (Unit {0})
  save_handler h (err e) w = back tt w
  save_handler h (val n) w = back tt (calls.set_handler h w)

  unfoldable pub first_handler : ℕ → ℕ → Ret → U W (Unit {0})
  first_handler upcall h (err e) w = back tt w
  first_handler upcall h (val n) w =
      (calls.sys_env_set_pgfault_upcall 0 upcall >>= save_handler h) w

  unfoldable pub set_pgfault_handler : ℕ → ℕ → U W (Unit {0})
  set_pgfault_handler upcall h w =
      if calls.handler w == 0
      then (calls.sys_page_alloc 0 (exception_page * pg_size) 7 >>= first_handler upcall h) w
      else back tt (calls.set_handler h w)

  -- `h` is the address of `pgfault`.
  unfoldable pub fork : ℕ → ℕ → U W ℕ
  fork upcall h = do set_pgfault_handler upcall h; r ← calls.sys_exofork; fork_as r
