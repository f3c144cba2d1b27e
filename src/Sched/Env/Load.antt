-- ===== src/Sched/Env/Load.antt =====
-- Loading of programs, of sched/kern/env.c: region_alloc, load_icode and env_create. A program is the function
-- from an offset to a byte of its ELF image. `store` is what the hardware does with a number of bytes that the
-- kernel writes at an address through a page directory.
use sistemas_operativos.Prelude.{
  ℕ, zero, suc, ◌+◌, ◌-◌, ◌*◌, ◌/◌, ◌%◌, ◌^◌, false, Option, none, some, ltb, ◌==◌, if◌then◌else◌,
}
use sistemas_operativos.Sched.Memory.Defs.{Mem, M, ◌>>=◌, ◌>>◌, Ret, val, err, pg_size, page_alloc}
use sistemas_operativos.Sched.Memory.Tables.{page_insert, utop, rounddown, roundup}
use sistemas_operativos.Sched.Kernel.{
  Kernel, K, returns, panics, faults, then_do, after_mem, put_env,
}
use sistemas_operativos.Sched.Env.Table.{env_alloc, ustacktop}

-- A panic where a result is not 0.
unfoldable pub expect_zero : Ret → M (Unit {0})
expect_zero (val r) m = if r == 0 then some (tt, m) else none
expect_zero (err e) m = none

unfoldable pub insert_page : ℕ → ℕ → Option ℕ → M (Unit {0})
insert_page pgdir va none m = none
insert_page pgdir va (some p) m = (page_insert pgdir p va 6 >>= expect_zero) m

-- The loop of `region_alloc` with `left` rounds at most.
unfoldable pub alloc_pages : ℕ → ℕ → ℕ → ℕ → M (Unit {0})
alloc_pages zero pgdir va_act va_hi m = some (tt, m)
alloc_pages (suc left) pgdir va_act va_hi m =
    let rest = alloc_pages left pgdir (va_act + pg_size) va_hi in
    if ltb va_act va_hi
    then (do p ← page_alloc false; insert_page pgdir va_act p; rest) m
    else some (tt, m)

unfoldable pub region_alloc : ℕ → ℕ → ℕ → M (Unit {0})
region_alloc pgdir va len m =
    let va_hi = roundup ((va + len) % 2 ^ 32) in
    if ltb utop va_hi then none else alloc_pages (va_hi / pg_size) pgdir (rounddown va) va_hi m

-- Fields of the image: 16 and 32 bits, the low byte first.
abbrev pub le16 : (ℕ → ℕ) → ℕ → ℕ
le16 binary at = binary at + binary (at + 1) * 2 ^ 8

abbrev pub le32 : (ℕ → ℕ) → ℕ → ℕ
le32 binary at = le16 binary at + le16 binary (at + 2) * 2 ^ 16

-- `struct Elf` and `struct Proghdr`, the fields that are read.
pub record Elf : Type 0 where
  pub e_magic : ℕ
  pub e_entry : ℕ
  pub e_phoff : ℕ
  pub e_phnum : ℕ

pub record Proghdr : Type 0 where
  pub p_type : ℕ
  pub p_offset : ℕ
  pub p_va : ℕ
  pub p_filesz : ℕ
  pub p_memsz : ℕ

abbrev pub elf_at : (ℕ → ℕ) → Elf
elf_at binary = record {
  e_magic = le32 binary 0;
  e_entry = le32 binary 24;
  e_phoff = le32 binary 28;
  e_phnum = le16 binary 44;
}

abbrev pub proghdr_at : (ℕ → ℕ) → ℕ → Proghdr
proghdr_at binary at = record {
  p_type = le32 binary at;
  p_offset = le32 binary (at + 4);
  p_va = le32 binary (at + 8);
  p_filesz = le32 binary (at + 16);
  p_memsz = le32 binary (at + 20);
}

abbrev pub elf_magic : ℕ
elf_magic = 0x464c457f

-- `env_tf.tf_eip` and cr3 at the end of `load_icode`.
unfoldable pub set_entry : ℕ → ℕ → Kernel → Kernel
set_entry i entry k =
    let e = k.envs i in
    record (put_env i (record e { env_tf = record (e.env_tf) { tf_eip = entry } }) k) {
      cr3 = k.kern_pgdir;
    }

unfoldable pub set_type : ℕ → ℕ → Kernel → Kernel
set_type i type k = put_env i (record (k.envs i) { env_type = type }) k

module _ (store : ℕ → ℕ → ℕ → (ℕ → ℕ) → Mem → Mem) where
  abbrev pub write : ℕ → ℕ → ℕ → (ℕ → ℕ) → M (Unit {0})
  write pgdir va len bytes m = some (tt, store pgdir va len bytes m)

  -- `memset` and `memcpy` behind `region_alloc`.
  unfoldable pub load_segment : (ℕ → ℕ) → ℕ → Proghdr → M (Unit {0})
  load_segment binary pgdir ph = do
    region_alloc pgdir ph.p_va ph.p_memsz
    write pgdir ph.p_va ph.p_memsz (λ _. 0)
    write pgdir ph.p_va ph.p_filesz (λ j. binary (ph.p_offset + j))

  -- The loop over the program headers, with `left` of them left.
  unfoldable pub load_segments : ℕ → (ℕ → ℕ) → ℕ → ℕ → M (Unit {0})
  load_segments zero binary pgdir at m = some (tt, m)
  load_segments (suc left) binary pgdir at m =
      let ph = proghdr_at binary at in
      let rest = load_segments left binary pgdir (at + 32) in
      if ph.p_type == 1 then (load_segment binary pgdir ph >> rest) m else rest m

  -- What `load_icode` does to memory.
  unfoldable pub load_image : (ℕ → ℕ) → ℕ → M (Unit {0})
  load_image binary pgdir = do
    load_segments (elf_at binary).e_phnum binary pgdir (elf_at binary).e_phoff
    region_alloc pgdir (ustacktop - pg_size) pg_size

  unfoldable pub load_into : (ℕ → ℕ) → ℕ → Option ℕ → K (Unit {0})
  load_into binary i none k = panics
  load_into binary i (some pgdir) k =
      then_do (after_mem (record k { cr3 = pgdir }) (load_image binary pgdir k.mem))
        (λ _ after. returns tt (set_entry i (elf_at binary).e_entry after))

  unfoldable pub load_icode : (ℕ → ℕ) → ℕ → K (Unit {0})
  load_icode binary i k =
      if (elf_at binary).e_magic == elf_magic
      then load_into binary i (k.envs i).env_pgdir k
      else panics

  unfoldable pub create_in : (ℕ → ℕ) → ℕ → Ret × Option ℕ → K (Unit {0})
  create_in binary type (err _, _) k = panics
  create_in binary type (val _, none) k = faults
  create_in binary type (val _, some i) k =
      then_do (load_icode binary i k) (λ _ after. returns tt (set_type i type after))

  unfoldable pub env_create : (ℕ → ℕ) → ℕ → K (Unit {0})
  env_create binary type k = then_do (env_alloc 0 k) (create_in binary type)
