-- ===== src/Sched/Processors.antt =====
-- sched/kern/mpconfig.c: the search for the tables of the BIOS, and mp_init, which counts the CPUs. `byte` is
-- physical memory.
pub mod Count
pub mod Examples
use sistemas_operativos.Prelude.{
  ℕ, zero, suc, ◌+◌, ◌-◌, ◌*◌, ◌/◌, ◌%◌, ◌^◌, Bool, true, false, ◌&&◌, ◌||◌, not, Option, none,
  some, ltb, leb, ◌==◌, if◌then◌else◌, update,
}
use sistemas_operativos.Sched.Memory.Layout.{kaddr}
use sistemas_operativos.Sched.Env.Load.{le16, le32}
use sistemas_operativos.Sched.Lock.System.{CpuStatus}

abbrev pub ncpu_max : ℕ
ncpu_max = 8

-- `struct CpuInfo` and the globals of mpconfig.c, with whether IMCR was set to leave PIC mode.
pub record Processors : Type 0 where
  pub ismp : Bool
  pub ncpu : ℕ
  pub bootcpu : ℕ
  pub cpu_id : ℕ → ℕ
  pub cpu_status : ℕ → CpuStatus
  pub lapicaddr : ℕ
  pub imcr : Bool

-- The globals before `mp_init`, with `bootcpu` as it sets it first.
abbrev pub no_processors : Processors
no_processors = record {
  ismp = false;
  ncpu = 0;
  bootcpu = 0;
  cpu_id = λ _. 0;
  cpu_status = λ _. CpuStatus.cpu_unused;
  lapicaddr = 0;
  imcr = false;
}

-- How `mp_init` ends: it returns, panics in KADDR, or writes behind the array `cpus`.
pub data Ended : Type 0 where
  done : Processors → Ended
  panics : Ended
  outside : Ended

-- A processor's entry of the table.
abbrev pub mark_boot : Bool → Processors → Processors
mark_boot boot s = if boot then record s { bootcpu = s.ncpu } else s

abbrev pub count_cpu : Processors → Processors
count_cpu s =
    if ltb s.ncpu ncpu_max
    then record s { cpu_id = update s.cpu_id s.ncpu s.ncpu; ncpu = s.ncpu + 1 }
    else s

unfoldable pub add_cpu : ℕ → Processors → Processors
add_cpu flags s = count_cpu (mark_boot (flags / 2 % 2 == 1) s)

-- `ismp` is cleared, or the local APIC is taken over, behind the loop of `mp_init`.
unfoldable pub conclude : Bool → Processors → Processors
conclude imcrp s =
    if s.ismp then record s { imcr = imcrp } else record s { ncpu = 1; lapicaddr = 0 }

unfoldable pub start_boot : Bool → Processors → Ended
start_boot imcrp s =
    if ltb s.bootcpu ncpu_max
    then done (
        conclude imcrp
          (record s { cpu_status = update s.cpu_status s.bootcpu CpuStatus.cpu_started }))
    else outside

module _ (byte : ℕ → ℕ) where
  unfoldable pub sum_from : ℕ → ℕ → ℕ → ℕ
  sum_from zero a total = total
  sum_from (suc left) a total = sum_from left (a + 1) (total + byte a)

  -- The result is a uint8_t.
  abbrev pub sum : ℕ → ℕ → ℕ
  sum a len = sum_from len a 0 % 2 ^ 8

  abbrev pub has_text : ℕ → ℕ → ℕ → ℕ → ℕ → Bool
  has_text a b0 b1 b2 b3 =
      byte a == b0 && byte (a + 1) == b1 && byte (a + 2) == b2 && byte (a + 3) == b3

  -- The signature `_MP_`, with a sum of 0.
  abbrev pub is_mp : ℕ → Bool
  is_mp a = has_text a 95 77 80 95 && sum a 16 == 0

  unfoldable pub search_mp : ℕ → ℕ → Option ℕ
  search_mp zero a = none
  search_mp (suc left) a = let rest = search_mp left (a + 16) in if is_mp a then some a else rest

  -- `none` is a panic, of KADDR; `some none` is NULL.
  unfoldable pub mpsearch1 : ℕ → ℕ → ℕ → Option (Option ℕ)
  mpsearch1 npages a len = elim (kaddr npages a) [
    | none ↦ none
    | some _ ↦ elim (kaddr npages ((a + len) % 2 ^ 32)) [
      | none ↦ none
      | some _ ↦ some (search_mp ((len + 15) / 16) a)
    ]
  ]

  abbrev pub otherwise : Option (Option ℕ) → Option (Option ℕ) → Option (Option ℕ)
  otherwise none last = none
  otherwise (some none) last = last
  otherwise (some (some mp)) last = some (some mp)

  -- The first place: the EBDA, or the last KiB of base memory where there is none.
  abbrev pub search_base : ℕ → Option (Option ℕ)
  search_base npages =
      if le16 byte 0x40e == 0
      then mpsearch1 npages ((le16 byte 0x413 * 1024 + (2 ^ 32 - 1024)) % 2 ^ 32) 1024
      else mpsearch1 npages (le16 byte 0x40e * 16) 1024

  unfoldable pub mpsearch : ℕ → Option (Option ℕ)
  mpsearch npages = elim (kaddr npages 0x400) [
    | none ↦ none
    | some _ ↦ otherwise (search_base npages) (mpsearch1 npages 0xf0000 0x10000)
  ]

  -- The tests of `mpconfig` on the table itself.
  unfoldable pub is_config : ℕ → Bool
  is_config conf =
      has_text conf 80 67 77 80
      && sum conf (le16 byte (conf + 4)) == 0
      && (byte (conf + 6) == 1 || byte (conf + 6) == 4)
      && (sum (conf + le16 byte (conf + 4)) (le16 byte (conf + 40)) + byte (conf + 42)) % 256 == 0

  abbrev pub config_of : ℕ → ℕ → Option (Option (ℕ × ℕ))
  config_of npages mp =
      if le32 byte (mp + 4) == 0 || not (byte (mp + 11) == 0)
      then some none
      else elim (kaddr npages (le32 byte (mp + 4))) [
        | none ↦ none
        | some _ ↦
            some (if is_config (le32 byte (mp + 4)) then some (mp, le32 byte (mp + 4)) else none)
      ]

  unfoldable pub mpconfig : ℕ → Option (Option (ℕ × ℕ))
  mpconfig npages = elim (mpsearch npages) [
    | none ↦ none
    | some none ↦ some none
    | some (some mp) ↦ config_of npages mp
  ]

  -- The entry at `p`: what it does, and its length.
  abbrev pub take_entry : ℕ → Processors → Processors
  take_entry p s = if byte p == 0 then add_cpu (byte (p + 3)) s else s

  abbrev pub entry_size : ℕ → ℕ
  entry_size p = if byte p == 0 then 20 else 8

  -- The loop of `mp_init` with `left` entries left; an unknown type ends it.
  unfoldable pub read_entries : ℕ → ℕ → Processors → Processors
  read_entries zero p s = s
  read_entries (suc left) p s =
      let rest = read_entries left (p + entry_size p) (take_entry p s) in
      if leb (byte p) 4 then rest else record s { ismp = false }

  unfoldable pub read_config : ℕ → ℕ → Ended
  read_config mp conf = start_boot (not (byte (mp + 12) == 0)) (
      read_entries (le16 byte (conf + 34)) (conf + 44)
        (record no_processors { ismp = true; lapicaddr = le32 byte (conf + 36) }))

  unfoldable pub mp_init : ℕ → Ended
  mp_init npages = elim (mpconfig npages) [
    | none ↦ panics
    | some none ↦ done no_processors
    | some (some (mp, conf)) ↦ read_config mp conf
  ]
