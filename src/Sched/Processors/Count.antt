-- ===== src/Sched/Processors/Count.antt =====
-- What mp_init of sched/kern/mpconfig.c makes of a table with entries of the known types.
use sistemas_operativos.Prelude.{
  ℕ, suc, ◌+◌, ◌/◌, ◌%◌, ◌≤◌, ◌<◌, ◌≡◌, refl, Bool, true, some, List, [], ◌∷◌, arith, min, length,
  ◌==◌, if◌then◌else◌, update, not, leb,
}
use native.Mathlib.Nat.{add-zero, zero-add}
use sistemas_operativos.Sched.Env.Load.{le16, le32}
use sistemas_operativos.Sched.Lock.System.{CpuStatus}
use sistemas_operativos.Sched.Processors.{
  ncpu_max, Processors, no_processors, done, add_cpu, conclude, start_boot, take_entry, entry_size,
  read_entries, read_config, mpconfig, mp_init,
}

-- An entry of the table: a processor with its flags, or one of the other four types.
pub data Entry : Type 0 where
  processor : (flags : ℕ) → Entry
  device : (type : ℕ) → Entry

module _ (byte : ℕ → ℕ) where
  -- Whether memory holds the entries from `p` on.
  abbrev pub Laid : ℕ → List Entry → Type 0
  Laid p [] = Unit
  Laid p (processor flags ∷ es) = (byte p ≡ 0) × (byte (p + 3) ≡ flags) × Laid (p + 20) es
  Laid p (device type ∷ es) = (byte p ≡ type) × (0 < type) × (type ≤ 4) × Laid (p + 8) es

abbrev pub processors : List Entry → ℕ
processors [] = 0
processors (processor _ ∷ es) = suc (processors es)
processors (device _ ∷ es) = processors es

-- The number that the last processor with the flag for the boot gets, behind `n` processors.
abbrev pub boot_number : ℕ → ℕ → List Entry → ℕ
boot_number found n [] = found
boot_number found n (processor flags ∷ es) =
    boot_number (if flags / 2 % 2 == 1 then min ncpu_max n else found) (suc n) es
boot_number found n (device _ ∷ es) = boot_number found n es

-- The state behind `n` processors, the last one for the boot with number `found`.
pub record Counted (found n : ℕ) (s : Processors) : Type 0 where
  pub ncpu : s.ncpu ≡ min ncpu_max n
  pub bootcpu : s.bootcpu ≡ found
  pub ids : (i : ℕ) → i < s.ncpu → s.cpu_id i ≡ i
  pub ismp : s.ismp ≡ true

add_cpu-Counted :
    (found n flags : ℕ) (s : Processors)
    → Counted found n s
    → Counted (if flags / 2 % 2 == 1 then min ncpu_max n else found) (suc n) (add_cpu flags s)
unfolding add_cpu
add_cpu-Counted found n flags s h = record {
  ncpu = ground arith;
  bootcpu = ground arith;
  ids = λ i lt. ground (arith, h.ids i);
  ismp = ground arith;
}

module _ (byte : ℕ → ℕ) where
  read_entries-Counted :
      (es : List Entry) (p found n : ℕ) (s : Processors)
      → Laid byte p es
      → Counted found n s
      → Counted (boot_number found n es) (n + processors es) (read_entries byte (length es) p s)
  unfolding read_entries
  read_entries-Counted [] p found n s laid h = rw (add-zero n) h
  read_entries-Counted (processor flags ∷ es) p found n s (type, marks, laid) h =
      rw (type, marks, next)
        (read_entries-Counted es (p + 20) _ (suc n) (add_cpu flags s) laid
          (add_cpu-Counted found n flags s h))
    where
      next : n + suc (processors es) ≡ suc n + processors es
      next = omega arith
  read_entries-Counted (device type ∷ es) p found n s (at, positive, small, laid) h =
      rw (is_device, entry, size) (read_entries-Counted es (p + 8) found n s laid h)
    where
      is_device : leb (byte p) 4 ≡ true
      is_device = ground arith

      entry : take_entry byte p s ≡ s
      entry = ground arith

      size : entry_size byte p ≡ 8
      size = ground arith

-- The globals behind a table of known entries, and those that `mp_init` leaves.
abbrev pub at_table : ℕ → Processors
at_table lapicaddr = record no_processors { ismp = true; lapicaddr = lapicaddr }

at_table-Counted : (lapicaddr : ℕ) → Counted 0 0 (at_table lapicaddr)
at_table-Counted lapicaddr = record {
  ncpu = refl;
  bootcpu = refl;
  ids = λ i lt. absurd (omega (arith, lt));
  ismp = refl;
}

start_boot-Counted :
    (imcrp : Bool) (found n : ℕ) (s : Processors)
    → found < ncpu_max
    → Counted found n s
    → (s' : Processors) × (start_boot imcrp s ≡ done s')
      × Counted found n s'
      × (s'.cpu_status found ≡ CpuStatus.cpu_started)
      × (s'.imcr ≡ imcrp)
unfolding start_boot conclude
start_boot-Counted imcrp found n s lt h = (
  record s { cpu_status = update s.cpu_status s.bootcpu CpuStatus.cpu_started; imcr = imcrp },
  ground arith,
  record { ncpu = h.ncpu; bootcpu = h.bootcpu; ids = h.ids; ismp = h.ismp },
  ground arith,
  refl,
)

mp_init-table :
    (byte : ℕ → ℕ) (npages mp conf n : ℕ)
    → mpconfig byte npages ≡ some (some (mp, conf))
    → n ≡ le16 byte (conf + 34)
    → mp_init byte npages
      ≡ start_boot
          (not (byte (mp + 12) == 0))
          (read_entries byte n (conf + 44) (at_table (le32 byte (conf + 36))))
unfolding mp_init read_config
mp_init-table byte npages mp conf n found size = rw (mp_init, found, size) refl

-- Where `mpconfig` finds a table whose entries all have a known type, and one of the first eight processors is the
-- last with the flag for the boot: `mp_init` returns, has counted the processors up to eight, has numbered them,
-- and has marked that one as started.
pub mp_init-Counted :
    (byte : ℕ → ℕ) (npages mp conf : ℕ) (es : List Entry)
    → mpconfig byte npages ≡ some (some (mp, conf))
    → Laid byte (conf + 44) es
    → length es ≡ le16 byte (conf + 34)
    → boot_number 0 0 es < ncpu_max
    → (s : Processors) × (mp_init byte npages ≡ done s)
      × Counted (boot_number 0 0 es) (processors es) s
      × (s.cpu_status (boot_number 0 0 es) ≡ CpuStatus.cpu_started)
      × (s.imcr ≡ not (byte (mp + 12) == 0))
mp_init-Counted byte npages mp conf es found laid size lt =
    rw (mp_init-table byte npages mp conf (length es) found size) (
      start_boot-Counted (not (byte (mp + 12) == 0)) (boot_number 0 0 es) (processors es) _ lt (
        rw (zero-add (processors es)) at (
          read_entries-Counted byte es (conf + 44) 0 0 (at_table (le32 byte (conf + 36))) laid
            (at_table-Counted _))))
