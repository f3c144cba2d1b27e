-- ===== src/Sched/Processors/Examples.antt =====
-- A table of sched/kern/mpconfig.c with one processor and one bus.
use sistemas_operativos.Prelude.{
  ℕ, ◌+◌, ◌≡◌, ◌==◌, refl, List, [], ◌∷◌, some, not, if◌then◌else◌, arith,
}
use sistemas_operativos.Sched.Lock.System.{CpuStatus}
use sistemas_operativos.Sched.Processors.{
  Processors, done, mpsearch, mpsearch1, search_mp, sum_from, is_config, mpconfig, mp_init,
}
use sistemas_operativos.Sched.Memory.Layout.{kaddr}
use sistemas_operativos.Sched.Processors.Count.{processor, device, Counted, mp_init-Counted}

unfoldable byte_of : List (ℕ × ℕ) → ℕ → ℕ
byte_of [] a = 0
byte_of ((at, b) ∷ bytes) a = if at == a then b else byte_of bytes a

-- The segment of the EBDA, the pointer in it, and the table at the address 0x1000.
abbrev contents : List (ℕ × ℕ)
contents =
    (0x40e, 0xc0)
    ∷ (0x40f, 0x9f)
    ∷ (0x9fc00, 95)
    ∷ (0x9fc01, 77)
    ∷ (0x9fc02, 80)
    ∷ (0x9fc03, 95)
    ∷ (0x9fc05, 16)
    ∷ (0x9fc08, 1)
    ∷ (0x9fc09, 4)
    ∷ (0x9fc0a, 144)
    ∷ (0x1000, 80)
    ∷ (0x1001, 67)
    ∷ (0x1002, 77)
    ∷ (0x1003, 80)
    ∷ (0x1004, 72)
    ∷ (0x1006, 4)
    ∷ (0x1007, 160)
    ∷ (0x1022, 2)
    ∷ (0x1026, 224)
    ∷ (0x1027, 254)
    ∷ (0x102f, 3)
    ∷ (0x1040, 1)
    ∷ []

abbrev bios : ℕ → ℕ
bios = byte_of contents

found : mpconfig bios 1024 ≡ some (some (0x9fc00, 0x1000))
unfolding byte_of mpconfig mpsearch kaddr mpsearch1 search_mp sum_from is_config
found = refl

mp_init-Counted_example :
    (s : Processors) × (mp_init bios 1024 ≡ done s)
    × Counted 0 1 s
    × (s.cpu_status 0 ≡ CpuStatus.cpu_started)
    × (s.imcr ≡ not (bios (0x9fc00 + 12) == 0))
unfolding byte_of
mp_init-Counted_example =
    mp_init-Counted bios 1024 0x9fc00 0x1000 (processor 3 ∷ device 1 ∷ []) found
      (refl, refl, (refl, omega arith, omega arith, tt)) refl (omega arith)
