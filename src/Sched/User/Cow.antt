-- ===== src/Sched/User/Cow.antt =====
-- `fork` and `pgfault` of sched/lib/fork.c.
use sistemas_operativos.Prelude.{
  ℕ, ◌/◌, ◌≡◌, ap, Bool, true, false, not, ◌==◌, if◌then◌else◌, bit_and,
}
use sistemas_operativos.Prelude.Bits.{bit_and-zero, bit_and-two_even, bit_and-even}
use sistemas_operativos.Sched.Memory.Defs.{pg_size}
use sistemas_operativos.Sched.Memory.Tables.{rounddown}
use sistemas_operativos.Sched.User.Calls.{panics, Calls}
use sistemas_operativos.Sched.User.Fork.{pte_cow, replace_page, pgfault}

-- `(err & FEC_WR) & !x` is 0.
never_both : (error : ℕ) (b : Bool) → bit_and (bit_and error 2) (if b then 1 else 0) ≡ 0
never_both error true = bit_and-even (bit_and error 2) (bit_and-two_even error)
never_both error false = bit_and-zero (bit_and error 2)

module _ {W : Type 0} (calls : Calls W) where
  -- The test of `pgfault` for a write to a page that is not copy-on-write never holds, whatever the error
  -- code and the entry are: each fault has its page replaced.
  pub pgfault-replaces :
      (fault_va error : ℕ) (w : W)
      → pgfault calls fault_va error w ≡ replace_page calls (rounddown fault_va) w
  unfolding pgfault
  pgfault-replaces fault_va error w =
      ap (λ (x : ℕ). if not (x == 0) then panics else replace_page calls (rounddown fault_va) w)
        (never_both error (bit_and (calls.uvpt w (fault_va / pg_size)) pte_cow == 0))
