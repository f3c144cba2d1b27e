-- ===== src/Sched/Format/Number.antt =====
-- `printnum`, and the loops that pad and put a string, of sched/lib/printfmt.c. `putdat` is the state `D`
-- that `putch` changes. An `int` that is tested against 0 only is 0 when it is negative.
use sistemas_operativos.Prelude.{
  ℕ, zero, suc, ◌-◌, ◌/◌, ◌%◌, Bool, true, false, ◌&&◌, ◌||◌, Option, none, some, List, [], ◌∷◌,
  ltb, leb, ◌==◌, if◌then◌else◌, get_or,
}

unfoldable pub digits_text : List ℕ
digits_text =
    b'0' ∷ b'1' ∷ b'2' ∷ b'3' ∷ b'4' ∷ b'5' ∷ b'6' ∷ b'7' ∷ b'8' ∷ b'9' ∷ b'a' ∷ b'b' ∷ b'c' ∷ b'd'
    ∷ b'e' ∷ b'f' ∷ []

abbrev pub digit_char : ℕ → ℕ
digit_char d = get_or digits_text d 0

-- `--precision >= 0`, where a precision was given.
abbrev pub cut_off : Option ℕ → Bool
cut_off none = false
cut_off (some zero) = true
cut_off (some (suc n)) = false

abbrev pub one_less : Option ℕ → Option ℕ
one_less none = none
one_less (some n) = some (n - 1)

abbrev pub shown : Bool → ℕ → ℕ
shown altflag ch = if altflag && (ltb ch 32 || ltb 126 ch) then b'?' else ch

module _ {D : Type 0} (putch : ℕ → D → D) where
  unfoldable pub pad : ℕ → ℕ → D → D
  pad zero c d = d
  pad (suc n) c d = pad n c (putch c d)

  -- The recursion has `num + 1` rounds at most in a base of 2 or more; without a round left it leaves the state.
  unfoldable pub printnum : ℕ → ℕ → ℕ → ℕ → ℕ → D → D
  printnum zero num base width padc d = d
  printnum (suc fuel) num base width padc d = putch (digit_char (num % base)) (elim (leb base num) [
    | true ↦ printnum fuel (num / base) base (width - 1) padc d
    | false ↦ pad (width - 1) padc d
  ])

  -- The loop over the string: what is put, and the width that is left. A byte is put as it is, without the sign
  -- extension of `char` from 128 on, which a `putch` that stores bytes does not see.
  unfoldable pub put_string : Bool → List ℕ → Option ℕ → ℕ → D → Option (D × ℕ)
  put_string altflag [] precision width d = none
  put_string altflag (ch ∷ p) precision width d = elim (ch == 0 || cut_off precision) [
    | true ↦ some (d, width)
    | false ↦ put_string altflag p (one_less precision) (width - 1) (putch (shown altflag ch) d)
  ]
