-- ===== src/Sched/Format/Directive.antt =====
-- The flags of a directive of `vprintfmt`, in sched/lib/printfmt.c. A width or a precision that is negative
-- is `none`. The loop that reads digits is a mode of the automaton, the field `reading`.
use sistemas_operativos.Prelude.{
  ℕ, ◌+◌, ◌-◌, ◌*◌, ◌^◌, Bool, true, false, ◌&&◌, Option, none, some, List, [], ◌∷◌, ltb, leb, ◌==◌,
  if◌then◌else◌,
}

-- What the words of the argument list hold: 32 bits, 64 bits, a pointer to a string, or NULL.
pub data Arg : Type 0 where
  word : ℕ → Arg
  dword : ℕ → Arg
  text : List ℕ → Arg
  null : Arg

pub record Spec : Type 0 where
  pub padc : ℕ
  pub width : Option ℕ
  pub precision : Option ℕ
  pub lflag : ℕ
  pub altflag : Bool
  pub reading : Bool

abbrev pub plain : Spec
plain = record {
  padc = 32;
  width = none;
  precision = none;
  lflag = 0;
  altflag = false;
  reading = false;
}

abbrev pub is_digit : ℕ → Bool
is_digit c = leb b'0' c && leb c b'9'

abbrev pub value_or_zero : Option ℕ → ℕ
value_or_zero none = 0
value_or_zero (some n) = n

-- `process_precision`.
unfoldable pub process_precision : Spec → Spec
process_precision s = elim s.width [
  | none ↦ record s { width = s.precision; precision = none; reading = false }
  | some w ↦ record s { reading = false }
]

-- The end of the digits, where some were read.
abbrev pub end_number : Spec → Spec
end_number s = if s.reading then process_precision s else s

abbrev pub read_digit : ℕ → Spec → Spec
read_digit c s = record s {
  precision = some ((if s.reading then value_or_zero s.precision else 0) * 10 + (c - b'0'));
  reading = true;
}

-- The `int` behind 32 bits, `none` where it is negative.
abbrev pub signed : ℕ → Option ℕ
signed w = if ltb w (2 ^ 31) then some w else none

abbrev pub zero_width : Spec → Spec
zero_width s = elim s.width [ none ↦ record s { width = some 0 } | some w ↦ s ]

-- A character of a directive: a flag, with the state after it; what ends the flags; or a star without
-- its argument.
pub data Flag : Type 0 where
  goes_on : Spec → List Arg → Flag
  ends : Flag
  no_argument : Flag

abbrev pub star : Spec → List Arg → Flag
star s (word w ∷ ap) = goes_on (process_precision (record s { precision = signed w })) ap
star s ap = no_argument

unfoldable pub flag : ℕ → Spec → List Arg → Flag
flag ch s ap =
    if ch == b'-'
    then goes_on (record s { padc = b'-' }) ap
    else if ch == b'0'
    then goes_on (record s { padc = b'0' }) ap
    else if is_digit ch
    then goes_on (read_digit ch s) ap
    else if ch == b'*'
    then star s ap
    else if ch == b'.'
    then goes_on (zero_width s) ap
    else if ch == b'#'
    then goes_on (record s { altflag = true }) ap
    else if ch == b'l'
    then goes_on (record s { lflag = s.lflag + 1 }) ap
    else ends

-- In the loop over digits any digit goes on.
abbrev pub step_flag : ℕ → Spec → List Arg → Flag
step_flag ch s ap =
    if s.reading && is_digit ch then goes_on (read_digit ch s) ap else flag ch (end_number s) ap

-- A directive: its flags, the character behind them, and what is left of the format and the arguments.
pub record Directive : Type 0 where
  pub spec : Spec
  pub conversion : ℕ
  pub rest : List ℕ
  pub args : List Arg

-- `reswitch`. At the format's end the character is NUL.
unfoldable pub reswitch : Spec → List ℕ → List Arg → Option Directive
reswitch s [] ap = some (record { spec = end_number s; conversion = 0; rest = []; args = ap })
reswitch s (ch ∷ fmt) ap = elim (step_flag ch s ap) [
  | goes_on s' ap' ↦ reswitch s' fmt ap'
  | ends ↦ some (record { spec = end_number s; conversion = ch; rest = fmt; args = ap })
  | no_argument ↦ none
]
