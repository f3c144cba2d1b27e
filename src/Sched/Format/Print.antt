-- ===== src/Sched/Format/Print.antt =====
-- `vprintfmt`, `sprintputch` and `vsnprintf` of sched/lib/printfmt.c.
use sistemas_operativos.Prelude.{
  ℕ, zero, suc, ◌+◌, ◌-◌, ◌%◌, ◌^◌, Bool, true, false, not, ◌&&◌, ◌||◌, Option, none, some, List,
  [], ◌∷◌, ◌++◌, ltb, leb, ◌==◌, if◌then◌else◌,
}
use mathlib.Core.Option
use sistemas_operativos.Sched.Strings.{strnlen}
use sistemas_operativos.Sched.Format.Errors.{error_string, text_error, text_percent_s, text_null}
use sistemas_operativos.Sched.Format.Number.{pad, printnum, put_string}
use sistemas_operativos.Sched.Format.Directive.{
  Arg, word, dword, text, null, Spec, plain, value_or_zero, reswitch,
}

-- The result of formatting. The program has no fuel: `out_of_fuel` is shown never to come with enough of
-- it. `bad_args` is a directive whose arguments are missing or of another kind.
pub data Printed (D : Type 0) : Type 0 where
  done : D → Printed D
  bad_args : Printed D
  out_of_fuel : Printed D

abbrev pub and_then : {D E : Type 0} → Printed D → (D → Printed E) → Printed E
and_then (done d) f = f d
and_then bad_args f = bad_args
and_then out_of_fuel f = out_of_fuel

abbrev pub of_option : {D : Type 0} → Option D → Printed D
of_option none = bad_args
of_option (some d) = done d

unfoldable pub getuint : ℕ → List Arg → Option (ℕ × List Arg)
getuint lflag (word w ∷ ap) = if leb 2 lflag then none else some (w, ap)
getuint lflag (dword w ∷ ap) = if leb 2 lflag then some (w, ap) else none
getuint lflag ap = none

-- An `int` or a `long` has its sign extended to 64 bits.
abbrev pub sign_extended : ℕ → ℕ
sign_extended w = if ltb w (2 ^ 31) then w else w + (2 ^ 64 - 2 ^ 32)

unfoldable pub getint : ℕ → List Arg → Option (ℕ × List Arg)
getint lflag (word w ∷ ap) = if leb 2 lflag then none else some (sign_extended w, ap)
getint lflag (dword w ∷ ap) = if leb 2 lflag then some (w, ap) else none
getint lflag ap = none

-- `err = -err` where it is negative.
abbrev pub error_number : ℕ → ℕ
error_number w = if ltb w (2 ^ 31) then w else 2 ^ 32 - w

-- The conversions that `switch` knows.
abbrev pub is_conversion : ℕ → Bool
is_conversion c =
    c == b'c'
    || c == b'e'
    || c == b's'
    || c == b'd'
    || c == b'u'
    || c == b'o'
    || c == b'p'
    || c == b'x'
    || c == b'%'

-- The base of an unsigned conversion, `none` for another character.
unfoldable pub base_of : ℕ → Option ℕ
base_of c =
    if c == b'u' then some 10 else if c == b'o' then some 8 else if c == b'x' then some 16 else none

-- `strnlen` with a negative precision is `strnlen` with a size that no string reaches.
abbrev pub size_of : Option ℕ → ℕ
size_of none = 2 ^ 32 - 1
size_of (some n) = n

module _ {D : Type 0} (putch : ℕ → D → D) where
  unfoldable pub number : Spec → ℕ → ℕ → D → D
  number s base num d = printnum putch (suc num) num base (value_or_zero s.width) s.padc d

  -- The padding before a string, and the width that is left.
  unfoldable pub pad_before : Spec → List ℕ → D → Option (D × ℕ)
  pad_before s p d =
      let width = value_or_zero s.width in
      elim (ltb 0 width && not (s.padc == b'-')) [
        | true ↦
            Option.map (λ (len : ℕ). (pad putch (width - len) s.padc d, 0))
              (strnlen p (size_of s.precision))
        | false ↦ some (d, width)
      ]

  -- The padding behind a string.
  abbrev pub filled : D × ℕ → D
  filled (d, width) = pad putch width 32 d

  unfoldable pub string : Spec → List ℕ → D → Option D
  string s p d = elim (pad_before s p d) [
    | none ↦ none
    | some (d', width) ↦ Option.map filled (put_string putch s.altflag p s.precision width d')
  ]

  -- "error %d" or the message, by the call of `printfmt` that is passed in.
  unfoldable pub error : (List ℕ → List Arg → D → Printed D) → ℕ → D → Printed D
  error printfmt w d = elim (error_string (error_number w)) [
    | none ↦ printfmt text_error (word (error_number w) ∷ []) d
    | some p ↦ printfmt text_percent_s (text (p ++ 0 ∷ []) ∷ []) d
  ]

  unfoldable pub convert_error :
      (List ℕ → List Arg → D → Printed D) → List Arg → D → Printed (D × List Arg)
  convert_error printfmt (word w ∷ ap) d = and_then (error printfmt w d) (λ (e : D). done (e, ap))
  convert_error printfmt ap d = bad_args

  -- The conversions of one word, but for the numbers of several sizes.
  unfoldable pub convert_word : Spec → ℕ → List Arg → D → Option (D × List Arg)
  convert_word s c (word w ∷ ap) d =
      if c == b'c'
      then some (putch w d, ap)
      else if c == b'p'
      then some (number s 16 w (putch b'x' (putch b'0' d)), ap)
      else none
  convert_word s c (text p ∷ ap) d =
      if c == b's' then Option.map (λ (e : D). (e, ap)) (string s p d) else none
  convert_word s c (null ∷ ap) d =
      if c == b's'
      then Option.map (λ (e : D). (e, ap)) (string s text_null d)
      else if c == b'p'
      then some (number s 16 0 (putch b'x' (putch b'0' d)), ap)
      else none
  convert_word s c ap d = none

  unfoldable pub decimal : Spec → ℕ → D → D
  decimal s num d =
      if ltb num (2 ^ 63) then number s 10 num d else number s 10 (2 ^ 64 - num) (putch b'-' d)

  unfoldable pub convert :
      (List ℕ → List Arg → D → Printed D) → Spec → ℕ → List Arg → D → Printed (D × List Arg)
  convert printfmt s c ap d =
      if c == b'%'
      then done (putch c d, ap)
      else if c == b'e'
      then convert_error printfmt ap d
      else if c == b'd'
      then of_option
          (Option.map (λ ((num, rest) : ℕ × List Arg). (decimal s num d, rest)) (getint s.lflag ap))
      else (elim (base_of c) [
        | some base ↦ of_option (
            Option.map (λ ((num, rest) : ℕ × List Arg). (number s base num d, rest))
              (getuint s.lflag ap))
        | none ↦ of_option (convert_word s c ap d)
      ])

  -- "process a %-escape sequence": `again` is the loop that goes on with the rest of the format. After an
  -- escape that is not known the format goes on behind its '%'.
  unfoldable pub escape : (List ℕ → List Arg → D → Printed D) → List ℕ → List Arg → D → Printed D
  escape again fmt ap d = elim (reswitch plain fmt ap) [
    | none ↦ bad_args
    | some e ↦ elim (is_conversion e.conversion) [
      | false ↦ again fmt e.args (putch b'%' d)
      | true ↦
          and_then (convert again e.spec e.conversion e.args d)
            (λ ((d', ap') : D × List Arg). again e.rest ap' d')
    ]
  ]

  unfoldable pub vprintfmt : ℕ → List ℕ → List Arg → D → Printed D
  vprintfmt zero fmt ap d = out_of_fuel
  vprintfmt (suc fuel) [] ap d = done d
  vprintfmt (suc fuel) (ch ∷ fmt) ap d = elim (ch == b'%') [
    | true ↦ escape (vprintfmt fuel) fmt ap d
    | false ↦ vprintfmt fuel fmt ap (putch ch d)
  ]

-- The bytes written so far, in order, and the room left before `ebuf`.
pub record Sprintbuf : Type 0 where
  pub written : List ℕ
  pub room : ℕ
  pub cnt : ℕ

unfoldable pub sprintputch : ℕ → Sprintbuf → Sprintbuf
sprintputch ch b =
    if ltb 0 b.room
    then record { written = b.written ++ ch % 256 ∷ []; room = b.room - 1; cnt = b.cnt + 1 }
    else record b { cnt = b.cnt + 1 }

-- What is in the buffer, and the result.
abbrev pub finished : Sprintbuf → List ℕ × ℕ
finished b = (b.written ++ 0 ∷ [], b.cnt)

-- `none` is -E_INVAL. There is a buffer.
unfoldable pub vsnprintf : ℕ → ℕ → List ℕ → List Arg → Option (Printed (List ℕ × ℕ))
vsnprintf fuel n fmt ap =
    if ltb n 1
    then none
    else some (
        and_then
          (vprintfmt sprintputch fuel fmt ap (record { written = []; room = n - 1; cnt = 0 }))
          (λ (b : Sprintbuf). done (finished b)))
