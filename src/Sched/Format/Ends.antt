-- ===== src/Sched/Format/Ends.antt =====
-- `vprintfmt` of sched/lib/printfmt.c ends.
use sistemas_operativos.Prelude.{
  ℕ, zero, suc, ◌+◌, ◌-◌, ◌/◌, ◌%◌, ◌<◌, leb, ap, ◌≡◌, ◌≤◌, refl, Option, none, some, List, [], ◌∷◌,
  ◌++◌, ◌==◌, arith, Bool-cases, Option-cases, inl, inr, ◌⊎◌, length, some_injective, none≢some,
}
use native.Mathlib.Nat.{div-lt_self}
use sistemas_operativos.Sched.Format.Number.{printnum, digit_char}
use sistemas_operativos.Sched.Format.Errors.{error_string, text_error, text_percent_s}
use sistemas_operativos.Sched.Format.Directive.{
  Arg, word, dword, text, null, Spec, plain, Flag, goes_on, ends, no_argument, step_flag, Directive,
  reswitch, flag,
}
use sistemas_operativos.Sched.Format.Print.{
  Printed, done, bad_args, out_of_fuel, and_then, of_option, string, error, convert, convert_word,
  convert_error, escape, vprintfmt, base_of, getint, is_conversion, error_number,
}

abbrev pub Ends : {D : Type 0} → Printed D → Type 0
Ends (done d) = Unit
Ends bad_args = Unit
Ends out_of_fuel = ⊥

Flag-cases :
    (o : Flag)
    → ((s : Spec) × (args : List Arg) × (o ≡ goes_on s args)) ⊎ ((o ≡ ends) ⊎ (o ≡ no_argument))
Flag-cases (goes_on s args) = inl (s, args, refl)
Flag-cases ends = inr (inl refl)
Flag-cases no_argument = inr (inr refl)

reswitch-length :
    (s : Spec) (fmt : List ℕ) (args : List Arg) (e : Directive)
    → reswitch s fmt args ≡ some e
    → length e.rest ≤ length fmt
unfolding reswitch
reswitch-length s [] args e h = let same = some_injective _ e h in rw (← same) (omega arith)
reswitch-length s (ch ∷ fmt) args e h = elim (Flag-cases (step_flag ch s args)) [
  | inl (s', args', o) ↦ omega (arith, reswitch-length s' fmt args' e (rw (reswitch, o) at (h)))
  | inr (inl o) ↦
      let same = some_injective _ e (rw (reswitch, o) at (h)) in rw (← same) (omega arith)
  | inr (inr o) ↦ absurd (none≢some e (rw (reswitch, o) at (h)))
]

module _ {D : Type 0} (p : ℕ → D → D) where
  number-Ends :
      (k w : ℕ) (d : D)
      → Ends (
          vprintfmt p
            (suc (suc (suc (suc (suc (suc (suc (suc (suc k)))))))))
            text_error
            (word w ∷ [])
            d)
  unfolding vprintfmt escape convert convert_word reswitch flag getint base_of
  number-Ends k w d = tt

  text-Ends :
      (k : ℕ) (t : List ℕ) (d : D)
      → Ends (
          vprintfmt p
            (suc (suc (suc (suc (suc (suc (suc (suc (suc k)))))))))
            text_percent_s
            (text t ∷ [])
            d)
  unfolding vprintfmt escape convert convert_word reswitch flag getint base_of
  text-Ends k t d = elim (Option-cases (string p plain t d)) [
    | inl e ↦ rw (convert_word, e) tt
    | inr (d', e) ↦ rw (convert_word, e) tt
  ]

  of_option-Ends : {A : Type 0} (o : Option A) → Ends (of_option o)
  of_option-Ends none = tt
  of_option-Ends (some a) = tt

  module _ (n : ℕ) (again : List ℕ → List Arg → D → Printed D)
      (short : (rest : List ℕ) (args : List Arg) (d : D)
        → length rest ≤ n
        → Ends (again rest args d))
      (for_number : (w : ℕ) (d : D) → Ends (again text_error (word w ∷ []) d))
      (for_text : (t : List ℕ) (d : D) → Ends (again text_percent_s (text t ∷ []) d)) where
    error-Ends : (w : ℕ) (d : D) → Ends (error p again w d)
    unfolding error
    error-Ends w d = elim (Option-cases (error_string (error_number w))) [
      | inl e ↦ rw (error, e) (for_number (error_number w) d)
      | inr (t, e) ↦ rw (error, e) (for_text (t ++ (0 ∷ [])) d)
    ]

    convert_error-Ends : (args : List Arg) (d : D) → Ends (convert_error p again args d)
    unfolding convert_error
    convert_error-Ends [] d = tt
    convert_error-Ends (word w ∷ rest) d = then_done (error p again w d) (error-Ends w d)
      where
        then_done :
            (r : Printed D)
            → Ends r
            → Ends {D = D × List Arg} (and_then r (λ (e : D). done (e, rest)))
        then_done (done e) h = tt
        then_done bad_args h = tt
        then_done out_of_fuel h = h
    convert_error-Ends (dword w ∷ rest) d = tt
    convert_error-Ends (text t ∷ rest) d = tt
    convert_error-Ends (null ∷ rest) d = tt

    convert-Ends : (s : Spec) (c : ℕ) (args : List Arg) (d : D) → Ends (convert p again s c args d)
    unfolding convert
    convert-Ends s c args d = elim (Bool-cases (c == b'%')) [
      | inl e ↦ rw (convert, e) tt
      | inr n ↦ elim (Bool-cases (c == b'e')) [
        | inl e ↦ rw (convert, n, e) (convert_error-Ends args d)
        | inr n' ↦ elim (Bool-cases (c == b'd')) [
          | inl e ↦ rw (convert, n, n', e) (of_option-Ends _)
          | inr n'' ↦ elim (Option-cases (base_of c)) [
            | inl e ↦ rw (convert, n, n', n'', e) (of_option-Ends _)
            | inr (base, e) ↦ rw (convert, n, n', n'', e) (of_option-Ends _)
          ]
        ]
      ]
    ]

    then_again-Ends :
        (rest : List ℕ) (r : Printed (D × List Arg))
        → length rest ≤ n
        → Ends r
        → Ends (and_then r (λ ((d', ap') : D × List Arg). again rest ap' d'))
    then_again-Ends rest (done (d', ap')) le h = short rest ap' d' le
    then_again-Ends rest bad_args le h = tt
    then_again-Ends rest out_of_fuel le h = h

    escape-Ends :
        (fmt : List ℕ) (args : List Arg) (d : D) → length fmt ≤ n → Ends (escape p again fmt args d)
    unfolding escape
    escape-Ends fmt args d le = elim (Option-cases (reswitch plain fmt args)) [
      | inl e ↦ rw (escape, e) tt
      | inr (e', e) ↦ elim (Bool-cases (is_conversion e'.conversion)) [
        | inr n ↦ rw (escape, e, n) (short fmt e'.args (p b'%' d) le)
        | inl y ↦
            rw (escape, e, y)
              (then_again-Ends e'.rest (convert p again e'.spec e'.conversion e'.args d)
                (omega (arith, le, reswitch-length plain fmt args e' e))
                (convert-Ends e'.spec e'.conversion e'.args d))
      ]
    ]

printnum-rounds :
    {D : Type 0} (p : ℕ → D → D) (fuel more num base width padc : ℕ) (d : D)
    → 2 ≤ base
    → num < fuel
    → printnum p (fuel + more) num base width padc d ≡ printnum p fuel num base width padc d
unfolding printnum
printnum-rounds p zero more num base width padc d two h = absurd (omega (arith, h))
printnum-rounds {D = D} p (suc fuel) more num base width padc d two h =
    elim (Bool-cases (leb base num)) [
      | inl large ↦
          let fewer : num / base < num = div-lt_self (ground arith) two in
          rw (grow, printnum, large)
            (ap (λ (x : D). p (digit_char (num % base)) x)
              (printnum-rounds p fuel more (num / base) base (width - 1) padc d two
                (omega (arith, h, fewer))))
      | inr last ↦ rw (grow, printnum, last) refl
    ]
  where
    grow : suc fuel + more ≡ suc (fuel + more)
    grow = omega arith

rounds-Ends :
    {D : Type 0} (p : ℕ → D → D) (fuel : ℕ) (fmt : List ℕ) (args : List Arg) (d : D)
    → length fmt + 10 ≤ fuel
    → Ends (vprintfmt p fuel fmt args d)
unfolding vprintfmt
rounds-Ends p zero fmt args d le = absurd (omega (arith, le))
rounds-Ends p (suc fuel) [] args d le = tt
rounds-Ends p (suc fuel) (ch ∷ fmt) args d le = elim (Bool-cases (ch == b'%')) [
  | inl e ↦
      rw (vprintfmt, e)
        (escape-Ends p (length fmt) (vprintfmt p fuel)
          (λ rest args' d' le'. rounds-Ends p fuel rest args' d' (omega (arith, le, le')))
          (λ w d'. rw nine (number-Ends p (fuel - 9) w d'))
          (λ t d'. rw nine (text-Ends p (fuel - 9) t d')) fmt args d (omega arith))
  | inr n ↦ rw (vprintfmt, n) (rounds-Ends p fuel fmt args (p ch d) (omega (arith, le)))
]
  where
    nine : fuel ≡ suc (suc (suc (suc (suc (suc (suc (suc (suc (fuel - 9)))))))))
    nine = omega (arith, le)

-- `vprintfmt` ends on every format and every list of arguments: with ten rounds more than the format has
-- characters it never runs out of fuel. Nor does `printnum` in it, in a base of at least 2: the `num + 1` rounds that
-- it is given are enough, as more of them change nothing.
pub vprintfmt-Ends :
    {D : Type 0} (p : ℕ → D → D) (fuel : ℕ) (fmt : List ℕ) (args : List Arg) (d : D)
    (more num base width padc : ℕ)
    → length fmt + 10 ≤ fuel
    → 2 ≤ base
    → Ends (vprintfmt p fuel fmt args d)
      × (printnum p (suc num + more) num base width padc d
          ≡ printnum p (suc num) num base width padc d)
vprintfmt-Ends p fuel fmt args d more num base width padc le two = (
  rounds-Ends p fuel fmt args d le,
  printnum-rounds p (suc num) more num base width padc d two (omega arith),
)
