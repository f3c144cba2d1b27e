-- ===== src/Sched/Format/Fold.antt =====
-- `vprintfmt` calls `putch` on the same characters whatever `putch` does, in sched/lib/printfmt.c.
use sistemas_operativos.Prelude.{
  ℕ, zero, suc, ◌-◌, ◌/◌, ◌%◌, ◌^◌, ◌≡◌, refl, sym, ap, ◌∙◌, Bool, not, ◌&&◌, ◌||◌, Option, none,
  some, List, [], ◌∷◌, ◌++◌, ltb, leb, ◌==◌, Bool-cases, Option-cases, inl, inr,
}
use mathlib.Core.Option
use sistemas_operativos.Sched.Strings.{strnlen}
use sistemas_operativos.Sched.Format.Errors.{error_string, text_error, text_percent_s, text_null}
use sistemas_operativos.Sched.Format.Number.{
  pad, printnum, put_string, cut_off, one_less, shown, digit_char,
}
use sistemas_operativos.Sched.Format.Directive.{
  Arg, word, dword, text, null, Spec, plain, value_or_zero, reswitch,
}
use sistemas_operativos.Sched.Format.Print.{
  Printed, done, bad_args, out_of_fuel, and_then, of_option, number, string, pad_before, filled,
  error, convert_error, convert_word, decimal, convert, escape, vprintfmt, base_of, getint, getuint,
  is_conversion, size_of, error_number,
}

abbrev pub map_printed : {D E : Type 0} → (D → E) → Printed D → Printed E
map_printed f (done d) = done (f d)
map_printed f bad_args = bad_args
map_printed f out_of_fuel = out_of_fuel

module _ {D E : Type 0} (p : ℕ → D → D) (q : ℕ → E → E) (f : D → E)
    (same : (c : ℕ) (d : D) → f (p c d) ≡ q c (f d)) where
  abbrev both : {A : Type 0} → D × A → E × A
  both (d, a) = (f d, a)

  pad-map : (n c : ℕ) (d : D) → f (pad p n c d) ≡ pad q n c (f d)
  unfolding pad
  pad-map zero c d = refl
  pad-map (suc n) c d = pad-map n c (p c d) ∙ ap (pad q n c) (same c d)

  printnum-map :
      (fuel num base width padc : ℕ) (d : D)
      → f (printnum p fuel num base width padc d) ≡ printnum q fuel num base width padc (f d)
  unfolding printnum
  printnum-map zero num base width padc d = refl
  printnum-map (suc fuel) num base width padc d = elim (Bool-cases (leb base num)) [
    | inl more ↦ rw more (
        same (digit_char (num % base)) (printnum p fuel (num / base) base (width - 1) padc d)
        ∙ ap (q (digit_char (num % base))) (printnum-map fuel (num / base) base (width - 1) padc d))
    | inr last ↦ rw last (
        same (digit_char (num % base)) (pad p (width - 1) padc d)
        ∙ ap (q (digit_char (num % base))) (pad-map (width - 1) padc d))
  ]

  put_string-map :
      (altflag : Bool) (s : List ℕ) (precision : Option ℕ) (width : ℕ) (d : D)
      → Option.map both (put_string p altflag s precision width d)
        ≡ put_string q altflag s precision width (f d)
  unfolding put_string
  put_string-map altflag [] precision width d = refl
  put_string-map altflag (ch ∷ s) precision width d =
      elim (Bool-cases (ch == 0 || cut_off precision)) [
        | inl stop ↦ rw (put_string, stop) refl
        | inr more ↦
            rw (put_string, more)
              (put_string-map altflag s (one_less precision) (width - 1) (p (shown altflag ch) d)
                ∙ ap (put_string q altflag s (one_less precision) (width - 1))
                    (same (shown altflag ch) d))
      ]

  number-map :
      (s : Spec) (base num : ℕ) (d : D) → f (number p s base num d) ≡ number q s base num (f d)
  unfolding number
  number-map s base num d = printnum-map (suc num) num base (value_or_zero s.width) s.padc d

  decimal-map : (s : Spec) (num : ℕ) (d : D) → f (decimal p s num d) ≡ decimal q s num (f d)
  unfolding decimal
  decimal-map s num d = elim (Bool-cases (ltb num (2 ^ 63))) [
    | inl pos ↦ rw pos (number-map s 10 num d)
    | inr neg ↦ rw neg (
        number-map s 10 (2 ^ 64 - num) (p b'-' d) ∙ ap (number q s 10 (2 ^ 64 - num)) (same b'-' d))
  ]

  pad_before-map :
      (s : Spec) (t : List ℕ) (d : D)
      → Option.map both (pad_before p s t d) ≡ pad_before q s t (f d)
  unfolding pad_before
  pad_before-map s t d = elim (Bool-cases (ltb 0 (value_or_zero s.width) && not (s.padc == b'-'))) [
    | inl pads ↦ elim (Option-cases (strnlen t (size_of s.precision))) [
      | inl e ↦ rw (pad_before, pads, e) refl
      | inr (len, e) ↦
          rw (pad_before, pads, e)
            (ap (λ (x : E). some (x, 0)) (pad-map (value_or_zero s.width - len) s.padc d))
    ]
    | inr not_now ↦ rw (pad_before, not_now) refl
  ]

  filled-map :
      (r : Option (D × ℕ))
      → Option.map f (Option.map (filled p) r) ≡ Option.map (filled q) (Option.map both r)
  filled-map none = refl
  filled-map (some (d, w)) = ap some (pad-map w 32 d)

  string-map : (s : Spec) (t : List ℕ) (d : D) → Option.map f (string p s t d) ≡ string q s t (f d)
  unfolding string
  string-map s t d = elim (Option-cases (pad_before p s t d)) [
    | inl e ↦
        let e' : pad_before q s t (f d) ≡ none =
          sym (pad_before-map s t d) ∙ ap (Option.map both) e in
        rw (string, e, e') refl
    | inr ((d', w), e) ↦
        let e' : pad_before q s t (f d) ≡ some (f d', w) =
          sym (pad_before-map s t d) ∙ ap (Option.map both) e in
        rw (string, e, e')
          (filled-map (put_string p s.altflag t s.precision w d')
            ∙ ap (Option.map (filled q)) (put_string-map s.altflag t s.precision w d'))
  ]

  hex-map :
      (s : Spec) (w : ℕ) (d : D)
      → f (number p s 16 w (p b'x' (p b'0' d))) ≡ number q s 16 w (q b'x' (q b'0' (f d)))
  hex-map s w d =
      number-map s 16 w (p b'x' (p b'0' d))
      ∙ ap (number q s 16 w) (same b'x' (p b'0' d) ∙ ap (q b'x') (same b'0' d))

  tagged-map :
      (ap' : List Arg) (o : Option D)
      → Option.map both (Option.map (λ (e : D). (e, ap')) o)
        ≡ Option.map (λ (e : E). (e, ap')) (Option.map f o)
  tagged-map ap' none = refl
  tagged-map ap' (some d) = refl

  convert_word-map :
      (s : Spec) (c : ℕ) (ap' : List Arg) (d : D)
      → Option.map both (convert_word p s c ap' d) ≡ convert_word q s c ap' (f d)
  unfolding convert_word
  convert_word-map s c [] d = refl
  convert_word-map s c (word w ∷ rest) d = elim (Bool-cases (c == b'c')) [
    | inl e ↦ rw (convert_word, e) (ap (λ (x : E). some (x, rest)) (same w d))
    | inr n ↦ elim (Bool-cases (c == b'p')) [
      | inl e ↦ rw (convert_word, n, e) (ap (λ (x : E). some (x, rest)) (hex-map s w d))
      | inr n' ↦ rw (convert_word, n, n') refl
    ]
  ]
  convert_word-map s c (dword w ∷ rest) d = refl
  convert_word-map s c (text t ∷ rest) d = elim (Bool-cases (c == b's')) [
    | inl e ↦
        rw (convert_word, e)
          (tagged-map rest (string p s t d)
            ∙ ap (Option.map (λ (x : E). (x, rest))) (string-map s t d))
    | inr n ↦ rw (convert_word, n) refl
  ]
  convert_word-map s c (null ∷ rest) d = elim (Bool-cases (c == b's')) [
    | inl e ↦
        rw (convert_word, e)
          (tagged-map rest (string p s text_null d)
            ∙ ap (Option.map (λ (x : E). (x, rest))) (string-map s text_null d))
    | inr n ↦ elim (Bool-cases (c == b'p')) [
      | inl e ↦ rw (convert_word, n, e) (ap (λ (x : E). some (x, rest)) (hex-map s 0 d))
      | inr n' ↦ rw (convert_word, n, n') refl
    ]
  ]

  module _ (again : List ℕ → List Arg → D → Printed D) (again' : List ℕ → List Arg → E → Printed E)
      (again_same : (fmt : List ℕ) (args : List Arg) (d : D)
        → map_printed f (again fmt args d) ≡ again' fmt args (f d)) where
    error-map : (w : ℕ) (d : D) → map_printed f (error p again w d) ≡ error q again' w (f d)
    unfolding error
    error-map w d = elim (Option-cases (error_string (error_number w))) [
      | inl e ↦ rw (error, e) (again_same text_error (word (error_number w) ∷ []) d)
      | inr (t, e) ↦ rw (error, e) (again_same text_percent_s (text (t ++ 0 ∷ []) ∷ []) d)
    ]

    number_arg-map :
        (o : Option (ℕ × List Arg)) (g : ℕ → D → D) (h : ℕ → E → E) (d : D)
        → ((n : ℕ) → f (g n d) ≡ h n (f d))
        → map_printed both
            (of_option (Option.map (λ ((num, rest) : ℕ × List Arg). (g num d, rest)) o))
          ≡ of_option (Option.map (λ ((num, rest) : ℕ × List Arg). (h num (f d), rest)) o)
    number_arg-map none g h d e = refl
    number_arg-map (some (num, rest)) g h d e = ap (λ (x : E). done (x, rest)) (e num)

    convert_error-map :
        (args : List Arg) (d : D)
        → map_printed both (convert_error p again args d) ≡ convert_error q again' args (f d)
    unfolding convert_error
    convert_error-map [] d = refl
    convert_error-map (word w ∷ rest) d =
        with_rest (error p again w d)
        ∙ ap (λ (r : Printed E). and_then r (λ (e : E). done (e, rest))) (error-map w d)
      where
        with_rest :
            (r : Printed D)
            → map_printed both (and_then r (λ (e : D). done (e, rest)))
              ≡ and_then (map_printed f r) (λ (e : E). done (e, rest))
        with_rest (done e) = refl
        with_rest bad_args = refl
        with_rest out_of_fuel = refl
    convert_error-map (dword w ∷ rest) d = refl
    convert_error-map (text t ∷ rest) d = refl
    convert_error-map (null ∷ rest) d = refl

    of_option-map :
        (o : Option (D × List Arg)) → map_printed both (of_option o) ≡ of_option (Option.map both o)
    of_option-map none = refl
    of_option-map (some e) = refl

    convert-map :
        (s : Spec) (c : ℕ) (args : List Arg) (d : D)
        → map_printed both (convert p again s c args d) ≡ convert q again' s c args (f d)
    unfolding convert
    convert-map s c args d = elim (Bool-cases (c == b'%')) [
      | inl e ↦ rw (convert, e) (ap (λ (x : E). done (x, args)) (same c d))
      | inr n ↦ elim (Bool-cases (c == b'e')) [
        | inl e ↦ rw (convert, n, e) (convert_error-map args d)
        | inr n' ↦ elim (Bool-cases (c == b'd')) [
          | inl e ↦
              rw (convert, n, n', e)
                (number_arg-map (getint s.lflag args) (decimal p s) (decimal q s) d
                  (λ m. decimal-map s m d))
          | inr n'' ↦ elim (Option-cases (base_of c)) [
            | inl e ↦
                rw (convert, n, n', n'', e)
                  (of_option-map (convert_word p s c args d)
                    ∙ ap of_option (convert_word-map s c args d))
            | inr (base, e) ↦
                rw (convert, n, n', n'', e)
                  (number_arg-map (getuint s.lflag args) (number p s base) (number q s base) d
                    (λ m. number-map s base m d))
          ]
        ]
      ]
    ]

    then_again-map :
        (rest : List ℕ) (r : Printed (D × List Arg))
        → map_printed f (and_then r (λ ((d', ap') : D × List Arg). again rest ap' d'))
          ≡ and_then (map_printed both r) (λ ((d', ap') : E × List Arg). again' rest ap' d')
    then_again-map rest (done (d', ap')) = again_same rest ap' d'
    then_again-map rest bad_args = refl
    then_again-map rest out_of_fuel = refl

    escape-map :
        (fmt : List ℕ) (args : List Arg) (d : D)
        → map_printed f (escape p again fmt args d) ≡ escape q again' fmt args (f d)
    unfolding escape
    escape-map fmt args d = elim (Option-cases (reswitch plain fmt args)) [
      | inl e ↦ rw (escape, e) refl
      | inr (e', e) ↦ elim (Bool-cases (is_conversion e'.conversion)) [
        | inr n ↦
            rw (escape, e, n)
              (again_same fmt e'.args (p b'%' d) ∙ ap (again' fmt e'.args) (same b'%' d))
        | inl y ↦
            rw (escape, e, y)
              (then_again-map e'.rest (convert p again e'.spec e'.conversion e'.args d)
                ∙ ap
                    (λ (r : Printed (E × List Arg)).
                      and_then r (λ ((d', ap') : E × List Arg). again' e'.rest ap' d'))
                    (convert-map e'.spec e'.conversion e'.args d))
      ]
    ]

-- `vprintfmt` puts the same characters whatever `putch` does with them: where `f` carries one way to put a
-- character, `p`, to another, `q`, it carries the state after formatting, and formatting ends in the same way.
pub vprintfmt-map :
    {D E : Type 0} (p : ℕ → D → D) (q : ℕ → E → E) (f : D → E)
    → ((c : ℕ) (d : D) → f (p c d) ≡ q c (f d))
    → (fuel : ℕ) (fmt : List ℕ) (args : List Arg) (d : D)
    → map_printed f (vprintfmt p fuel fmt args d) ≡ vprintfmt q fuel fmt args (f d)
unfolding vprintfmt
vprintfmt-map p q f same zero fmt args d = refl
vprintfmt-map p q f same (suc fuel) [] args d = refl
vprintfmt-map p q f same (suc fuel) (ch ∷ fmt) args d = elim (Bool-cases (ch == b'%')) [
  | inl e ↦
      rw (vprintfmt, e)
        (escape-map p q f same (vprintfmt p fuel) (vprintfmt q fuel) (vprintfmt-map p q f same fuel)
          fmt args d)
  | inr n ↦
      rw (vprintfmt, n)
        (vprintfmt-map p q f same fuel fmt args (p ch d)
          ∙ ap (vprintfmt q fuel fmt args) (same ch d))
]
