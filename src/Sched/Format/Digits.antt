-- ===== src/Sched/Format/Digits.antt =====
-- `strtol` of sched/lib/string.c reads back what `printnum` of sched/lib/printfmt.c prints.
use sistemas_operativos.Prelude.{
  ℕ, zero, suc, ◌+◌, ◌-◌, ◌*◌, ◌/◌, ◌%◌, ◌^◌, ◌≡◌, ◌≤◌, ◌<◌, ◌≢◌, refl, sym, ap, ◌∙◌, List, [], ◌∷◌,
  ◌++◌, some, true, false, arith, length, replicate, length-append, Bool-cases, inl, inr, leb,
  append_assoc, append-nil,
}
use native.Mathlib.Nat.{mod-lt, mod-eq_of_lt, div-add-mod', div-lt_self}
use sistemas_operativos.Sched.Strings.Convert.{
  strtol, digits, digit, below, skip_blanks, sign, prefix,
}
use sistemas_operativos.Sched.Format.Number.{printnum, pad, digit_char, digits_text}

-- A `putch` that keeps the characters.
abbrev pub keep : ℕ → List ℕ → List ℕ
keep ch out = out ++ (ch ∷ [])

digit-digit_char : (d : ℕ) → d < 16 → digit (digit_char d) ≡ some d
unfolding digit digits_text
digit-digit_char d h = ground arith

-- The digits of a number, with fuel for each.
abbrev pub numeral : ℕ → ℕ → ℕ → List ℕ
numeral zero num base = []
numeral (suc fuel) num base =
    (elim (leb base num) [ true ↦ numeral fuel (num / base) base | false ↦ [] ])
    ++ (digit_char (num % base) ∷ [])

-- Characters that no sign and no prefix looks at.
abbrev pub Numeric : List ℕ → Type 0
Numeric [] = Unit
Numeric (c ∷ s) = (48 ≤ c) × ((c ≢ b'x') × Numeric s)

digit_char-Numeric : (d : ℕ) → d < 16 → (48 ≤ digit_char d) × (digit_char d ≢ b'x')
unfolding digits_text
digit_char-Numeric d h = (ground arith, ground arith)

append-Numeric : (s t : List ℕ) → Numeric s → Numeric t → Numeric (s ++ t)
append-Numeric [] t hs ht = ht
append-Numeric (c ∷ s) t (a, (b, hs)) ht = (a, (b, append-Numeric s t hs ht))

pad-keep : (n c : ℕ) (out : List ℕ) → pad keep n c out ≡ out ++ replicate n c
unfolding pad
pad-keep zero c out = sym (append-nil out)
pad-keep (suc n) c out = pad-keep n c (keep c out) ∙ append_assoc out (c ∷ []) (replicate n c)

module _ (base : ℕ) (two : 2 ≤ base) (sixteen : base ≤ 16) where
  numeral-Numeric : (fuel num : ℕ) → Numeric (numeral fuel num base)
  numeral-Numeric zero num = tt
  numeral-Numeric (suc fuel) num =
      let below_base : num % base < base = mod-lt num (omega (arith, two)) in
      let (a, b) = digit_char-Numeric (num % base) (omega (arith, below_base, sixteen)) in
      elim (Bool-cases (leb base num)) [
        | inl more ↦ rw more (
            append-Numeric (numeral fuel (num / base) base) _ (numeral-Numeric fuel (num / base))
              (a, (b, tt)))
        | inr last ↦ rw last (a, (b, tt))
      ]

  fewer : (num : ℕ) → leb base num ≡ true → num / base < num
  fewer num more = div-lt_self (ground arith) two

  digits-cons :
      (val d : ℕ) (rest : List ℕ)
      → d < base
      → digits base val (digit_char d ∷ rest) ≡ digits base ((val * base + d) % 2 ^ 32) rest
  unfolding digits
  digits-cons val d rest h =
      let known : below base (digit (digit_char d)) ≡ some d =
        rw (digit-digit_char d (omega (arith, h, sixteen))) (ground arith) in
      rw (digits, known) refl

  printnum-keep :
      (fuel num width padc : ℕ) (out : List ℕ)
      → num < fuel
      → printnum keep fuel num base width padc out
        ≡ out ++ (replicate (width - length (numeral fuel num base)) padc ++ numeral fuel num base)
  unfolding printnum
  printnum-keep zero num width padc out h = elim h [ ]
  printnum-keep (suc fuel) num width padc out h = elim (Bool-cases (leb base num)) [
    | inl more ↦
        let d = digit_char (num % base) in
        let front = numeral fuel (num / base) base in
        let ih =
          printnum-keep fuel (num / base) (width - 1) padc out (omega (arith, h, fewer num more)) in
        let count : width - length (front ++ (d ∷ [])) ≡ width - 1 - length front =
          omega (arith, length-append front (d ∷ [])) in
        rw (printnum, more, ih, count)
          (append_assoc out (replicate (width - 1 - length front) padc ++ front) (d ∷ [])
            ∙ ap (λ (l : List ℕ). out ++ l)
                (append_assoc (replicate (width - 1 - length front) padc) front (d ∷ [])))
    | inr last ↦
        rw (printnum, last, pad-keep (width - 1) padc out)
          (append_assoc out (replicate (width - 1) padc) (digit_char (num % base) ∷ []))
  ]

  digits-numeral :
      (fuel num : ℕ) (rest : List ℕ)
      → num < fuel
      → num < 2 ^ 32
      → digits base 0 (numeral fuel num base ++ rest) ≡ digits base num rest
  digits-numeral zero num rest h small = elim h [ ]
  digits-numeral (suc fuel) num rest h small = elim (Bool-cases (leb base num)) [
    | inl more ↦
        let d = digit_char (num % base) in
        let front = numeral fuel (num / base) base in
        let less = fewer num more in
        rw (more, append_assoc front (d ∷ []) rest)
          (digits-numeral fuel (num / base) (d ∷ rest) (omega (arith, h, less))
              (omega (arith, small, less))
            ∙ digits-cons (num / base) (num % base) rest (mod-lt num (omega (arith, two)))
            ∙ ap (λ v. digits base v rest) (rw (div-add-mod' num base) (mod-eq_of_lt small)))
    | inr last ↦
        let value : (0 * base + num) % 2 ^ 32 ≡ num % 2 ^ 32 =
          ap (λ (t : ℕ). t % 2 ^ 32) (omega arith) in
        let same : num % base ≡ num = mod-eq_of_lt (ground arith) in
        rw (last, same)
          (digits-cons 0 num rest (ground arith)
            ∙ ap (λ v. digits base v rest) (value ∙ mod-eq_of_lt small))
  ]

  prefix-Numeric : (s : List ℕ) → Numeric s → prefix base s ≡ (base, s)
  unfolding prefix
  prefix-Numeric [] h = ground arith
  prefix-Numeric (c ∷ []) h = ground arith
  prefix-Numeric (c ∷ (x ∷ s)) (a, (b, (e, (g, h)))) = ground arith

skip_blanks-replicate : (n : ℕ) (s : List ℕ) → skip_blanks (replicate n 32 ++ s) ≡ skip_blanks s
unfolding skip_blanks
skip_blanks-replicate zero s = refl
skip_blanks-replicate (suc n) s = skip_blanks-replicate n s

skip_blanks-Numeric : (s : List ℕ) → Numeric s → skip_blanks s ≡ s
unfolding skip_blanks
skip_blanks-Numeric [] h = refl
skip_blanks-Numeric (c ∷ s) (a, h) = ground arith

sign-Numeric : (s : List ℕ) → Numeric s → sign s ≡ (false, s)
unfolding sign
sign-Numeric [] h = refl
sign-Numeric (c ∷ s) (a, h) = ground arith

strtol-Numeric :
    (base n v : ℕ) (s : List ℕ)
    → 2 ≤ base
    → base ≤ 16
    → Numeric s
    → digits base 0 s ≡ (v, [])
    → strtol (replicate n 32 ++ s) base ≡ (v, [])
unfolding strtol
strtol-Numeric base n v s two sixteen h e =
    rw
      (
        skip_blanks-replicate n s,
        skip_blanks-Numeric s h,
        sign-Numeric s h,
        prefix-Numeric base two sixteen s h,
        e,
      )
      refl

-- `strtol` reads back any number below 2 ^ 31, which a `long` holds, that `printnum` printed in a base from 2 to
-- 16, in any width, padded with blanks: it gives the number and stops at the end of the text.
pub strtol-printnum :
    (base num width : ℕ)
    → 2 ≤ base
    → base ≤ 16
    → num < 2 ^ 31
    → strtol (printnum keep (suc num) num base width 32 []) base ≡ (num, [])
unfolding digits
strtol-printnum base num width two sixteen small =
    let text = numeral (suc num) num base in
    let read =
      digits-numeral base two sixteen (suc num) num [] (omega arith) (omega (arith, small)) in
    rw (printnum-keep base two sixteen (suc num) num width 32 [] (omega arith)) (
      strtol-Numeric base (width - length text) num text two sixteen
        (numeral-Numeric base two sixteen (suc num) num)
        (ap (digits base 0) (sym (append-nil text)) ∙ read))
