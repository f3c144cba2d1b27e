-- ===== src/Sched/Format/Buffer.antt =====
-- What `vsnprintf` of sched/lib/printfmt.c leaves in its buffer.
use sistemas_operativos.Prelude.{
  ℕ, zero, suc, ◌+◌, ◌-◌, ◌%◌, ◌≡◌, ◌≤◌, ◌<◌, refl, sym, false, ap, ◌∙◌, some, List, [], ◌∷◌, ◌++◌,
  ltb, arith, Bool-cases, inl, inr, length, length-append, take,
}
use sistemas_operativos.Sched.Format.Directive.{Arg}
use sistemas_operativos.Sched.Format.Print.{
  Printed, done, bad_args, out_of_fuel, and_then, vprintfmt, Sprintbuf, sprintputch, vsnprintf,
  finished,
}
use sistemas_operativos.Sched.Format.Fold.{map_printed, vprintfmt-map}

-- A `putch` that keeps all bytes.
abbrev pub collect : ℕ → List ℕ → List ℕ
collect ch out = out ++ (ch % 256 ∷ [])

take-append_short :
    (n c : ℕ) (out : List ℕ) → length out < n → take n (out ++ (c ∷ [])) ≡ out ++ (c ∷ [])
take-append_short zero c out h = elim h [ ]
take-append_short (suc zero) c [] h = refl
take-append_short (suc (suc n)) c [] h = refl
take-append_short (suc n) c (x ∷ out) h =
    ap (λ l. x ∷ l) (take-append_short n c out (omega (arith, h)))

take-append_long : (n c : ℕ) (out : List ℕ) → n ≤ length out → take n (out ++ (c ∷ [])) ≡ take n out
take-append_long zero c out h = refl
take-append_long (suc n) c [] h = elim h [ ]
take-append_long (suc n) c (x ∷ out) h =
    ap (λ l. x ∷ l) (take-append_long n c out (omega (arith, h)))

take_all : (n : ℕ) (out : List ℕ) → length out ≤ n → take n out ≡ out
take_all zero [] h = refl
take_all zero (x ∷ out) h = elim h [ ]
take_all (suc n) [] h = refl
take_all (suc n) (x ∷ out) h = ap (λ l. x ∷ l) (take_all n out (omega (arith, h)))

-- The buffer for which `n` bytes and the NUL are reserved, after the bytes `out`.
abbrev clipped : ℕ → List ℕ → Sprintbuf
clipped n out = record { written = take n out; room = n - length out; cnt = length out }

clipped-collect :
    (n c : ℕ) (out : List ℕ) → clipped n (collect c out) ≡ sprintputch c (clipped n out)
unfolding sprintputch
clipped-collect n c out = elim (Bool-cases (ltb 0 (n - length out))) [
  | inl fits ↦
      let short : length out < n = ground arith in
      rw
        (
          fits,
          take-append_short n (c % 256) out short,
          take_all n out (omega (arith, short)),
          len c,
        )
        (let r : n - (length out + 1) ≡ n - length out - 1 = omega arith in rw r refl)
  | inr full ↦
      let long : n ≤ length out = ground arith in
      rw (full, take-append_long n (c % 256) out long, len c)
        (let r : n - (length out + 1) ≡ n - length out = omega (arith, long) in rw r refl)
]
  where
    len : (ch : ℕ) → length (collect ch out) ≡ length out + 1
    len ch = length-append out (ch % 256 ∷ [])

with_nul :
    (n : ℕ) (r : Printed (List ℕ))
    → and_then (map_printed (clipped n) r) (λ (b : Sprintbuf). done (finished b))
      ≡ map_printed (λ (out : List ℕ). (take n out ++ (0 ∷ []), length out)) r
with_nul n (done out) = refl
with_nul n bad_args = refl
with_nul n out_of_fuel = refl

clipped-nil :
    (n : ℕ)
    → ◌≡◌ {A = Sprintbuf} (record { written = []; room = suc n - 1; cnt = 0 }) (clipped n [])
clipped-nil n =
    let none_yet : take n [] ≡ [] = take_all n [] (omega arith) in
    let all_room : suc n - 1 ≡ n - 0 = omega arith in rw (none_yet, all_room) refl

-- `vsnprintf` into a buffer of `suc n` bytes leaves the first `n` bytes of the whole text in it, with a NUL
-- behind them, and returns the length of the whole text.
pub vsnprintf_lem :
    (fuel n : ℕ) (fmt : List ℕ) (args : List Arg)
    → vsnprintf fuel (suc n) fmt args
      ≡ some (
          map_printed
            (λ (out : List ℕ). (take n out ++ (0 ∷ []), length out))
            (vprintfmt collect fuel fmt args []))
unfolding vsnprintf
vsnprintf_lem fuel n fmt args =
    let room : ltb (suc n) 1 ≡ false = ground arith in
    rw (vsnprintf, room)
      (ap (λ (r : Printed Sprintbuf). some (and_then r (λ (b : Sprintbuf). done (finished b))))
          carried
        ∙ ap some (with_nul n (vprintfmt collect fuel fmt args [])))
  where
    carried :
        vprintfmt sprintputch fuel fmt args (record { written = []; room = suc n - 1; cnt = 0 })
        ≡ map_printed (clipped n) (vprintfmt collect fuel fmt args [])
    carried =
        ap (λ (b : Sprintbuf). vprintfmt sprintputch fuel fmt args b) (clipped-nil n)
        ∙ sym (vprintfmt-map collect sprintputch (clipped n) (clipped-collect n) fuel fmt args [])
