-- ===== src/Sched/Strings/Convert.antt =====
-- `strtol` of sched/lib/string.c. The string is its bytes; behind them stands the NUL, which ends every loop.
-- A `long` is its 32 bits, which is what the result is where the value overflows. The results are the value
-- and what `endptr` points to.
use sistemas_operativos.Prelude.{
  ℕ, ◌+◌, ◌-◌, ◌*◌, ◌%◌, ◌^◌, Bool, true, false, ◌&&◌, ◌||◌, Option, none, some, List, [], ◌∷◌, leb,
  ◌==◌, if◌then◌else◌,
}

-- "gobble initial whitespace"
unfoldable pub skip_blanks : List ℕ → List ℕ
skip_blanks [] = []
skip_blanks (c ∷ s) = elim (c == 32 || c == 9) [ true ↦ skip_blanks s | false ↦ c ∷ s ]

-- "plus/minus sign"
unfoldable pub sign : List ℕ → Bool × List ℕ
sign [] = (false, [])
sign (c ∷ s) = if c == b'+' then (false, s) else if c == b'-' then (true, s) else (false, c ∷ s)

-- "hex or octal base prefix"
unfoldable pub prefix : ℕ → List ℕ → ℕ × List ℕ
prefix base (c ∷ x ∷ s) =
    if (base == 0 || base == 16) && c == b'0' && x == b'x'
    then (16, s)
    else if base == 0 && c == b'0'
    then (8, x ∷ s)
    else if base == 0
    then (10, c ∷ x ∷ s)
    else (base, c ∷ x ∷ s)
prefix base (c ∷ []) =
    if base == 0 && c == b'0' then (8, []) else if base == 0 then (10, c ∷ []) else (base, c ∷ [])
prefix base [] = (if base == 0 then 10 else base, [])

unfoldable pub digit : ℕ → Option ℕ
digit c =
    if leb b'0' c && leb c b'9'
    then some (c - b'0')
    else if leb b'a' c && leb c b'z'
    then some (c - b'a' + 10)
    else if leb b'A' c && leb c b'Z'
    then some (c - b'A' + 10)
    else none

abbrev pub below : ℕ → Option ℕ → Option ℕ
below base none = none
below base (some dig) = if leb base dig then none else some dig

unfoldable pub digits : ℕ → ℕ → List ℕ → ℕ × List ℕ
digits base val [] = (val, [])
digits base val (c ∷ s) = elim (below base (digit c)) [
  | none ↦ (val, c ∷ s)
  | some dig ↦ digits base ((val * base + dig) % 2 ^ 32) s
]

abbrev pub negated : Bool → ℕ × List ℕ → ℕ × List ℕ
negated neg (val, s) = (if neg then (2 ^ 32 - val) % 2 ^ 32 else val, s)

-- The `long` is kept as its 32-bit pattern, and an overflow of it is taken as wrap-around.
unfoldable pub strtol : List ℕ → ℕ → ℕ × List ℕ
strtol s base =
    let (neg, s') = sign (skip_blanks s) in
    let (base', s'') = prefix base s' in negated neg (digits base' 0 s'')
