-- ===== src/Sched/Console/Display.antt =====
-- `cga_putc` of sched/kern/console.c, on the words of the display and the cursor.
use sistemas_operativos.Prelude.{
  ℕ, ◌+◌, ◌-◌, ◌*◌, ◌/◌, ◌%◌, ◌^◌, ◌<◌, ◌≤◌, ◌≡◌, ◌==◌, ltb, leb, if◌then◌else◌, update, arith,
  Bool-cases, inl, inr,
}

abbrev pub crt_cols : ℕ
crt_cols = 80

abbrev pub crt_size : ℕ
crt_size = 2000

pub record Cga : Type 0 where
  pub crt_buf : ℕ → ℕ
  pub crt_pos : ℕ

-- "if no attribute given, then use black on white"
abbrev pub with_attribute : ℕ → ℕ
with_attribute c = if ltb c 256 then c + 0x0700 else c

-- The lines move up by one.
abbrev pub scrolled : (ℕ → ℕ) → ℕ → ℕ
scrolled buf i =
    if ltb i (crt_size - crt_cols)
    then buf (i + crt_cols)
    else if ltb i crt_size
    then 0x0720
    else buf i

abbrev pub scroll : Cga → Cga
scroll s =
    if leb crt_size s.crt_pos
    then record { crt_buf = scrolled s.crt_buf; crt_pos = s.crt_pos - crt_cols }
    else s

abbrev pub line_start : ℕ → ℕ
line_start pos = pos - pos % crt_cols

-- The `switch`, but for the tab.
abbrev pub place : ℕ → Cga → Cga
place c s =
    if c % 256 == 8
    then (if ltb 0 s.crt_pos
        then record {
          crt_buf = update s.crt_buf (s.crt_pos - 1) (c / 256 * 256 % 2 ^ 16 + 32);
          crt_pos = s.crt_pos - 1;
        }
        else s)
    else if c % 256 == 10
    then record s { crt_pos = line_start ((s.crt_pos + crt_cols) % 2 ^ 16) }
    else if c % 256 == 13
    then record s { crt_pos = line_start s.crt_pos }
    else record {
      crt_buf = update s.crt_buf s.crt_pos (c % 2 ^ 16);
      crt_pos = (s.crt_pos + 1) % 2 ^ 16;
    }

unfoldable pub put_plain : ℕ → Cga → Cga
put_plain c s = scroll (place (with_attribute c) s)

-- `cons_putc(' ')` five times.
unfoldable pub put_tab : Cga → Cga
put_tab s = scroll (put_plain 32 (put_plain 32 (put_plain 32 (put_plain 32 (put_plain 32 s)))))

unfoldable pub cga_putc : ℕ → Cga → Cga
cga_putc c s = if c % 256 == 9 then put_tab s else put_plain c s

-- The cursor is on the display.
abbrev pub OnScreen : Cga → Type 0
OnScreen s = s.crt_pos < crt_size

-- Behind the display nothing is written.
abbrev pub Inside : Cga → Cga → Type 0
Inside s s' = (i : ℕ) → crt_size ≤ i → s'.crt_buf i ≡ s.crt_buf i

put_plain-OnScreen :
    (c : ℕ) (s : Cga) → OnScreen s → OnScreen (put_plain c s) × Inside s (put_plain c s)
unfolding put_plain
put_plain-OnScreen c s h = (ground arith, λ i le. ground arith)

put_tab-OnScreen : (s : Cga) → OnScreen s → OnScreen (put_tab s) × Inside s (put_tab s)
unfolding put_tab
put_tab-OnScreen s h =
    let a = put_plain-OnScreen 32 s h in
    let b = put_plain-OnScreen 32 (put_plain 32 s) (a.0) in
    let c = put_plain-OnScreen 32 (put_plain 32 (put_plain 32 s)) (b.0) in
    let d = put_plain-OnScreen 32 (put_plain 32 (put_plain 32 (put_plain 32 s))) (c.0) in
    let e =
      put_plain-OnScreen 32 (put_plain 32 (put_plain 32 (put_plain 32 (put_plain 32 s)))) (d.0) in
    (
      ground (arith, e.0),
      λ i le. ground (arith, e.0, a.1 i le, b.1 i le, c.1 i le, d.1 i le, e.1 i le),
    )

-- Whatever is put out, the cursor stays on the display, and no word behind the display changes.
pub cga_putc-OnScreen :
    (c : ℕ) (s : Cga) → OnScreen s → OnScreen (cga_putc c s) × Inside s (cga_putc c s)
unfolding cga_putc
cga_putc-OnScreen c s h = elim (Bool-cases (c % 256 == 9)) [
  | inl tab ↦ rw tab (put_tab-OnScreen s h)
  | inr other ↦ rw other (put_plain-OnScreen c s h)
]
