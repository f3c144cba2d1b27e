-- ===== src/Sched/Console/Buffer.antt =====
-- The circular input buffer of sched/kern/console.c.
use sistemas_operativos.Prelude.{ℕ, ◌+◌, ◌%◌, ◌==◌, List, [], ◌∷◌, if◌then◌else◌, update}

abbrev pub consbufsize : ℕ
consbufsize = 512

pub record Cons : Type 0 where
  pub buf : ℕ → ℕ
  pub rpos : ℕ
  pub wpos : ℕ

abbrev pub next_pos : ℕ → ℕ
next_pos p = if p + 1 == consbufsize then 0 else p + 1

abbrev pub put_char : ℕ → Cons → Cons
put_char c b = record { buf = update b.buf b.wpos (c % 256); rpos = b.rpos; wpos = next_pos b.wpos }

-- The characters that `proc` returns before -1.
unfoldable pub cons_intr : List ℕ → Cons → Cons
cons_intr [] b = b
cons_intr (c ∷ cs) b = if c == 0 then cons_intr cs b else cons_intr cs (put_char c b)

-- The two calls before this one poll the devices: they are `cons_intr` on what these hold.
unfoldable pub next_char : Cons → ℕ × Cons
next_char b =
    if b.rpos == b.wpos then (0, b) else (b.buf b.rpos, record b { rpos = next_pos b.rpos })

unfoldable pub cons_getc : List ℕ → List ℕ → Cons → ℕ × Cons
cons_getc serial keys b = next_char (cons_intr keys (cons_intr serial b))
