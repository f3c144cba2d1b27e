-- ===== src/Sched/Console/Examples.antt =====
-- The theorems on sched/kern/console.c at concrete inputs.
use sistemas_operativos.Prelude.{ℕ, ◌+◌, ◌≡◌, refl, false, true, [], ◌∷◌, ◌++◌, arith}
use sistemas_operativos.Sched.Console.Tables.{normalmap}
use sistemas_operativos.Sched.Console.Keyboard.{Shift, charcode, swap_case}
use sistemas_operativos.Sched.Console.Display.{Cga}
use sistemas_operativos.Sched.Console.Buffer.{Cons, cons_getc}
use sistemas_operativos.Sched.Console.Fifo.{IsValid, waiting, first, others, cons_getc_lem}

-- One character waits at the buffer's last place.
abbrev wrapping : Cons
wrapping = record { buf = λ (i : ℕ). b'a' + i; rpos = 511; wpos = 0 }

cons_getc_example :
    (let (c, b') = cons_getc (b'x' ∷ 0 ∷ []) (b'y' ∷ []) wrapping in
      let queue = waiting wrapping ++ (b'x' ∷ []) ++ (b'y' ∷ []) in
      (c ≡ first queue) × IsValid b' × (waiting b' ≡ others queue))
cons_getc_example =
    cons_getc_lem (b'x' ∷ 0 ∷ []) (b'y' ∷ []) wrapping (omega arith, omega arith) (omega arith)

-- The cursor in the last column of the last line.
abbrev last_place : Cga
last_place = record { crt_buf = λ (i : ℕ). 0x0720; crt_pos = 1999 }

abbrev caps : Shift
caps = record {
  shift = false;
  ctl = false;
  alt = false;
  capslock = true;
  numlock = false;
  scrolllock = false;
  e0esc = false;
}

caps_test : swap_case (charcode caps 0x1E) ≡ b'A'
unfolding swap_case charcode normalmap
caps_test = refl
