-- ===== src/Sched/Console/Keyboard.antt =====
-- `kbd_proc_data` of sched/kern/console.c. The bits of `shift` are the fields of a record.
use sistemas_operativos.Prelude.{
  ℕ, ◌+◌, ◌-◌, ◌%◌, ◌/◌, ◌≡◌, ◌<◌, arith, refl, Bool, true, false, not, ◌&&◌, ◌||◌, Option, none,
  some, leb, ◌==◌, if◌then◌else◌,
}
use sistemas_operativos.Sched.Console.Tables.{normalmap, shiftmap, ctlmap}

pub record Shift : Type 0 where
  pub shift : Bool
  pub ctl : Bool
  pub alt : Bool
  pub capslock : Bool
  pub numlock : Bool
  pub scrolllock : Bool
  pub e0esc : Bool

pub data Modifier : Type 0 where
  no_mod ctl_mod shift_mod alt_mod : Modifier

unfoldable pub shiftcode : ℕ → Modifier
shiftcode d =
    if d == 0x1D || d == 0x9D
    then ctl_mod
    else if d == 0x2A || d == 0x36
    then shift_mod
    else if d == 0x38 || d == 0xB8
    then alt_mod
    else no_mod

-- `shift |= shiftcode[data]`, and `shift &= ~shiftcode[data]`.
abbrev pub set_modifier : Modifier → Bool → Shift → Shift
set_modifier no_mod b s = s
set_modifier ctl_mod b s = record s { ctl = b }
set_modifier shift_mod b s = record s { shift = b }
set_modifier alt_mod b s = record s { alt = b }

-- `shift ^= togglecode[data]`.
unfoldable pub toggle : ℕ → Shift → Shift
toggle d s =
    if d == 0x3A
    then record s { capslock = not s.capslock }
    else if d == 0x45
    then record s { numlock = not s.numlock }
    else if d == 0x46
    then record s { scrolllock = not s.scrolllock }
    else s

unfoldable pub charcode : Shift → ℕ → ℕ
charcode s d = if s.ctl then ctlmap d else if s.shift then shiftmap d else normalmap d

unfoldable pub swap_case : ℕ → ℕ
swap_case c =
    if leb b'a' c && leb c b'z' then c - 32 else if leb b'A' c && leb c b'Z' then c + 32 else c

-- A key that is pressed, its code completed.
unfoldable pub press : ℕ → Shift → ℕ × Shift
press d s =
    let s' = toggle d (set_modifier (shiftcode d) true s) in
    let c = charcode s' d in (if s'.capslock then swap_case c else c, s')

unfoldable pub release : ℕ → Shift → Shift
release byte s =
    let d = if s.e0esc then byte else byte % 128 in
    record (set_modifier (shiftcode d) false s) { e0esc = false }

-- The reaction to the byte of the port. `c = 0` is "no character yet". The reboot is left out.
unfoldable pub kbd_byte : ℕ → Shift → ℕ × Shift
kbd_byte byte s =
    if byte == 0xE0
    then (0, record s { e0esc = true })
    else if leb 128 byte
    then (0, release byte s)
    else if s.e0esc
    then press (byte + 128) (record s { e0esc = false })
    else press byte s

-- `none` is the result -1: no data, or data from the mouse.
unfoldable pub kbd_proc_data : ℕ → ℕ → Shift → Option ℕ × Shift
kbd_proc_data stat byte s =
    if stat % 2 == 0 || stat / 32 % 2 == 1
    then (none, s)
    else (let (c, s') = kbd_byte byte s in (some c, s'))

-- A key that is pressed and let go, without the escape byte: it is no modifier and no lock.
pub kbd_byte_typed :
    (d : ℕ) (s : Shift)
    → d < 128
    → s.e0esc ≡ false
    → shiftcode d ≡ no_mod
    → toggle d s ≡ s
    → let (c, s') = kbd_byte d s in
      (c ≡ (if s.capslock then swap_case (charcode s d) else charcode s d))
      × (kbd_byte (d + 128) s' ≡ (if d == 0x60 then (0, record s { e0esc = true }) else (0, s)))
unfolding kbd_byte press release
kbd_byte_typed d s hd he hm ht = (rw pressed refl, rw pressed let_go)
  where
    pressed : kbd_byte d s ≡ (if s.capslock then swap_case (charcode s d) else charcode s d, s)
    pressed = ground (arith, he, hm, ht)

    let_go : kbd_byte (d + 128) s ≡ (if d == 0x60 then (0, record s { e0esc = true }) else (0, s))
    let_go = ground (arith, he, hm)
