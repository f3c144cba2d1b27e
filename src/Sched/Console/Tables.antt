-- ===== src/Sched/Console/Tables.antt =====
-- The tables of sched/kern/console.c that turn scan codes into characters. An entry that a table does
-- not give is 0.
use sistemas_operativos.Prelude.{ℕ, ◌==◌, List, [], ◌∷◌, ltb, if◌then◌else◌, get_or, length}

abbrev pub key_home : ℕ
key_home = 0xE0

abbrev pub key_end : ℕ
key_end = 0xE1

abbrev pub key_up : ℕ
key_up = 0xE2

abbrev pub key_dn : ℕ
key_dn = 0xE3

abbrev pub key_lf : ℕ
key_lf = 0xE4

abbrev pub key_rt : ℕ
key_rt = 0xE5

abbrev pub key_pgup : ℕ
key_pgup = 0xE6

abbrev pub key_pgdn : ℕ
key_pgdn = 0xE7

abbrev pub key_ins : ℕ
key_ins = 0xE8

abbrev pub key_del : ℕ
key_del = 0xE9

-- The entry that stands first for the scan code.
abbrev entry_at : ℕ → List (ℕ × ℕ) → ℕ
entry_at d [] = 0
entry_at d ((i, c) ∷ entries) = if d == i then c else entry_at d entries

-- A table's entries from 0 on, and those behind them.
abbrev pub table_at : List ℕ → List (ℕ × ℕ) → ℕ → ℕ
table_at row entries d = if ltb d (length row) then get_or row d 0 else entry_at d entries

abbrev normalmap_row : List ℕ
normalmap_row =
    0 ∷ 27 ∷ b'1' ∷ b'2' ∷ b'3' ∷ b'4' ∷ b'5' ∷ b'6' ∷ b'7' ∷ b'8' ∷ b'9' ∷ b'0' ∷ b'-' ∷ b'=' ∷ 8
    ∷ 9 ∷ b'q' ∷ b'w' ∷ b'e' ∷ b'r' ∷ b't' ∷ b'y' ∷ b'u' ∷ b'i' ∷ b'o' ∷ b'p' ∷ b'[' ∷ b']' ∷ 10 ∷ 0
    ∷ b'a' ∷ b's' ∷ b'd' ∷ b'f' ∷ b'g' ∷ b'h' ∷ b'j' ∷ b'k' ∷ b'l' ∷ b';' ∷ 39 ∷ b'`' ∷ 0 ∷ 92
    ∷ b'z' ∷ b'x' ∷ b'c' ∷ b'v' ∷ b'b' ∷ b'n' ∷ b'm' ∷ b',' ∷ b'.' ∷ b'/' ∷ 0 ∷ b'*' ∷ 0 ∷ 32 ∷ 0
    ∷ 0 ∷ 0 ∷ 0 ∷ 0 ∷ 0 ∷ 0 ∷ 0 ∷ 0 ∷ 0 ∷ 0 ∷ 0 ∷ 0 ∷ b'7' ∷ b'8' ∷ b'9' ∷ b'-' ∷ b'4' ∷ b'5' ∷ b'6'
    ∷ b'+' ∷ b'1' ∷ b'2' ∷ b'3' ∷ b'0' ∷ b'.' ∷ 0 ∷ 0 ∷ 0 ∷ 0 ∷ []

unfoldable pub normalmap : ℕ → ℕ
normalmap = table_at normalmap_row (
    (0xc7, key_home)
    ∷ (0x9c, 10)
    ∷ (0xb5, b'/')
    ∷ (0xc8, key_up)
    ∷ (0xc9, key_pgup)
    ∷ (0xcb, key_lf)
    ∷ (0xcd, key_rt)
    ∷ (0xcf, key_end)
    ∷ (0xd0, key_dn)
    ∷ (0xd1, key_pgdn)
    ∷ (0xd2, key_ins)
    ∷ (0xd3, key_del)
    ∷ [])

abbrev shiftmap_row : List ℕ
shiftmap_row =
    0 ∷ 27 ∷ b'!' ∷ b'@' ∷ b'#' ∷ b'$' ∷ b'%' ∷ b'^' ∷ b'&' ∷ b'*' ∷ b'(' ∷ b')' ∷ b'_' ∷ b'+' ∷ 8
    ∷ 9 ∷ b'Q' ∷ b'W' ∷ b'E' ∷ b'R' ∷ b'T' ∷ b'Y' ∷ b'U' ∷ b'I' ∷ b'O' ∷ b'P' ∷ b'{' ∷ b'}' ∷ 10 ∷ 0
    ∷ b'A' ∷ b'S' ∷ b'D' ∷ b'F' ∷ b'G' ∷ b'H' ∷ b'J' ∷ b'K' ∷ b'L' ∷ b':' ∷ b'"' ∷ b'~' ∷ 0 ∷ b'|'
    ∷ b'Z' ∷ b'X' ∷ b'C' ∷ b'V' ∷ b'B' ∷ b'N' ∷ b'M' ∷ b'<' ∷ b'>' ∷ b'?' ∷ 0 ∷ b'*' ∷ 0 ∷ 32 ∷ 0
    ∷ 0 ∷ 0 ∷ 0 ∷ 0 ∷ 0 ∷ 0 ∷ 0 ∷ 0 ∷ 0 ∷ 0 ∷ 0 ∷ 0 ∷ b'7' ∷ b'8' ∷ b'9' ∷ b'-' ∷ b'4' ∷ b'5' ∷ b'6'
    ∷ b'+' ∷ b'1' ∷ b'2' ∷ b'3' ∷ b'0' ∷ b'.' ∷ 0 ∷ 0 ∷ 0 ∷ 0 ∷ []

unfoldable pub shiftmap : ℕ → ℕ
shiftmap = table_at shiftmap_row (
    (0xc7, key_home)
    ∷ (0x9c, 10)
    ∷ (0xb5, b'/')
    ∷ (0xc8, key_up)
    ∷ (0xc9, key_pgup)
    ∷ (0xcb, key_lf)
    ∷ (0xcd, key_rt)
    ∷ (0xcf, key_end)
    ∷ (0xd0, key_dn)
    ∷ (0xd1, key_pgdn)
    ∷ (0xd2, key_ins)
    ∷ (0xd3, key_del)
    ∷ [])

abbrev ctlmap_row : List ℕ
ctlmap_row =
    0 ∷ 0 ∷ 0 ∷ 0 ∷ 0 ∷ 0 ∷ 0 ∷ 0 ∷ 0 ∷ 0 ∷ 0 ∷ 0 ∷ 0 ∷ 0 ∷ 0 ∷ 0 ∷ 17 ∷ 23 ∷ 5 ∷ 18 ∷ 20 ∷ 25 ∷ 21
    ∷ 9 ∷ 15 ∷ 16 ∷ 0 ∷ 0 ∷ 13 ∷ 0 ∷ 1 ∷ 19 ∷ 4 ∷ 6 ∷ 7 ∷ 8 ∷ 10 ∷ 11 ∷ 12 ∷ 0 ∷ 0 ∷ 0 ∷ 0 ∷ 28 ∷ 26
    ∷ 24 ∷ 3 ∷ 22 ∷ 2 ∷ 14 ∷ 13 ∷ 0 ∷ 0 ∷ 239 ∷ 0 ∷ 0 ∷ []

unfoldable pub ctlmap : ℕ → ℕ
ctlmap = table_at ctlmap_row (
    (0x97, key_home)
    ∷ (0xb5, 239)
    ∷ (0xc8, key_up)
    ∷ (0xc9, key_pgup)
    ∷ (0xcb, key_lf)
    ∷ (0xcd, key_rt)
    ∷ (0xcf, key_end)
    ∷ (0xd0, key_dn)
    ∷ (0xd1, key_pgdn)
    ∷ (0xd2, key_ins)
    ∷ (0xd3, key_del)
    ∷ [])
