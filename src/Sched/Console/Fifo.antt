-- ===== src/Sched/Console/Fifo.antt =====
-- The input buffer of sched/kern/console.c as a queue of characters.
use sistemas_operativos.Prelude.{
  ℕ, zero, suc, ◌+◌, ◌-◌, ◌%◌, ◌<◌, ◌≤◌, ◌≡◌, refl, sym, ap, ◌∙◌, ◌==◌, List, [], ◌∷◌, ◌++◌,
  append-nil, append_assoc, length, length-append, leb, if◌then◌else◌, update, arith, Bool-cases,
  inl, inr,
}
use sistemas_operativos.Sched.Console.Buffer.{
  Cons, consbufsize, next_pos, put_char, cons_intr, next_char, cons_getc,
}

-- The steps from one position to another.
abbrev distance : ℕ → ℕ → ℕ
distance p w = if leb p w then w - p else w + consbufsize - p

-- The next `n` characters from a position on.
abbrev read_from : (ℕ → ℕ) → ℕ → ℕ → List ℕ
read_from buf p zero = []
read_from buf p (suc n) = buf p ∷ read_from buf (next_pos p) n

abbrev pub waiting : Cons → List ℕ
waiting b = read_from b.buf b.rpos (distance b.rpos b.wpos)

abbrev pub IsValid : Cons → Type 0
IsValid b = (b.rpos < consbufsize) × (b.wpos < consbufsize)

-- What `cons_intr` keeps of the characters that a device gives.
abbrev pub kept : List ℕ → List ℕ
kept [] = []
kept (c ∷ cs) = if c == 0 then kept cs else (c % 256) ∷ kept cs

length-read_from : (buf : ℕ → ℕ) (p n : ℕ) → length (read_from buf p n) ≡ n
length-read_from buf p zero = refl
length-read_from buf p (suc n) = ap suc (length-read_from buf (next_pos p) n)

read_from-update :
    (buf : ℕ → ℕ) (c p w n : ℕ)
    → p < consbufsize
    → w < consbufsize
    → n ≤ distance p w
    → read_from (update buf w c) p n ≡ read_from buf p n
read_from-update buf c p w zero hp hw le = refl
read_from-update buf c p w (suc n) hp hw le =
    let rest = read_from-update buf c (next_pos p) w n (ground arith) hw (ground arith) in
    ground (arith, rest)

-- The character at a position stands last among those up to it.
read_from-snoc :
    (buf : ℕ → ℕ) (p w n : ℕ)
    → p < consbufsize
    → w < consbufsize
    → distance p w ≡ n
    → read_from buf p (suc n) ≡ read_from buf p n ++ (buf w ∷ [])
read_from-snoc buf p w zero hp hw e = let same : p ≡ w = ground arith in rw same refl
read_from-snoc buf p w (suc n) hp hw e =
    ap (λ l. buf p ∷ l) (read_from-snoc buf (next_pos p) w n (ground arith) hw (ground arith))

put_char-IsValid : (c : ℕ) (b : Cons) → IsValid b → IsValid (put_char c b)
put_char-IsValid c b (hr, hw) = (hr, ground arith)

distance-next_pos :
    (p w : ℕ)
    → p < consbufsize
    → w < consbufsize
    → suc (distance p w) < consbufsize
    → distance p (next_pos w) ≡ suc (distance p w)
distance-next_pos p w hp hw room = ground arith

put_char-waiting :
    (c : ℕ) (b : Cons)
    → IsValid b
    → suc (length (waiting b)) < consbufsize
    → waiting (put_char c b) ≡ waiting b ++ (c % 256 ∷ [])
put_char-waiting c b (hr, hw) room =
    rw (distance-next_pos b.rpos b.wpos hr hw room')
      (read_from-snoc written b.rpos b.wpos d hr hw refl ∙ ends)
  where
    d : ℕ
    d = distance b.rpos b.wpos

    written : ℕ → ℕ
    written = update b.buf b.wpos (c % 256)

    room' : suc d < consbufsize
    room' = omega (arith, room, length-read_from b.buf b.rpos d)

    last : written b.wpos ≡ c % 256
    last = ground arith

    ends : read_from written b.rpos d ++ (written b.wpos ∷ []) ≡ waiting b ++ (c % 256 ∷ [])
    ends = rw (last, read_from-update b.buf (c % 256) b.rpos b.wpos d hr hw (omega arith)) refl

cons_intr-waiting :
    (cs : List ℕ) (b : Cons)
    → IsValid b
    → length (waiting b) + length (kept cs) < consbufsize
    → IsValid (cons_intr cs b) × (waiting (cons_intr cs b) ≡ waiting b ++ kept cs)
unfolding cons_intr
cons_intr-waiting [] b ok room = (ok, sym (append-nil (waiting b)))
cons_intr-waiting (c ∷ cs) b ok room = elim (Bool-cases (c == 0)) [
  | inl skipped ↦ (let left = rw skipped at (room) in rw skipped (cons_intr-waiting cs b ok left))
  | inr full ↦
      (let left = rw full at (room) in
        let put = put_char-waiting c b ok (omega (arith, left)) in
        let rest =
          cons_intr-waiting cs (put_char c b) (put_char-IsValid c b ok)
            (rw put (omega (arith, left, length-append (waiting b) (c % 256 ∷ [])))) in
        rw full (rest.0, rest.1 ∙ rw put (append_assoc (waiting b) (c % 256 ∷ []) (kept cs))))
]

-- The two ends of a queue: its first character, 0 where there is none, and the others.
abbrev pub first : List ℕ → ℕ
first [] = 0
first (c ∷ cs) = c

abbrev pub others : List ℕ → List ℕ
others [] = []
others (c ∷ cs) = cs

next_char-waiting :
    (b : Cons)
    → IsValid b
    → ((next_char b).0 ≡ first (waiting b))
      × IsValid (next_char b).1
      × (waiting (next_char b).1 ≡ others (waiting b))
unfolding next_char
next_char-waiting b (hr, hw) = elim (Bool-cases (b.rpos == b.wpos)) [
  | inl same ↦
      let none_left : distance b.rpos b.wpos ≡ 0 = ground arith in
      rw (same, none_left) (refl, (hr, hw), refl)
  | inr more ↦
      let d : distance b.rpos b.wpos ≡ suc (distance (next_pos b.rpos) b.wpos) = ground arith in
      rw (more, d) (refl, (ground arith, hw), refl)
]

-- The console's input is a queue. `cons_getc` puts the characters of the serial line and then those of the
-- keyboard, all but the zeros and each cut to a byte, behind those that wait, and takes away the first of
-- all and returns it, or 0 where there is none; if together they are fewer than 512.
pub cons_getc_lem :
    (serial keys : List ℕ) (b : Cons)
    → IsValid b
    → length (waiting b) + length (kept serial) + length (kept keys) < consbufsize
    → let queue = waiting b ++ kept serial ++ kept keys in
      let (c, b') = cons_getc serial keys b in
      (c ≡ first queue) × IsValid b' × (waiting b' ≡ others queue)
unfolding cons_getc
cons_getc_lem serial keys b ok room =
    let s = cons_intr-waiting serial b ok (omega (arith, room)) in
    let k =
      cons_intr-waiting keys (cons_intr serial b) s.0
        (rw (s.1) (omega (arith, room, length-append (waiting b) (kept serial)))) in
    let all = k.1 ∙ ap (λ (l : List ℕ). l ++ kept keys) (s.1) in
    let n = next_char-waiting (cons_intr keys (cons_intr serial b)) (k.0) in
    (n.0 ∙ ap first all, n.1, n.2 ∙ ap others all)

-- `cons_intr` does not look whether the buffer is full: with 511 characters waiting, one more leaves none.
pub put_char-overflow :
    (c : ℕ) (b : Cons) → IsValid b → length (waiting b) ≡ 511 → waiting (put_char c b) ≡ []
put_char-overflow c b (hr, hw) full =
    let d = length-read_from b.buf b.rpos (distance b.rpos b.wpos) in
    let same : next_pos b.wpos ≡ b.rpos = ground (arith, d, full) in
    let none_left : distance b.rpos (next_pos b.wpos) ≡ 0 = ground (arith, same) in
    rw none_left refl
