-- ===== src/Fisopfs/Contents.antt =====
-- The bytes that `fisopfs_write` and `fisopfs_read` of fisopfs/fisopfs.c move.
use sistemas_operativos.Prelude.{
  ℕ, zero, suc, ◌+◌, ◌-◌, ◌^◌, ◌≤◌, ◌<◌, min, ◌≡◌, ◌⊎◌, refl, ap, ◌∙◌, inl, inr, true, false, none,
  some, List, [], ◌∷◌, arith, ◌==◌, Bool-cases, Option-cases, none≢some, length, length-set,
  get_elem?, set, get_elem?-set_self, get_elem?-set_ne, take, drop, ltb, some_injective,
}
use native.Mathlib.Nat.{add-zero}
use sistemas_operativos.Fisopfs.Structs.{File, FileSystem, is_dir, put_cell, find_pos, strlen, done}
use sistemas_operativos.Fisopfs.Query.{strncpy, read_size, read_cell, fisopfs_read}
use sistemas_operativos.Fisopfs.Update.{
  write_bytes, write_offset, write_size, write_cell, fisopfs_write,
}

length-write_bytes :
    (n at : ℕ) (content array : List ℕ) → length (write_bytes n at content array) ≡ length array
unfolding write_bytes
length-write_bytes zero at content array = refl
length-write_bytes (suc n) at [] array = refl
length-write_bytes (suc n) at (x ∷ xs) array =
    length-write_bytes n (at + 1) xs (set array at x) ∙ length-set array at x

get_elem?-write_bytes_outside :
    (n at : ℕ) (content array : List ℕ) (k : ℕ)
    → (k < at) ⊎ (at + n ≤ k)
    → get_elem? (write_bytes n at content array) k ≡ get_elem? array k
unfolding write_bytes
get_elem?-write_bytes_outside zero at content array k out = refl
get_elem?-write_bytes_outside (suc n) at [] array k out = refl
get_elem?-write_bytes_outside (suc n) at (x ∷ xs) array k out =
    get_elem?-write_bytes_outside n (at + 1) xs (set array at x) k
      (elim out [ inl lt ↦ inl (omega arith) | inr le ↦ inr (omega arith) ])
    ∙ get_elem?-set_ne array x
        (elim out [ inl lt ↦ λ e. absurd (omega arith) | inr le ↦ λ e. absurd (omega arith) ])

get_elem?-write_bytes_inside :
    (n at : ℕ) (content array : List ℕ) (k : ℕ)
    → k < n
    → n ≤ length content
    → at + n ≤ length array
    → get_elem? (write_bytes n at content array) (at + k) ≡ get_elem? content k
unfolding write_bytes
get_elem?-write_bytes_inside zero at content array k lt len room = absurd (omega arith)
get_elem?-write_bytes_inside (suc n) at [] array k lt len room = absurd (omega arith)
get_elem?-write_bytes_inside (suc n) at (x ∷ xs) array zero lt len room = rw add-zero (
    get_elem?-write_bytes_outside n (at + 1) xs (set array at x) at (inl (omega arith))
    ∙ get_elem?-set_self array at x (omega arith))
get_elem?-write_bytes_inside (suc n) at (x ∷ xs) array (suc k) lt len room =
    ap (get_elem? (write_bytes n (at + 1) xs (set array at x))) shift
    ∙ get_elem?-write_bytes_inside n (at + 1) xs (set array at x) k (omega arith) (omega arith)
        (omega (arith, length-set array at x))
  where
    shift : at + suc k ≡ at + 1 + k
    shift = omega arith

strlen-bound : (s : List ℕ) (n : ℕ) → strlen s ≡ some n → n < length s
unfolding strlen
strlen-bound [] n h = absurd (none≢some n h)
strlen-bound (x ∷ xs) n h = elim (Bool-cases (x == 0)) [
  | inl e ↦ let here = some_injective 0 n (rw e at h) in omega arith
  | inr e ↦ elim (Option-cases (strlen xs)) [
    | inl f ↦ absurd (none≢some n (rw (e, f) at h))
    | inr (m, f) ↦
        let here = some_injective (suc m) n (rw (e, f) at h) in
        omega (arith, here, strlen-bound xs m f)
  ]
]

-- What a write leaves in a cell: `size` bytes of `content` from `offset` on, inside the array; every
-- other byte and every other field is the old cell's.
pub record Written (old new : File) (content : List ℕ) (offset size : ℕ) : Type 0 where
  pub inside : offset + size ≤ length old.contenido
  pub same_length : length new.contenido ≡ length old.contenido
  pub written : (k : ℕ) → k < size → get_elem? new.contenido (offset + k) ≡ get_elem? content k
  pub kept :
      (k : ℕ)
      → (k < offset) ⊎ (offset + size ≤ k)
      → get_elem? new.contenido k ≡ get_elem? old.contenido k
  pub others : new ≡ record old { contenido = new.contenido }

write_offset-min : (n offset : ℕ) → write_offset n offset ≡ min n offset
write_offset-min n offset = ground arith

write_size-min : (n size : ℕ) → n ≤ 400 → write_size n size ≡ min size (400 - n)
write_size-min n size h = ground arith

write_bytes-Written :
    (c : File) (content : List ℕ) (offset size : ℕ)
    → offset + size ≤ length c.contenido
    → size ≤ length content
    → Written c
        (record c { contenido = write_bytes size offset content c.contenido })
        content
        offset
        size
write_bytes-Written c content offset size room len = record {
  inside = room;
  same_length = length-write_bytes size offset content c.contenido;
  written = λ k lt. get_elem?-write_bytes_inside size offset content c.contenido k lt len room;
  kept = λ k out. get_elem?-write_bytes_outside size offset content c.contenido k out;
  others = refl;
}

-- A write to a file whose array of 400 bytes holds a string of `n` bytes, of `content` that has `size`
-- bytes or more, returns the smaller of `size` and the room behind the string, and writes so many bytes
-- of `content`, from `offset` on or from the string's end where `offset` is behind it; it stays inside
-- the array and changes nothing else.
pub fisopfs_write-Written :
    (fs : FileSystem) (path content : List ℕ) (size offset i j n : ℕ)
    → find_pos fs path ≡ some (i, j)
    → is_dir (fs i j).type ≡ false
    → strlen (fs i j).contenido ≡ some n
    → length (fs i j).contenido ≡ 400
    → size ≤ length content
    → (c : File) × (fisopfs_write fs path content size offset
        ≡ some (done (min size (400 - n)), put_cell i j c fs))
      × Written (fs i j) c content (min n offset) (min size (400 - n))
unfolding fisopfs_write
fisopfs_write-Written fs path content size offset i j n found file len whole enough = (
  record (fs i j) {
    contenido = write_bytes (min size (400 - n)) (min n offset) content ((fs i j).contenido);
  },
  rw
      (
        fisopfs_write,
        found,
        file,
        write_cell,
        len,
        write_size-min n size (omega (arith, fits)),
        write_offset-min n offset,
      )
      refl,
  write_bytes-Written (fs i j) content (min n offset) (min size (400 - n))
      (omega (arith, fits, whole)) (omega (arith, enough)),
)
  where
    fits : n < length (fs i j).contenido
    fits = strlen-bound ((fs i j).contenido) n len

strncpy-take : (m n : ℕ) (s : List ℕ) → strlen s ≡ some n → m ≤ n → strncpy m s ≡ take m s
unfolding strlen
strncpy-take zero n s len h = refl
strncpy-take (suc m) n [] len h = absurd (none≢some n len)
strncpy-take (suc m) n (x ∷ xs) len h = elim (Bool-cases (x == 0)) [
  | inl e ↦ let here = some_injective 0 n (rw e at len) in absurd (omega arith)
  | inr e ↦ elim (Option-cases (strlen xs)) [
    | inl f ↦ absurd (none≢some n (rw (e, f) at len))
    | inr (k, f) ↦
        let here = some_injective (suc k) n (rw (e, f) at len) in
        rw (e, strncpy-take m k xs f (omega arith))
  ]
]

strlen-drop : (k n : ℕ) (s : List ℕ) → strlen s ≡ some n → k ≤ n → strlen (drop k s) ≡ some (n - k)
unfolding strlen
strlen-drop zero n s len h = len ∙ ap some (omega arith)
strlen-drop (suc k) n [] len h = absurd (none≢some n len)
strlen-drop (suc k) n (x ∷ xs) len h = elim (Bool-cases (x == 0)) [
  | inl e ↦ let here = some_injective 0 n (rw e at len) in absurd (omega arith)
  | inr e ↦ elim (Option-cases (strlen xs)) [
    | inl f ↦ absurd (none≢some n (rw (e, f) at len))
    | inr (m, f) ↦
        let here = some_injective (suc m) n (rw (e, f) at len) in
        strlen-drop k m xs f (omega arith) ∙ ap some (omega arith)
  ]
]

-- A read from an `offset` inside the string of a file, where `offset + size` and the string's length
-- are below 2 ^ 64, hands out the string's bytes from there, `size` of them at most, and returns their
-- number.
pub fisopfs_read_inside :
    (fs : FileSystem) (path : List ℕ) (size offset i j n : ℕ)
    → find_pos fs path ≡ some (i, j)
    → is_dir (fs i j).type ≡ false
    → strlen (fs i j).contenido ≡ some n
    → offset ≤ n
    → n < 2 ^ 64
    → offset + size < 2 ^ 64
    → fisopfs_read fs path size offset
      ≡ some (
        done (min size (n - offset)),
        take (min size (n - offset)) (drop offset ((fs i j).contenido)),
      )
unfolding fisopfs_read
fisopfs_read_inside fs path size offset i j n found file len inside word fits =
    rw (fisopfs_read, found, file, read_cell, len, corrected, enough)
      (ap (λ s. some (done (min size (n - offset)), s))
        (strncpy-take (min size (n - offset)) (n - offset) (drop offset ((fs i j).contenido))
          (strlen-drop offset n ((fs i j).contenido) len inside) (omega arith)))
  where
    corrected : read_size n size offset ≡ min size (n - offset)
    corrected = ground arith

    enough : ltb size (min size (n - offset)) ≡ false
    enough = ground arith

-- A read from an `offset` behind the end of the string, where `offset + size` is below 2 ^ 64, writes
-- behind the end of the buffer: the corrected size wraps around in a `size_t`.
pub fisopfs_read_behind :
    (fs : FileSystem) (path : List ℕ) (size offset i j n : ℕ)
    → find_pos fs path ≡ some (i, j)
    → is_dir (fs i j).type ≡ false
    → strlen (fs i j).contenido ≡ some n
    → n < offset
    → offset + size < 2 ^ 64
    → fisopfs_read fs path size offset ≡ none
unfolding fisopfs_read
fisopfs_read_behind fs path size offset i j n found file len behind fits =
    rw (fisopfs_read, found, file, read_cell, len, corrected, over) refl
  where
    corrected : read_size n size offset ≡ n + 2 ^ 64 - offset
    corrected = ground arith

    over : ltb size (n + 2 ^ 64 - offset) ≡ true
    over = ground arith
