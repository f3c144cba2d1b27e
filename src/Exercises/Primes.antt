-- ===== src/Exercises/Primes.antt =====
-- fork/primes.c: a chain of processes, each of which keeps the first number that it reads, calls printf for it, and
-- hands on what that number does not divide. A pipe is the list of the numbers in it, with whether its writer has
-- closed it; it takes whatever is written, and no call of the operating system fails. The calls of printf are kept,
-- not the buffer of standard output: on a terminal each line is written at once and the calls are the output, but
-- elsewhere a fork copies the lines that are still in the buffer.
use sistemas_operativos.Prelude.{
  ℕ, suc, ◌+◌, ◌%◌, ◌≤◌, ◌<◌, ◌≡◌, Bool, true, false, not, List, [], ◌∷◌, ◌++◌, ◌==◌, if◌then◌else◌,
}

-- The processes from one on downstream. `filtrar_numero` waits for its first number, or filters by the number
-- that it has printed, or is in `waitpid` behind its loop, or has returned.
pub data Net : Type 0 where
  waiting : (pipe : List ℕ) → (closed : Bool) → Net
  filtering : (valor_recibido : ℕ) → (pipe : List ℕ) → (closed : Bool) → Net → Net
  draining : Net → Net
  returned : Net

-- `write` into the pipe of the first process.
unfoldable pub write_to : ℕ → Net → Net
write_to v (waiting q c) = waiting (q ++ v ∷ []) c
write_to v (filtering p q c rest) = filtering p (q ++ v ∷ []) c rest
write_to v (draining rest) = draining rest
write_to v returned = returned

-- `close` of the write end of that pipe.
unfoldable pub close_pipe : Net → Net
close_pipe (waiting q c) = waiting q true
close_pipe (filtering p q c rest) = filtering p q true rest
close_pipe (draining rest) = draining rest
close_pipe returned = returned

-- `nuevo_valor % valor_recibido != 0`
abbrev pub passes : ℕ → ℕ → Bool
passes p v = not (v % p == 0)

unfoldable pub forward : ℕ → ℕ → Net → Net
forward p v rest = if passes p v then write_to v rest else rest

-- A step of one of the processes, with the number for which it calls printf, if it calls it.
pub data NetStep : Net → List ℕ → Net → Type 0 where
  first :
      (v : ℕ) (q : List ℕ) (c : Bool)
      → NetStep (waiting (v ∷ q) c) (v ∷ []) (filtering v q c (waiting [] false))
  no_number : NetStep (waiting [] true) [] returned
  next :
      (p v : ℕ) (q : List ℕ) (c : Bool) (rest : Net)
      → NetStep (filtering p (v ∷ q) c rest) [] (filtering p q c (forward p v rest))
  last : (p : ℕ) (rest : Net) → NetStep (filtering p [] true rest) [] (draining (close_pipe rest))
  reap : NetStep (draining returned) [] returned
  below_filter :
      (p : ℕ) (q : List ℕ) (c : Bool) (rest rest' : Net) (out : List ℕ)
      → NetStep rest out rest'
      → NetStep (filtering p q c rest) out (filtering p q c rest')
  below_drain :
      (rest rest' : Net) (out : List ℕ)
      → NetStep rest out rest'
      → NetStep (draining rest) out (draining rest')

-- `main` behind its `fork`: the `i` of its loop, whether it still writes, the processes, and the numbers
-- for which they have called printf, in the order of the calls.
pub record System : Type 0 where
  pub i : ℕ
  pub writing : Bool
  pub net : Net
  pub printed : List ℕ

pub data Step (n : ℕ) : System → System → Type 0 where
  write_number :
      (i : ℕ) (net : Net) (printed : List ℕ)
      → i ≤ n
      → Step n
          (record { i = i; writing = true; net = net; printed = printed })
          (record { i = i + 1; writing = true; net = write_to i net; printed = printed })
  close_numbers :
      (i : ℕ) (net : Net) (printed : List ℕ)
      → n < i
      → Step n
          (record { i = i; writing = true; net = net; printed = printed })
          (record { i = i; writing = false; net = close_pipe net; printed = printed })
  work :
      (i : ℕ) (writing : Bool) (net net' : Net) (printed out : List ℕ)
      → NetStep net out net'
      → Step n
          (record { i = i; writing = writing; net = net; printed = printed })
          (record { i = i; writing = writing; net = net'; printed = printed ++ out })

abbrev pub start : System
start = record { i = 2; writing = true; net = waiting [] false; printed = [] }

-- `main` has closed its pipe, and its `waitpid` can return.
abbrev pub IsOver : System → Type 0
IsOver s = (s.writing ≡ false) × (s.net ≡ returned)

-- So many steps.
pub data Run (n : ℕ) : ℕ → System → System → Type 0 where
  here : (s : System) → Run n 0 s s
  more : (k : ℕ) (s s1 s' : System) → Step n s s1 → Run n k s1 s' → Run n (suc k) s s'
