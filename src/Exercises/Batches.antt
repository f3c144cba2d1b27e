-- ===== src/Exercises/Batches.antt =====
-- fork/xargs.c runs its command on all lines, in order, in full batches but for the last.
use sistemas_operativos.Prelude.{
  ℕ, zero, suc, ◌≤◌, ◌<◌, ◌≡◌, ◌≢◌, refl, sym, ap, ◌∙◌, Bool, true, false, some, List, [], ◌∷◌,
  ◌++◌, ◌==◌, if◌then◌else◌, map, length, append-nil, arith, Bool-cases, inl, inr,
}
use sistemas_operativos.Exercises.Xargs.{
  nargs, getline, strdup, lines, more_lines, read_batch, run_batches,
}

true≢false : true ≢ false
true≢false e = cc

abbrev onto_first : ℕ → List (List ℕ) → List (List ℕ)
onto_first c [] = (c ∷ []) ∷ []
onto_first c (l ∷ ls) = (c ∷ l) ∷ ls

-- The lines of a text; an end of line closes a line, and so does the end of the text behind one or more bytes.
abbrev pub lines_of : List ℕ → List (List ℕ)
lines_of [] = []
lines_of (c ∷ text) = if c == 10 then [] ∷ lines_of text else onto_first c (lines_of text)

abbrev pub concat : List (List (List ℕ)) → List (List ℕ)
concat [] = []
concat (b ∷ bs) = b ++ concat bs

-- Each batch is full, but that the last one has one line or more.
abbrev pub IsPacked : List (List (List ℕ)) → Type 0
IsPacked [] = Unit
IsPacked (b ∷ []) = (0 < length b) × (length b ≤ nargs)
IsPacked (b ∷ c ∷ bs) = (length b ≡ nargs) × IsPacked (c ∷ bs)

-- `getline` takes the first line of a text that is not empty.
record Taken (text line behind : List ℕ) : Type 0 where
  run : getline text ≡ some (line, behind)
  is_first : lines_of text ≡ line ∷ lines_of behind
  shorter : length behind < length text

getline-Taken :
    (c : ℕ) (text : List ℕ) → (line : List ℕ) × ((behind : List ℕ) × Taken (c ∷ text) line behind)
unfolding getline
getline-Taken c [] = elim (Bool-cases (c == 10)) [
  | inl e ↦ ([], ([], record { run = rw e refl; is_first = rw e refl; shorter = omega arith }))
  | inr e ↦ (c ∷ [], ([], record { run = rw e refl; is_first = rw e refl; shorter = omega arith }))
]
getline-Taken c (d ∷ text) =
    let (line, (behind, t)) = getline-Taken d text in
    elim (Bool-cases (c == 10)) [
      | inl e ↦
          ([], (d ∷ text, record { run = rw e refl; is_first = rw e refl; shorter = omega arith }))
      | inr e ↦ (
        c ∷ line,
        (
          behind,
          record {
            run = rw (e, t.run) refl;
            is_first = rw (e, t.is_first) refl;
            shorter = omega (arith, t.shorter);
          },
        ),
      )
    ]

-- The lines that the `for` reads, of `left` at most.
record Read (left : ℕ) (text : List ℕ) (ls : List (List ℕ)) (behind : List ℕ) (ended : Bool)
    : Type 0 where
  run : more_lines left text ≡ lines ls behind ended
  in_order : map strdup (lines_of text) ≡ ls ++ map strdup (lines_of behind)
  no_longer : length behind ≤ length text
  full : ended ≡ false → length ls ≡ left
  all : ended ≡ true → behind ≡ []
  bounded : length ls ≤ left

more_lines-Read :
    (left : ℕ) (text : List ℕ)
    → (ls : List (List ℕ)) × ((behind : List ℕ) × ((ended : Bool) × Read left text ls behind ended))
unfolding more_lines
more_lines-Read zero text = (
  [],
  (
    text,
    (
      false,
      record {
        run = refl;
        in_order = refl;
        no_longer = omega arith;
        full = λ _. refl;
        all = λ e. absurd (true≢false (sym e));
        bounded = omega arith;
      },
    ),
  ),
)
more_lines-Read (suc left) [] = (
  [],
  (
    [],
    (
      true,
      record {
        run = unfold getline in refl;
        in_order = refl;
        no_longer = omega arith;
        full = λ e. absurd (true≢false e);
        all = λ _. refl;
        bounded = omega arith;
      },
    ),
  ),
)
more_lines-Read (suc left) (c ∷ text) =
    let (line, (behind, t)) = getline-Taken c text in
    let (ls, (end, (ended, r))) = more_lines-Read left behind in
    (
      strdup line ∷ ls,
      (
        end,
        (
          ended,
          record {
            run = rw (more_lines, t.run, r.run) refl;
            in_order = ap (map strdup) t.is_first ∙ ap (λ l. strdup line ∷ l) r.in_order;
            no_longer = omega (arith, t.shorter, r.no_longer);
            full = λ e. ap suc (r.full e);
            all = r.all;
            bounded = omega (arith, r.bounded);
          },
        ),
      ),
    )

-- What the loop runs on a text.
pub record Batched (command text : List ℕ) (fuel : ℕ) (bs : List (List (List ℕ))) : Type 0 where
  pub run : run_batches fuel command text ≡ some (map (λ b. command ∷ b) bs)
  pub in_order : concat bs ≡ map strdup (lines_of text)
  pub packed : IsPacked bs

IsPacked-cons :
    (b : List (List ℕ)) (bs : List (List (List ℕ)))
    → length b ≡ nargs
    → IsPacked bs
    → IsPacked (b ∷ bs)
IsPacked-cons b [] e p = (omega (arith, e), omega (arith, e))
IsPacked-cons b (c ∷ bs) e p = (e, p)

-- A round of the `while`, and what the rounds behind it run.
batch-Batched :
    (fuel : ℕ) (command : List ℕ) (text line behind : List ℕ) (ls : List (List ℕ)) (end : List ℕ)
    (ended : Bool)
    → Taken text line behind
    → Read 3 behind ls end ended
    → (bs : List (List (List ℕ))) × Batched command end fuel bs
    → (bs : List (List (List ℕ))) × Batched command text (suc fuel) bs
unfolding run_batches read_batch
batch-Batched fuel command text line behind ls end true t r later = (
  (strdup line ∷ ls) ∷ [],
  record {
    run = rw (run_batches, t.run, r.run) refl;
    in_order =
        append-nil (strdup line ∷ ls)
        ∙ ap (λ l. strdup line ∷ l)
            (sym (append-nil ls)
              ∙ ap (λ l. ls ++ map strdup (lines_of l)) (sym (r.all refl))
              ∙ sym r.in_order)
        ∙ ap (map strdup) (sym t.is_first);
    packed = (omega arith, omega (arith, r.bounded));
  },
)
batch-Batched fuel command text line behind ls end false t r (bs, later) = (
  (strdup line ∷ ls) ∷ bs,
  record {
    run = rw (run_batches, t.run, r.run, later.run) refl;
    in_order =
        ap (λ l. strdup line ∷ l) (ap (λ l. ls ++ l) later.in_order ∙ sym r.in_order)
        ∙ ap (map strdup) (sym t.is_first);
    packed = IsPacked-cons (strdup line ∷ ls) bs (ap suc (r.full refl)) later.packed;
  },
)

-- `xargs` ends on every input, with a round for each byte and one more, and runs its command on batches of
-- lines: the batches one behind the other are all lines of the input, in order, each up to its first NUL, and
-- each batch has NARGS lines, but that the last has one to NARGS.
pub run_batches-Batched :
    (fuel : ℕ) (command text : List ℕ)
    → length text < fuel
    → (bs : List (List (List ℕ))) × Batched command text fuel bs
unfolding run_batches read_batch
run_batches-Batched zero command text lt = absurd (omega (arith, lt))
run_batches-Batched (suc fuel) command [] lt =
    ([], record { run = unfold getline in refl; in_order = refl; packed = tt })
run_batches-Batched (suc fuel) command (c ∷ text) lt =
    let (line, (behind, t)) = getline-Taken c text in
    let (ls, (end, (ended, r))) = more_lines-Read 3 behind in
    batch-Batched fuel command (c ∷ text) line behind ls end ended t r
      (run_batches-Batched fuel command end (omega (arith, lt, t.shorter, r.no_longer)))
