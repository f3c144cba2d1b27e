-- ===== src/Shell/Loop.antt =====
-- What the built-ins and the loop of shell/ do with lines.
use sistemas_operativos.Prelude.{
  ◌∙◌, ℕ, zero, suc, ◌≡◌, ◌≢◌, ◌<◌, ◌↔◌, refl, ap, Bool, true, false, none, some, List, [], ◌∷◌,
  ◌++◌, ◌==◌, length, arith, Bool-cases, Option-cases, inl, inr, bytes_eq→eq, fun_ext, lt→ltb,
}
use sistemas_operativos.Shell.Text.{block_contains}
use sistemas_operativos.Shell.Command.{Cmd, null_cmd, exec_cmd, back_cmd, pipe_cmd}
use sistemas_operativos.Shell.Parsing.{Host, parse_line}
use sistemas_operativos.Shell.Run.{print_status_info}
use sistemas_operativos.Shell.Builtin.{
  Dirs, Builtin, exits, faults, answers, cd, pwd, exit_shell, history, text_exit,
}
use sistemas_operativos.Shell.Run.{
  Ran, goes_on, leaves, exited, crashed, launch, parse_and_launch, after_cd, run_cmd, read_bytes,
  line, read_line, Children, Session, over, aborted, starts, with_status, after_line, run_shell,
  buflen,
}

launch≢leaves : {D : Type 0} (c : Cmd) (prompt : List ℕ) (d : D) → launch c prompt d ≢ leaves
unfolding launch
launch≢leaves null_cmd prompt d e = cc
launch≢leaves (exec_cmd c) prompt d e = cc
launch≢leaves (back_cmd s c) prompt d e = cc
launch≢leaves (pipe_cmd l r) prompt d e = cc

module _ {D : Type 0} (sys : Dirs D) (host : Host) where
  parse_and_launch≢leaves :
      (cmd prompt : List ℕ) (d : D) → parse_and_launch sys host cmd prompt d ≢ leaves
  unfolding parse_and_launch
  parse_and_launch≢leaves cmd prompt d e =
      elim (Option-cases (parse_line (suc (length cmd)) host true (cmd ++ (0 ∷ (0 ∷ []))))) [
        | inl n ↦ absurd (crash (rw (parse_and_launch, n) at (e)))
        | inr (c, p) ↦ launch≢leaves c prompt d (rw (parse_and_launch, p) at (e))
      ]
    where
      crash : ◌≢◌ {A = Ran D} crashed leaves
      crash h = cc

  answered-leaves :
      (cmd prompt : List ℕ) (d : D)
      → after_cd sys host cmd (answers false prompt d) ≡ leaves
      → exit_shell cmd ≡ true
  unfolding after_cd
  answered-leaves cmd prompt d e = elim (Bool-cases (exit_shell cmd)) [
    | inl yes_exit ↦ yes_exit
    | inr no_exit ↦ elim (Bool-cases (pwd sys cmd d)) [
      | inl p ↦ absurd (other (rw (after_cd, no_exit, p) at (e)))
      | inr p ↦ absurd (parse_and_launch≢leaves cmd prompt d (rw (after_cd, no_exit, p) at (e)))
    ]
  ]
    where
      other : ◌≢◌ {A = Ran D} (goes_on prompt d) leaves
      other h = cc

  after_cd-leaves :
      (cmd : List ℕ) (b : Builtin D) → after_cd sys host cmd b ≡ leaves → exit_shell cmd ≡ true
  after_cd-leaves cmd exits e = absurd (other (unfold after_cd in e))
    where
      other : ◌≢◌ {A = Ran D} exited leaves
      other h = cc
  after_cd-leaves cmd faults e = absurd (other (unfold after_cd in e))
    where
      other : ◌≢◌ {A = Ran D} crashed leaves
      other h = cc
  after_cd-leaves cmd (answers true prompt d) e = absurd (other (unfold after_cd in e))
    where
      other : ◌≢◌ {A = Ran D} (goes_on prompt d) leaves
      other h = cc
  after_cd-leaves cmd (answers false prompt d) e = answered-leaves cmd prompt d e

-- `run_cmd` tells the shell to end exactly for the line "exit".
pub run_cmd-leaves_iff :
    {D : Type 0} (sys : Dirs D) (host : Host) (cmd prompt : List ℕ) (d : D)
    → (run_cmd sys host cmd prompt d ≡ leaves) ↔ (cmd ≡ text_exit)
unfolding run_cmd history exit_shell after_cd cd
run_cmd-leaves_iff sys host cmd prompt d = (to cmd, λ e. rw e refl)
  where
    to : (l : List ℕ) → run_cmd sys host l prompt d ≡ leaves → l ≡ text_exit
    to [] e = absurd (other e)
      where
        other : goes_on prompt d ≢ leaves
        other h = cc
    to (x ∷ l) e =
        bytes_eq→eq (x ∷ l) text_exit (after_cd-leaves sys host (x ∷ l) (cd sys (x ∷ l) prompt d) e)

-- The bytes of a line: no end of line and no NUL, and room for the NUL.
abbrev Solid : List ℕ → Type 0
Solid [] = Unit
Solid (c ∷ l) = (c ≢ 10) × ((c ≢ 0) × Solid l)

abbrev pub IsLine : List ℕ → Type 0
IsLine l = (length l < buflen) × Solid l

abbrev pub AllLines : List (List ℕ) → Type 0
AllLines [] = Unit
AllLines (l ∷ ls) = IsLine l × AllLines ls

abbrev pub typed : List (List ℕ) → List ℕ
typed [] = []
typed (l ∷ ls) = l ++ (10 ∷ typed ls)

read_bytes-line : (l rest : List ℕ) → Solid l → read_bytes (l ++ (10 ∷ rest)) ≡ some (l, rest)
unfolding read_bytes
read_bytes-line [] rest h = refl
read_bytes-line (c ∷ l) rest (a, (b, h)) =
    let other : (c == 10) ≡ false = ground arith in
    rw (read_bytes, other, read_bytes-line l rest h) refl

block_contains-Solid : (l : List ℕ) → Solid l → block_contains l 0 ≡ none
unfolding block_contains
block_contains-Solid [] h = refl
block_contains-Solid (c ∷ l) (a, (b, h)) =
    let other : (c == 0) ≡ false = ground arith in
    rw (block_contains, other, block_contains-Solid l h) refl

read_line-line : (l rest : List ℕ) → IsLine l → read_line (l ++ (10 ∷ rest)) ≡ line l rest
unfolding read_line
read_line-line l rest (short, h) =
    rw
      (
        read_line,
        read_bytes-line l rest h,
        lt→ltb (length l) buflen short,
        block_contains-Solid l h,
      )
      refl

module _ {D : Type 0} (sys : Dirs D) (children : Children D) where
  -- The lines one after the other. Behind a line that starts nothing the next one follows, and behind one that
  -- starts a command too, with `$?` changed if the shell waited for it; a line that leaves ends the shell, and one
  -- in which the shell itself ends or crashes aborts it.
  abbrev pub run_lines : List (List ℕ) → List (Cmd × Bool) → Host → List ℕ → D → Session
  run_lines [] done host prompt d = over done
  run_lines (l ∷ ls) done host prompt d = elim (run_cmd sys host l prompt d) [
    | goes_on prompt' d' ↦ run_lines ls done host prompt' d'
    | leaves ↦ over done
    | starts c true prompt' d' ↦
        run_lines ls (done ++ (c, true) ∷ [])
          (record host {
            status_digits = children.digits (print_status_info c (children.ends c d'));
          })
          prompt' d'
    | starts c false prompt' d' ↦ run_lines ls (done ++ (c, false) ∷ []) host prompt' d'
    | exited ↦ aborted done
    | crashed ↦ aborted done
  ]

  after_line-run_lines :
      (l : List ℕ) (ls : List (List ℕ)) (done : List (Cmd × Bool)) (host : Host) (prompt : List ℕ)
      (d : D)
      → after_line sys children (run_lines ls) done host (run_cmd sys host l prompt d)
        ≡ run_lines (l ∷ ls) done host prompt d
  after_line-run_lines l ls done host prompt d = by_result (run_cmd sys host l prompt d)
    where
      by_result :
          (r : Ran D)
          → after_line sys children (run_lines ls) done host r ≡ (elim r [
            | goes_on prompt' d' ↦ run_lines ls done host prompt' d'
            | leaves ↦ over done
            | starts c true prompt' d' ↦
                run_lines ls
                  (done ++ (c, true) ∷ [])
                  (record host {
                    status_digits = children.digits (print_status_info c (children.ends c d'));
                  })
                  prompt'
                  d'
            | starts c false prompt' d' ↦ run_lines ls (done ++ (c, false) ∷ []) host prompt' d'
            | exited ↦ aborted done
            | crashed ↦ aborted done
          ])
      by_result (goes_on prompt' d') = unfold after_line in refl
      by_result leaves = unfold after_line in refl
      by_result (starts c true prompt' d') = unfold after_line in unfold with_status in refl
      by_result (starts c false prompt' d') = unfold after_line in unfold with_status in refl
      by_result exited = unfold after_line in refl
      by_result crashed = unfold after_line in refl

  -- `run_shell` on input that consists of whole lines, each shorter than 1024 bytes and without a NUL, runs
  -- `run_cmd` on each line in turn, also behind built-ins and empty lines, until a line ends the shell or the
  -- input ends; the commands that it started are kept in order, and `$?` changes behind those that it waited for.
  -- More rounds than there are lines are enough.
  pub run_shell-lines :
      (ls : List (List ℕ)) (fuel : ℕ) (done : List (Cmd × Bool)) (host : Host) (prompt : List ℕ)
      (d : D)
      → AllLines ls
      → length ls < fuel
      → run_shell sys children fuel (typed ls) done host prompt d ≡ run_lines ls done host prompt d
  unfolding run_shell
  run_shell-lines ls zero done host prompt d ok lt = elim lt [ ]
  run_shell-lines [] (suc fuel) done host prompt d ok lt =
      unfold read_line in unfold read_bytes in refl
  run_shell-lines (l ∷ ls) (suc fuel) done host prompt d (ok, more) lt =
      let same : run_shell sys children fuel (typed ls) ≡ run_lines ls = fun_ext (λ done'.
        fun_ext (λ host'. fun_ext (λ prompt'.
          fun_ext
            (λ d'. run_shell-lines ls fuel done' host' prompt' d' more (omega (arith, lt)))))) in
      rw (run_shell, read_line-line l (typed ls) ok)
        (ap
            (λ (f : List (Cmd × Bool) → Host → List ℕ → D → Session).
              after_line sys children f done host (run_cmd sys host l prompt d))
            same
          ∙ after_line-run_lines l ls done host prompt d)
