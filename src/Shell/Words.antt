-- ===== src/Shell/Words.antt =====
-- `parse_exec` of shell/parsing.c against a description that cuts the string at every space.
use sistemas_operativos.Prelude.{
  ℕ, zero, suc, ◌≤◌, ◌<◌, ◌≡◌, refl, inl, inr, Option, none, some, List, [], ◌∷◌, arith, ◌==◌,
  Option-cases, length, drop, if◌then◌else◌,
}
use sistemas_operativos.Shell.Text.{token_at, get_token}
use sistemas_operativos.Shell.Command.{ExecCmd, exec_cmd_create}
use sistemas_operativos.Shell.Parsing.{Host, parse_token, parse_tokens, parse_exec}

abbrev to_first : ℕ → List (List ℕ) → List (List ℕ)
to_first x [] = (x ∷ []) ∷ []
to_first x (w ∷ ws) = (x ∷ w) ∷ ws

-- The pieces between the spaces, the empty ones too; a space at the end is followed by none.
abbrev pub words : List ℕ → List (List ℕ)
words [] = []
words (x ∷ xs) = if x == b' ' then [] ∷ words xs else to_first x (words xs)

-- The tokens one after the other.
abbrev pub run_words : Host → ExecCmd → List (List ℕ) → Option ExecCmd
run_words host c [] = some c
run_words host c (w ∷ ws) = elim (parse_token host c w) [
  | none ↦ none
  | some c' ↦ run_words host c' ws
]

token_length : (s : List ℕ) → length (token_at s).0 ≤ length s
unfolding token_at
token_length [] = omega arith
token_length (x ∷ xs) = ground (arith, token_length xs)

rest_length : (x : ℕ) (xs : List ℕ) → length (drop 1 (token_at (x ∷ xs)).1) ≤ length xs
unfolding token_at
rest_length x [] = ground arith
rest_length x (y ∷ ys) = ground (arith, rest_length y ys)

words-token :
    (x : ℕ) (xs : List ℕ)
    → words (x ∷ xs) ≡ (token_at (x ∷ xs)).0 ∷ words (drop 1 (token_at (x ∷ xs)).1)
unfolding token_at
words-token x [] = ground arith
words-token x (y ∷ ys) = ground (arith, words-token y ys)

token_fits : (s : List ℕ) → length s < 1024 → get_token s ≡ some (token_at s)
unfolding get_token
token_fits s h = let fits = token_length s in ground arith

parse_tokens-run_words :
    (fuel : ℕ) (host : Host) (c : ExecCmd) (s : List ℕ)
    → length s ≤ fuel
    → length s < 1024
    → parse_tokens fuel host c s ≡ run_words host c (words s)
unfolding parse_tokens
parse_tokens-run_words fuel host c [] enough fits = refl
parse_tokens-run_words zero host c (x ∷ xs) enough fits = absurd (omega arith)
parse_tokens-run_words (suc fuel) host c (x ∷ xs) enough fits =
    elim (Option-cases (parse_token host c ((token_at (x ∷ xs)).0))) [
      | inl e ↦ rw (words-token x xs, parse_tokens, token_fits (x ∷ xs) fits, run_words, e) refl
      | inr (c', e) ↦
          rw (words-token x xs, parse_tokens, token_fits (x ∷ xs) fits, run_words, e)
            (parse_tokens-run_words fuel host c' (drop 1 (token_at (x ∷ xs)).1)
              (omega (arith, rest_length x xs)) (omega (arith, rest_length x xs)))
    ]

-- Of a string below 1024 bytes `parse_exec` takes the pieces between the spaces, in order, as its
-- tokens; its loop ends.
pub parse_exec-run_words :
    (host : Host) (s : List ℕ)
    → length s < 1024
    → parse_exec host s ≡ run_words host (exec_cmd_create s) (words s)
unfolding parse_exec
parse_exec-run_words host s fits =
    parse_tokens-run_words (length s) host (exec_cmd_create s) s (omega arith) fits
