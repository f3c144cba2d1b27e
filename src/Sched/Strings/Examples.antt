-- ===== src/Sched/Strings/Examples.antt =====
-- The theorems on sched/lib/string.c at concrete inputs.
use sistemas_operativos.Prelude.{ℕ, List, [], ◌∷◌}

abbrev ls : List ℕ
ls = b'l' ∷ b's' ∷ []

abbrev lp : List ℕ
lp = b'l' ∷ b'p' ∷ []
