-- ===== src/Sched/Format/Errors.antt =====
-- The texts of sched/lib/printfmt.c.
use sistemas_operativos.Prelude.{ℕ, Option, none, some, List, [], ◌∷◌, ◌==◌, if◌then◌else◌}

abbrev text_unspecified : List ℕ
text_unspecified =
    b'u' ∷ b'n' ∷ b's' ∷ b'p' ∷ b'e' ∷ b'c' ∷ b'i' ∷ b'f' ∷ b'i' ∷ b'e' ∷ b'd' ∷ 32 ∷ b'e' ∷ b'r'
    ∷ b'r' ∷ b'o' ∷ b'r' ∷ []

abbrev text_bad_env : List ℕ
text_bad_env =
    b'b' ∷ b'a' ∷ b'd' ∷ 32 ∷ b'e' ∷ b'n' ∷ b'v' ∷ b'i' ∷ b'r' ∷ b'o' ∷ b'n' ∷ b'm' ∷ b'e' ∷ b'n'
    ∷ b't' ∷ []

abbrev text_inval : List ℕ
text_inval =
    b'i' ∷ b'n' ∷ b'v' ∷ b'a' ∷ b'l' ∷ b'i' ∷ b'd' ∷ 32 ∷ b'p' ∷ b'a' ∷ b'r' ∷ b'a' ∷ b'm' ∷ b'e'
    ∷ b't' ∷ b'e' ∷ b'r' ∷ []

abbrev text_no_mem : List ℕ
text_no_mem =
    b'o' ∷ b'u' ∷ b't' ∷ 32 ∷ b'o' ∷ b'f' ∷ 32 ∷ b'm' ∷ b'e' ∷ b'm' ∷ b'o' ∷ b'r' ∷ b'y' ∷ []

abbrev text_no_free_env : List ℕ
text_no_free_env =
    b'o' ∷ b'u' ∷ b't' ∷ 32 ∷ b'o' ∷ b'f' ∷ 32 ∷ b'e' ∷ b'n' ∷ b'v' ∷ b'i' ∷ b'r' ∷ b'o' ∷ b'n'
    ∷ b'm' ∷ b'e' ∷ b'n' ∷ b't' ∷ b's' ∷ []

abbrev text_fault : List ℕ
text_fault =
    b's' ∷ b'e' ∷ b'g' ∷ b'm' ∷ b'e' ∷ b'n' ∷ b't' ∷ b'a' ∷ b't' ∷ b'i' ∷ b'o' ∷ b'n' ∷ 32 ∷ b'f'
    ∷ b'a' ∷ b'u' ∷ b'l' ∷ b't' ∷ []

abbrev text_ipc_not_recv : List ℕ
text_ipc_not_recv =
    b'e' ∷ b'n' ∷ b'v' ∷ 32 ∷ b'i' ∷ b's' ∷ 32 ∷ b'n' ∷ b'o' ∷ b't' ∷ 32 ∷ b'r' ∷ b'e' ∷ b'c' ∷ b'v'
    ∷ b'i' ∷ b'n' ∷ b'g' ∷ []

abbrev text_eof : List ℕ
text_eof =
    b'u' ∷ b'n' ∷ b'e' ∷ b'x' ∷ b'p' ∷ b'e' ∷ b'c' ∷ b't' ∷ b'e' ∷ b'd' ∷ 32 ∷ b'e' ∷ b'n' ∷ b'd'
    ∷ 32 ∷ b'o' ∷ b'f' ∷ 32 ∷ b'f' ∷ b'i' ∷ b'l' ∷ b'e' ∷ []

-- "error %d", "%s" and "(null)".
abbrev pub text_error : List ℕ
text_error = b'e' ∷ b'r' ∷ b'r' ∷ b'o' ∷ b'r' ∷ 32 ∷ b'%' ∷ b'd' ∷ []

abbrev pub text_percent_s : List ℕ
text_percent_s = b'%' ∷ b's' ∷ []

abbrev pub text_null : List ℕ
text_null = b'(' ∷ b'n' ∷ b'u' ∷ b'l' ∷ b'l' ∷ b')' ∷ 0 ∷ []

-- The messages in the order of the errors; the array has no entry for 0.
unfoldable pub error_string : ℕ → Option (List ℕ)
error_string err =
    if err == 1
    then some text_unspecified
    else if err == 2
    then some text_bad_env
    else if err == 3
    then some text_inval
    else if err == 4
    then some text_no_mem
    else if err == 5
    then some text_no_free_env
    else if err == 6
    then some text_fault
    else if err == 7
    then some text_ipc_not_recv
    else if err == 8
    then some text_eof
    else none
