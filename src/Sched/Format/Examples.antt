-- ===== src/Sched/Format/Examples.antt =====
-- The theorems on sched/lib/printfmt.c at concrete inputs, and a test of the whole formatter.
use sistemas_operativos.Prelude.{
  ℕ, suc, ◌+◌, ◌-◌, ◌^◌, ◌≡◌, refl, some, List, [], ◌∷◌, ◌++◌, arith, take, length, length-append,
}
use sistemas_operativos.Sched.Strings.{strnlen}
use sistemas_operativos.Sched.Strings.Convert.{strtol}
use sistemas_operativos.Sched.Format.Errors.{error_string}
use sistemas_operativos.Sched.Format.Number.{pad, printnum, put_string, digits_text}
use sistemas_operativos.Sched.Format.Directive.{Arg, word, text, reswitch, flag, process_precision}
use sistemas_operativos.Sched.Format.Print.{
  done, number, pad_before, string, error, convert, convert_error, convert_word, base_of, getuint,
  escape, vprintfmt, vsnprintf,
}
use sistemas_operativos.Sched.Format.Fold.{map_printed}
use sistemas_operativos.Sched.Format.Buffer.{collect, vsnprintf_lem}
use sistemas_operativos.Sched.Format.Ends.{Ends, vprintfmt-Ends}
use sistemas_operativos.Sched.Format.Digits.{keep, strtol-printnum}

-- "%04x%3s" with 0xbeef and "ab".
abbrev beef : List ℕ
beef = b'%' ∷ b'0' ∷ b'6' ∷ b'x' ∷ b'%' ∷ b'3' ∷ b's' ∷ []

abbrev beef_args : List Arg
beef_args = word 0xbeef ∷ text (b'a' ∷ b'b' ∷ 0 ∷ []) ∷ []

-- "00beef ab"
beef_test :
    vprintfmt keep 20 beef beef_args []
    ≡ done (b'0' ∷ b'0' ∷ b'b' ∷ b'e' ∷ b'e' ∷ b'f' ∷ 32 ∷ b'a' ∷ b'b' ∷ [])
unfolding vprintfmt escape convert reswitch flag process_precision base_of getuint number printnum
    pad digits_text convert_word string pad_before put_string strnlen
beef_test = refl

-- "%e" with -4.
no_mem_test :
    vprintfmt keep 20 (b'%' ∷ b'e' ∷ []) (word (2 ^ 32 - 4) ∷ []) []
    ≡ vprintfmt keep 20
        (b'o' ∷ b'u' ∷ b't' ∷ 32 ∷ b'o' ∷ b'f' ∷ 32 ∷ b'm' ∷ b'e' ∷ b'm' ∷ b'o' ∷ b'r' ∷ b'y' ∷ [])
        []
        []
unfolding vprintfmt escape convert reswitch flag base_of convert_error error error_string
    convert_word string pad pad_before put_string
no_mem_test = refl

counts : (c : ℕ) (out : List ℕ) → length (keep c out) ≡ length out + 1
counts c out = length-append out (c ∷ [])

vsnprintf_example :
    vsnprintf 20 5 beef beef_args
    ≡ some (
        map_printed
          (λ (out : List ℕ). (take 4 out ++ (0 ∷ []), length out))
          (vprintfmt collect 20 beef beef_args []))
vsnprintf_example = vsnprintf_lem 20 4 beef beef_args

vprintfmt-Ends_example :
    Ends (vprintfmt keep 20 beef beef_args [])
    × (printnum keep (suc 0xbeef + 5) 0xbeef 16 6 48 []
        ≡ printnum keep (suc 0xbeef) 0xbeef 16 6 48 [])
vprintfmt-Ends_example =
    vprintfmt-Ends keep 20 beef beef_args [] 5 0xbeef 16 6 48 (omega arith) (omega arith)

strtol-printnum_example : strtol (printnum keep 256 255 16 6 32 []) 16 ≡ (255, [])
strtol-printnum_example = strtol-printnum 16 255 6 (omega arith) (omega arith) (omega arith)
