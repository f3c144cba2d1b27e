-- ===== src/Sched/Debug/Examples.antt =====
-- sched/kern/kdebug.c on small tables of debugging entries.
use sistemas_operativos.Prelude.{ℕ, ◌+◌, ◌≡◌, refl, some, List, [], ◌∷◌, true, arith, get_or}
use sistemas_operativos.Sched.Strings.{strfind}
use sistemas_operativos.Sched.Debug.Search.{
  Stab, Region, stab_binsearch, find_down, at_match, search_step, search_loop, search_end,
}
use sistemas_operativos.Sched.Debug.Bracket.{Brackets, stab_binsearch_lem}
use sistemas_operativos.Sched.Debug.Info.{
  StabData, string_at, n_fun, n_sline, n_so, no_info, checked_tables, strings_valid, search_tables,
  describe_function, describe_line, found_function, file_stab, file_name, name_of, name_length,
  line_number, with_args, count_args,
}

abbrev stab : ℕ → ℕ → ℕ → ℕ → Stab
stab strx type desc value = record {
  n_strx = strx;
  n_type = type;
  n_other = 0;
  n_desc = desc;
  n_value = value;
}

-- The entries 0, 10, 20, … of one type.
abbrev tens : ℕ → Stab
tens i = stab 0 n_so 0 (i + i + i + i + i + i + i + i + i + i)

abbrev ten_entries : Region
ten_entries = record { left = 0; behind = 10 }

stab_binsearch_example :
    (e : Region) × ((stab_binsearch tens n_so 22 ten_entries 45 ≡ some e)
      × Brackets tens n_so ten_entries 45 e)
stab_binsearch_example =
    stab_binsearch_lem tens n_so ten_entries 45 22 4 (λ i j a b c t t'. omega (arith, b))
      (λ j a b t e. omega (arith, e)) (omega arith) (omega arith) (omega arith) refl (omega arith)
      (omega arith)

-- With an entry at each of 9, 10, 11 and 12 the search for 10 ends at the one for 12.
adjacent_test :
    stab_binsearch
      (λ (i : ℕ). stab 0 n_sline 0 (9 + i))
      n_sline
      22
      (record { left = 0; behind = 4 })
      10
    ≡ some (record { left = 3; behind = 4 })
unfolding stab_binsearch find_down at_match search_step search_loop search_end
adjacent_test = refl

-- A file "f" with one function "g:" at 0xf0100000, which has one line, 7, at its start.
abbrev small_table : List Stab
small_table =
    stab 0 0 0 0 ∷ stab 1 n_so 0 0xf0100000 ∷ stab 3 n_fun 0 0xf0100000 ∷ stab 0 n_sline 7 0 ∷ []

abbrev small_data : StabData
small_data = record {
  stabs = 0xf0200000;
  stab_end = 0xf0200030;
  stabstr = 0xf0300000;
  stabstr_end = 0xf0300006;
  entry = λ (i : ℕ). get_or small_table i (stab 0 0 0 0);
  strings = 0 ∷ b'f' ∷ 0 ∷ b'g' ∷ b':' ∷ 0 ∷ [];
}

-- In the kernel no memory is checked.
debuginfo_test :
    checked_tables small_data 0xf0100004 (no_info 0xf0100004)
    ≡ some (
      true,
      record {
        eip_file = string_at 1;
        eip_line = 7;
        eip_fn_name = string_at 3;
        eip_fn_namelen = 1;
        eip_fn_addr = 0xf0100000;
        eip_fn_narg = 0;
      },
    )
unfolding checked_tables strings_valid search_tables describe_function describe_line found_function
    file_stab file_name name_of name_length line_number with_args count_args stab_binsearch
    find_down at_match search_step search_loop search_end strfind
debuginfo_test = refl
