-- ===== src/Sched/Debug/Info.antt =====
-- `debuginfo_eip` of sched/kern/kdebug.c. The debugging entries and the strings behind the addresses of the
-- tables are parameters, since the model's memory holds page tables only.
use sistemas_operativos.Prelude.{
  ℕ, zero, suc, ◌+◌, ◌-◌, ◌*◌, ◌/◌, ◌%◌, ◌^◌, Bool, true, false, not, ◌&&◌, ◌||◌, Option, none,
  some, List, ltb, leb, ◌==◌, if◌then◌else◌, drop, get_or,
}
use sistemas_operativos.Sched.Strings.{strfind}
use sistemas_operativos.Sched.Memory.Defs.{Mem}
use sistemas_operativos.Sched.Memory.Tables.{Check, granted, denied, user_mem_check}
use sistemas_operativos.Sched.Debug.Search.{Stab, Region, stab_binsearch}

abbrev pub n_fun : ℕ
n_fun = 0x24

abbrev pub n_sline : ℕ
n_sline = 0x44

abbrev pub n_so : ℕ
n_so = 0x64

abbrev pub n_sol : ℕ
n_sol = 0x84

abbrev pub n_psym : ℕ
n_psym = 0xa0

-- `struct UserStabData`, or the symbols of the kernel's linker script, with what stands at them.
pub record StabData : Type 0 where
  pub stabs : ℕ
  pub stab_end : ℕ
  pub stabstr : ℕ
  pub stabstr_end : ℕ
  pub entry : ℕ → Stab
  pub strings : List ℕ

-- "<unknown>", or an index of the string table.
pub data Name : Type 0 where
  unknown : Name
  string_at : ℕ → Name

-- `struct Eipdebuginfo`
pub record Eipdebuginfo : Type 0 where
  pub eip_file : Name
  pub eip_line : ℕ
  pub eip_fn_name : Name
  pub eip_fn_namelen : ℕ
  pub eip_fn_addr : ℕ
  pub eip_fn_narg : ℕ

-- "Make sure this memory is valid": the structure, and the two tables. `none` is a walk that stops.
abbrev pub and_granted : Option Check → Option Bool → Option Bool
and_granted none rest = none
and_granted (some granted) rest = rest
and_granted (some (denied va)) rest = some false

unfoldable pub user_tables_valid : ℕ → StabData → Mem → Option Bool
user_tables_valid pgdir u m = and_granted (user_mem_check pgdir 0x200000 16 0 m) (
    and_granted (user_mem_check pgdir u.stabs ((u.stab_end - u.stabs) / 12) 0 m)
      (and_granted (user_mem_check pgdir u.stabstr (u.stabstr_end - u.stabstr) 0 m) (some true)))

module _ (t : StabData) where
  abbrev pub string_size : ℕ
  string_size = t.stabstr_end - t.stabstr

  -- "String table validity checks"
  unfoldable pub strings_valid : Bool
  strings_valid = ltb t.stabstr t.stabstr_end && get_or t.strings (string_size - 1) 1 == 0

  -- With two rounds for each entry, and two more.
  abbrev pub search : ℕ → Region → ℕ → Option Region
  search type r addr = stab_binsearch t.entry type (2 * (r.behind - r.left) + 2) r addr

  unfoldable pub name_of : Stab → Name → Name
  name_of s other = if ltb s.n_strx string_size then string_at s.n_strx else other

  -- "Ignore stuff after the colon."
  unfoldable pub name_length : Name → Option ℕ
  name_length unknown = some 9
  name_length (string_at n) = strfind (drop n t.strings) b':'

  -- The function's entry, where one was found, and where the lines are searched: the function or the file.
  unfoldable pub found_function : Region → Region → ℕ → Eipdebuginfo → Eipdebuginfo × (ℕ × Region)
  found_function file fn addr info =
      if ltb fn.left fn.behind
      then (let s = t.entry fn.left in
          (
            record info { eip_fn_name = name_of s info.eip_fn_name; eip_fn_addr = s.n_value },
            ((addr + 2 ^ 32 - s.n_value) % 2 ^ 32, fn),
          ))
      else (record info { eip_fn_addr = addr }, (addr, file))

  abbrev pub names_file : Stab → Bool
  names_file s = s.n_type == n_sol || s.n_type == n_so && not (s.n_value == 0)

  -- "Search backwards from the line number for the relevant filename stab": at most `n` entries, from
  -- `line` down.
  unfoldable pub file_stab : ℕ → ℕ → Option ℕ
  file_stab zero line = none
  file_stab (suc n) line =
      let rest = file_stab n (line - 1) in if names_file (t.entry line) then some line else rest

  unfoldable pub file_name : Region → Region → Eipdebuginfo → Eipdebuginfo
  file_name file line info = elim (file_stab (line.left + 1 - file.left) line.left) [
    | none ↦ info
    | some i ↦ record info { eip_file = name_of (t.entry i) info.eip_file }
  ]

  -- The parameters that follow the function's entry, at most `n`.
  unfoldable pub count_args : ℕ → ℕ → ℕ
  count_args zero i = 0
  count_args (suc n) i =
      let rest = count_args n (i + 1) in if (t.entry i).n_type == n_psym then suc rest else 0

  unfoldable pub line_number : Region → Eipdebuginfo → Eipdebuginfo
  line_number line info =
      if ltb line.left line.behind
      then record info { eip_line = (t.entry line.left).n_desc }
      else info

  unfoldable pub with_args : Region → Eipdebuginfo → Eipdebuginfo
  with_args fn info = record info {
    eip_fn_narg = count_args (fn.behind - 1 - (fn.left + 1)) (fn.left + 1);
  }

  -- From the line search on. The result is `true` for 0 and `false` for -1.
  unfoldable pub describe_line : Region → Region → Region → Eipdebuginfo → Bool × Eipdebuginfo
  describe_line file fn line info =
      (true, with_args fn (file_name file line (line_number line info)))

  unfoldable pub describe_function :
      Region → Region → ℕ → Eipdebuginfo → Option (Bool × Eipdebuginfo)
  describe_function file fn addr info =
      let (found, (rest, lines)) = found_function file fn addr info in
      elim (name_length found.eip_fn_name) [
        | none ↦ none
        | some len ↦ elim (search n_sline lines rest) [
          | none ↦ none
          | some line ↦ some (describe_line file fn line (record found { eip_fn_namelen = len }))
        ]
      ]

  -- "First, we find the basic source file", "then the function".
  unfoldable pub search_tables : ℕ → Eipdebuginfo → Option (Bool × Eipdebuginfo)
  search_tables addr info =
      elim (search n_so (record { left = 0; behind = (t.stab_end - t.stabs) / 12 }) addr) [
        | none ↦ none
        | some file ↦
            if file.left == 0 then some (false, info) else (elim (search n_fun file addr) [
              | none ↦ none
              | some fn ↦ describe_function file fn addr info
            ])
      ]

  unfoldable pub checked_tables : ℕ → Eipdebuginfo → Option (Bool × Eipdebuginfo)
  checked_tables addr info =
      let found = search_tables addr info in if strings_valid then found else some (false, info)

abbrev pub no_info : ℕ → Eipdebuginfo
no_info addr = record {
  eip_file = unknown;
  eip_line = 0;
  eip_fn_name = unknown;
  eip_fn_namelen = 9;
  eip_fn_addr = addr;
  eip_fn_narg = 0;
}

-- `none` where a page walk stops, where a left end is -1, or where the fuel of a search does not reach.
unfoldable pub debuginfo_eip : StabData → StabData → ℕ → Mem → ℕ → Option (Bool × Eipdebuginfo)
debuginfo_eip kernel user pgdir m addr =
    if leb 0xef800000 addr
    then checked_tables kernel addr (no_info addr)
    else (elim (user_tables_valid pgdir user m) [
      | none ↦ none
      | some false ↦ some (false, no_info addr)
      | some true ↦ checked_tables user addr (no_info addr)
    ])
