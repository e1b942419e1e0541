-- ===== src/Eopt.antt =====
-- lib/mp_eopt.c: options from a file. The file system is a parameter: a file's content under its name.
-- `optind` is an argument, and both results of `mp_eopt` are returned: the argument vector, whose length
-- is `*argc`. `argv` has a null pointer at its end, which is not counted.
pub mod Lines
pub mod Items
mod Tests
use monitoringplug.Base.{
  ℕ, zero, suc, ◌+◌, ◌-◌, Bool, true, false, not, ◌||◌, ◌&&◌, Option, none, some, List, [], ◌∷◌,
  ◌++◌, Bytes, codes, length, take, drop, get_elem?, ltb, ◌==◌, if◌then◌else◌,
}
use monitoringplug.Text.{head, str_eq, strsep, is_space, fgets_upto}

-- What `mp_eopt` ends with: a read through a null pointer, the vector it was given, or a new one.
pub data Outcome : Type 0 where
  fault unchanged : Outcome
  merged : List Bytes → Outcome

unfoldable pub is_complete : Bytes → Bool
is_complete [] = false
is_complete (c ∷ []) = c == b'\n'
is_complete (c ∷ d ∷ s) = is_complete (d ∷ s)

-- "R-Trim"
unfoldable pub rtrim : Bytes → Bytes
unfolding is_space
rtrim [] = []
rtrim (c ∷ s) = elim (rtrim s) [ [] ↦ if is_space c then [] else c ∷ [] | d ∷ t ↦ c ∷ d ∷ t ]

-- `buffer[len] == ']'`, and the text without that last character
unfoldable pub ends_bracket : Bytes → Bool
ends_bracket [] = false
ends_bracket (c ∷ []) = c == b']'
ends_bracket (c ∷ d ∷ s) = ends_bracket (d ∷ s)

abbrev pub without_last : Bytes → Bytes
without_last s = take (length s - 1) s

-- `current_section` and `new_argv`
pub record Reader : Type 0 where
  pub current : Bool
  pub new_argv : List Bytes

-- "--key" or "-k"
unfoldable pub option_of : Bytes → Bytes
option_of key = if ltb 1 (length key) then b'-' ∷ b'-' ∷ key else b'-' ∷ key

-- the arguments of a line `key=val`; `none` is `*val` with no `=` in the line
unfoldable pub arguments : Bytes × Option Bytes → Option (List Bytes)
unfolding option_of
arguments (key, none) = none
arguments (key, some []) = some (option_of key ∷ [])
arguments (key, some (c ∷ val)) = some (option_of key ∷ (c ∷ val) ∷ [])

abbrev pub is_equals : ℕ → Bool
is_equals c = c == b'='

abbrev pub is_comment : Bytes → Bool
is_comment s = head s == b'#' || head s == b';'

-- one line, trimmed; `none` is a fault
unfoldable pub handle_line : Bytes → Bytes → Reader → Option Reader
unfolding ends_bracket arguments strsep str_eq
handle_line section line r =
    if ltb (length line) 2
    then some r
    else if is_comment line
    then some r
    else if head line == b'[' && ends_bracket line
    then some (record r { current = str_eq section (drop 1 (without_last line)) })
    else if not r.current
    then some r
    else elim (arguments (strsep is_equals line)) [
      | none ↦ none
      | some args ↦ some (record r { new_argv = r.new_argv ++ args })
    ]

-- What reading the file ends with.
pub data Reading : Type 0 where
  broken too_long : Reading
  read : Reader → Reading

-- `while (fgets(buffer, 256, fd) != NULL)`, with fuel for the lines
unfoldable pub read_lines : ℕ → Bytes → Bytes → Reader → Reading
unfolding fgets_upto is_complete rtrim handle_line
read_lines zero section file r = broken
read_lines (suc fuel) section [] r = read r
read_lines (suc fuel) section (c ∷ file) r =
    let (line, rest) = fgets_upto 255 (c ∷ file) in
    if not (is_complete line) then too_long else elim (handle_line section (rtrim line) r) [
      | none ↦ broken
      | some s ↦ read_lines fuel section rest s
    ]

-- every line takes a byte of the file
abbrev pub read_file : Bytes → Bytes → Reading
read_file section file =
    read_lines (length file + 1) section file (record { current = false; new_argv = [] })

abbrev pub default_file : Bytes
default_file = codes "/etc/nagios/monitoringplug.ini"

-- "[section][@file]": the section and the file
unfoldable pub parse_optarg : Bytes → Option Bytes → Bytes × Bytes
unfolding strsep
parse_optarg progname none = (progname, default_file)
parse_optarg progname (some []) = ([], default_file)
parse_optarg progname (some (c ∷ s)) =
    if c == b'@'
    then (progname, s)
    else let (section, rest) = strsep (λ d. d == b'@') (c ∷ s) in
      (section, elim rest [ none ↦ default_file | some file ↦ file ])

-- the new arguments between those before `optind` and the rest
unfoldable pub merge : ℕ → List Bytes → List Bytes → List Bytes
merge optind orig_argv new_argv = take optind orig_argv ++ (new_argv ++ drop optind orig_argv)

module _ (fopen : Bytes → Option Bytes) (progname : Bytes) where
  unfoldable pub eopt_with : ℕ → List Bytes → Option Bytes → Outcome
  unfolding parse_optarg read_lines merge
  eopt_with optind orig_argv optarg =
      let (section, file) = parse_optarg progname optarg in
      elim (fopen file) [
        | none ↦ unchanged
        | some content ↦ elim (read_file section content) [
          | broken ↦ fault
          | too_long ↦ unchanged
          | read r ↦ merged (merge optind orig_argv r.new_argv)
        ]
      ]

  -- the argument behind the option is taken if it does not begin with `-`
  unfoldable pub eopt : ℕ → List Bytes → Option Bytes → Outcome
  unfolding eopt_with
  eopt optind orig_argv (some optarg) = eopt_with optind orig_argv (some optarg)
  eopt optind orig_argv none = elim (get_elem? orig_argv optind) [
    | none ↦ fault
    | some next ↦
        if not (head next == b'-')
        then eopt_with (optind + 1) orig_argv (some next)
        else eopt_with optind orig_argv none
  ]
