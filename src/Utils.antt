-- ===== src/Utils.antt =====
-- lib/mp_utils.c: concatenation with separators, comparison with `!`, lists in an argument, patterns.
-- A `char*` that may be null is an `Option`; a string on the heap is its text, as each function makes
-- room for what it writes.
pub mod Concat
pub mod Push
pub mod Match
mod Tests
use monitoringplug.Base.{
  ℕ, zero, suc, ◌+◌, ◌-◌, ◌%◌, ◌^◌, Bool, true, false, not, Option, none, some, List, [], ◌∷◌, ◌++◌,
  Bytes, codes, length, take, get_elem?, ltb, ◌==◌, if◌then◌else◌,
}
use monitoringplug.Base.Int.{ℤ, pos, negsuc}
use monitoringplug.Text.{str_eq, starts_with, strsep, strtol}

-- the three functions, which differ in the separator
unfoldable pub strcat_with : Bytes → Option Bytes → Option Bytes → Option Bytes
strcat_with separator target none = target
strcat_with separator none (some source) = some source
strcat_with separator (some target) (some source) = some (target ++ (separator ++ source))

unfoldable pub strcat : Option Bytes → Option Bytes → Option Bytes
unfolding strcat_with
strcat = strcat_with []

unfoldable pub strcat_space : Option Bytes → Option Bytes → Option Bytes
unfolding strcat_with
strcat_space = strcat_with (codes " ")

unfoldable pub strcat_comma : Option Bytes → Option Bytes → Option Bytes
unfolding strcat_with
strcat_comma = strcat_with (codes ", ")

-- `mp_strcmp(s1, s2) != 0`
unfoldable pub strcmp : Bytes → Bytes → Bool
unfolding str_eq
strcmp [] s2 = not (str_eq [] s2)
strcmp (c ∷ p) s2 = if c == b'!' then str_eq p s2 else not (str_eq (c ∷ p) s2)

abbrev pub is_comma : ℕ → Bool
is_comma c = c == b','

-- `while(obj != NULL)` of `mp_array_push`, on fuel; the array's length is `*num`
unfoldable pub push_loop : ℕ → List Bytes → Option Bytes → List Bytes
unfolding strsep
push_loop zero array obj = array
push_loop (suc fuel) array none = array
push_loop (suc fuel) array (some obj) =
    let (item, rest) = strsep is_comma obj in push_loop fuel (array ++ item ∷ []) rest

-- the fuel that is enough: every round but the last takes a comma
abbrev pub rounds : Option Bytes → ℕ
rounds none = 1
rounds (some obj) = length obj + 2

unfoldable pub array_push : List Bytes → Option Bytes → List Bytes
unfolding push_loop
array_push array obj = push_loop (rounds obj) array obj

-- `(int)` of a `long`: the low 32 bits, with the sign that they give
unfoldable pub to_int : ℤ → ℤ
to_int (pos n) =
    let low = n % 2 ^ 32 in if ltb low (2 ^ 31) then pos low else negsuc (2 ^ 32 - 1 - low)
to_int (negsuc n) =
    let low = n % 2 ^ 32 in if ltb low (2 ^ 31) then negsuc low else pos (2 ^ 32 - 1 - low)

unfoldable pub push_int_loop : ℕ → List ℤ → Option Bytes → List ℤ
unfolding strsep strtol to_int
push_int_loop zero array obj = array
push_int_loop (suc fuel) array none = array
push_int_loop (suc fuel) array (some obj) =
    let (item, rest) = strsep is_comma obj in
    push_int_loop fuel (array ++ to_int (strtol item).0 ∷ []) rest

unfoldable pub array_push_int : List ℤ → Option Bytes → List ℤ
unfolding push_int_loop
array_push_int array obj = push_int_loop (rounds obj) array obj

-- `mp_strmatch`; `none` is the read of `match[-1]`
unfoldable pub strmatch : Bytes → Bytes → Option Bool
unfolding str_eq starts_with
strmatch string [] = none
strmatch string (c ∷ p) = elim (get_elem? (c ∷ p) (length p)) [
  | none ↦ none
  | some last ↦
      some (
        if last == b'*'
        then starts_with string (take (length p) (c ∷ p))
        else str_eq string (c ∷ p))
]
