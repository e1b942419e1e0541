-- ===== src/Text.antt =====
-- What the C library gives on strings, as far as the program uses it: `strcmp`, `strncmp`, `strchr`,
-- `strspn`, `strsep`, `strtol`, `fgets`, the classes of <ctype.h> in the C locale, and the directives `%d`,
-- `%ld` and `%02X` of `printf`. A string is the list of its bytes, with no NUL in it.
pub mod Laws
pub mod Decimal
pub mod Lines
use monitoringplug.Base.{
  ℕ, zero, suc, ◌+◌, ◌-◌, ◌*◌, ◌/◌, ◌%◌, ◌^◌, Bool, true, false, ◌&&◌, ◌||◌, Option, none, some,
  List, [], ◌∷◌, ◌++◌, Bytes, ltb, leb, ◌==◌, if◌then◌else◌,
}
use monitoringplug.Base.Int.{ℤ, pos, negsuc}

-- `s[0]`, which is the NUL of an empty string.
abbrev pub head : Bytes → ℕ
head [] = 0
head (c ∷ s) = c

-- `strcmp(s, t) == 0`
unfoldable pub str_eq : Bytes → Bytes → Bool
str_eq [] [] = true
str_eq (c ∷ s) (d ∷ t) = c == d && str_eq s t
str_eq _ _ = false

-- `strncmp(s, p, strlen(p)) == 0`
unfoldable pub starts_with : Bytes → Bytes → Bool
starts_with s [] = true
starts_with [] (d ∷ p) = false
starts_with (c ∷ s) (d ∷ p) = c == d && starts_with s p

-- `strchr(s, b) != NULL`
unfoldable pub contains : ℕ → Bytes → Bool
contains b [] = false
contains b (c ∷ s) = c == b || contains b s

-- `strspn`, the set given by its test.
unfoldable pub strspn : (ℕ → Bool) → Bytes → ℕ
strspn p [] = 0
strspn p (c ∷ s) = if p c then suc (strspn p s) else 0

-- `strsep(&s, set)`: the token, and what `s` points to afterwards, `none` for NULL.
unfoldable pub strsep : (ℕ → Bool) → Bytes → Bytes × Option Bytes
strsep p [] = ([], none)
strsep p (c ∷ s) = let (token, rest) = strsep p s in if p c then ([], some s) else (c ∷ token, rest)

abbrev pub within : ℕ → ℕ → ℕ → Bool
within lo hi c = leb lo c && leb c hi

unfoldable pub is_digit : ℕ → Bool
is_digit c = within b'0' b'9' c

unfoldable pub is_alpha : ℕ → Bool
is_alpha c = within b'a' b'z' c || within b'A' b'Z' c

unfoldable pub is_alnum : ℕ → Bool
unfolding is_digit is_alpha
is_alnum c = is_alpha c || is_digit c

unfoldable pub is_xdigit : ℕ → Bool
unfolding is_digit
is_xdigit c = is_digit c || within b'a' b'f' c || within b'A' b'F' c

-- blank, and \t \n \v \f \r
unfoldable pub is_space : ℕ → Bool
is_space c = c == 32 || within 9 13 c

abbrev pub long_max : ℕ
long_max = 2 ^ 63 - 1

-- the digits of `strtol`, exactly
unfoldable pub digits_value : ℕ → Bytes → ℕ
unfolding is_digit
digits_value n [] = n
digits_value n (c ∷ s) =
    let rest = digits_value (n * 10 + (c - b'0')) s in if is_digit c then rest else n

-- a signed magnitude as a 64-bit `long`; the flag is `errno == ERANGE`
unfoldable pub clamp_long : Bool → ℕ → ℤ × Bool
clamp_long false n = if ltb long_max n then (pos long_max, true) else (pos n, false)
clamp_long true zero = (pos 0, false)
clamp_long true (suc n) = if ltb long_max n then (negsuc long_max, true) else (negsuc n, false)

unfoldable pub strtol_signed : Bytes → ℤ × Bool
unfolding digits_value clamp_long
strtol_signed [] = (pos 0, false)
strtol_signed (c ∷ s) =
    if c == b'-'
    then clamp_long true (digits_value 0 s)
    else clamp_long false (digits_value 0 (if c == b'+' then s else c ∷ s))

-- `strtol(s, NULL, 10)` and whether it was out of range
unfoldable pub strtol : Bytes → ℤ × Bool
unfolding strtol_signed is_space
strtol [] = (pos 0, false)
strtol (c ∷ s) = let rest = strtol s in if is_space c then rest else strtol_signed (c ∷ s)

-- `%d` of a number that is not negative, with fuel for its digits
unfoldable pub decimal_onto : ℕ → ℕ → Bytes → Bytes
decimal_onto zero n out = out
decimal_onto (suc fuel) n out =
    let here = (b'0' + n % 10) ∷ out in
    let more = decimal_onto fuel (n / 10) here in if n / 10 == 0 then here else more

-- 20 digits hold every 64-bit number
unfoldable pub decimal : ℕ → Bytes
unfolding decimal_onto
decimal n = decimal_onto 20 n []

-- `%ld`
unfoldable pub decimal_ℤ : ℤ → Bytes
unfolding decimal
decimal_ℤ (pos n) = decimal n
decimal_ℤ (negsuc n) = b'-' ∷ decimal (suc n)

unfoldable pub hex_digit : ℕ → ℕ
hex_digit d = if ltb d 10 then b'0' + d else b'A' + (d - 10)

-- `%02X` of a number below 256
unfoldable pub hex_byte : ℕ → Bytes
unfolding hex_digit
hex_byte b = hex_digit (b / 16) ∷ hex_digit (b % 16) ∷ []

-- `fgets(s, n + 1, stream)`: at most n bytes, up to a newline, and what is left in the file
unfoldable pub fgets_upto : ℕ → Bytes → Bytes × Bytes
fgets_upto zero file = ([], file)
fgets_upto (suc n) [] = ([], [])
fgets_upto (suc n) (c ∷ file) =
    let (line, rest) = fgets_upto n file in if c == b'\n' then (c ∷ [], file) else (c ∷ line, rest)

-- the value of a hexadecimal digit
unfoldable pub hex_value : ℕ → Option ℕ
hex_value c =
    if within b'0' b'9' c
    then some (c - b'0')
    else if within b'a' b'f' c
    then some (c - b'a' + 10)
    else if within b'A' b'F' c
    then some (c - b'A' + 10)
    else none

unfoldable pub hex_digits_value : ℕ → Bytes → ℕ
unfolding hex_value
hex_digits_value n [] = n
hex_digits_value n (c ∷ s) = elim (hex_value c) [
  | none ↦ n
  | some d ↦ hex_digits_value (n * 16 + d) s
]

-- the prefix "0x" or "0X" is skipped where a digit stands behind it
unfoldable pub without_prefix : Bytes → Bytes
unfolding hex_value
without_prefix (c ∷ d ∷ e ∷ s) =
    if c == b'0' && (d == b'x' || d == b'X')
    then elim (hex_value e) [ none ↦ c ∷ d ∷ e ∷ s | some v ↦ e ∷ s ]
    else c ∷ d ∷ e ∷ s
without_prefix s = s

unfoldable pub strtol_16_signed : Bytes → ℤ
unfolding hex_digits_value clamp_long without_prefix
strtol_16_signed [] = pos 0
strtol_16_signed (c ∷ s) =
    if c == b'-'
    then (clamp_long true (hex_digits_value 0 (without_prefix s))).0
    else (clamp_long false (hex_digits_value 0 (without_prefix (if c == b'+' then s else c ∷ s)))).0

-- `strtol(s, NULL, 16)`
unfoldable pub strtol_16 : Bytes → ℤ
unfolding strtol_16_signed is_space
strtol_16 [] = pos 0
strtol_16 (c ∷ s) = let rest = strtol_16 s in if is_space c then rest else strtol_16_signed (c ∷ s)
