-- ===== src/Check.antt =====
-- lib/mp_check.c: the tests on arguments. `is_hostaddr` asks `getaddrinfo` whether a text is a
-- numeric address; `Url` takes it as a parameter. `int` has 32 bits and `long` 64.
pub mod Integer
pub mod Hostname
pub mod Scheme
pub mod Url
mod Tests
use monitoringplug.Base.{
  ℕ, zero, suc, ◌+◌, ◌-◌, ◌^◌, Bool, true, false, not, ◌&&◌, ◌||◌, Option, none, some, [], ◌∷◌,
  ◌++◌, Bytes, length, drop, ◌==◌, if◌then◌else◌,
}
use monitoringplug.Base.Int.{ℤ, pos, negsuc, leb_ℤ}
use monitoringplug.Text.{head, starts_with, strspn, strsep, is_digit, is_alnum, strtol}

-- the set "-0123456789 "
unfoldable pub is_integer_char : ℕ → Bool
unfolding is_digit
is_integer_char c = c == b'-' || is_digit c || c == b' '

abbrev pub int_max : ℤ
int_max = pos (2 ^ 31 - 1)

abbrev pub int_min : ℤ
int_min = negsuc (2 ^ 31 - 1)

-- the argument may be NULL
unfoldable pub is_integer : Option Bytes → Bool
unfolding is_integer_char strspn strtol
is_integer none = false
is_integer (some number) =
    if not (strspn is_integer_char number == length number)
    then false
    else let (n, out_of_range) = strtol number in
      not out_of_range && leb_ℤ int_min n && leb_ℤ n int_max

-- letters, digits, `-` and `_`
unfoldable pub is_host_char : ℕ → Bool
unfolding is_alnum
is_host_char c = is_alnum c || c == b'-' || c == b'_'

abbrev pub is_dot : ℕ → Bool
is_dot c = c == b'.'

-- `while ((part = strsep(&addr, ".")))`, with fuel for the parts
unfoldable pub hostname_loop : ℕ → Option Bytes → Bool
unfolding strsep strspn is_host_char
hostname_loop zero addr = false
hostname_loop (suc fuel) none = true
hostname_loop (suc fuel) (some addr) =
    let (part, rest) = strsep is_dot addr in
    let next = hostname_loop fuel rest in
    if length part == 0
    then false
    else if not (strspn is_host_char part == length part)
    then false
    else next

-- every part takes a byte, but the last
unfoldable pub is_hostname : Bytes → Bool
unfolding hostname_loop
is_hostname address = hostname_loop (length address + 2) (some address)

unfoldable pub is_url_scheme : Bytes → Bytes → Bool
unfolding starts_with
is_url_scheme url schema =
    if not (starts_with url schema)
    then false
    else if not (head (drop (length schema) url) == b':')
    then false
    else true

-- `getaddrinfo` of a numeric address, in the family `AF_INET` and then in `AF_INET6`
unfoldable pub is_hostaddr : (Bytes → Bool) → (Bytes → Bool) → Bytes → Bool
is_hostaddr numeric_ipv4 numeric_ipv6 address = numeric_ipv4 address || numeric_ipv6 address
