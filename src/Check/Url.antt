-- ===== src/Check/Url.antt =====
-- `is_url` of lib/mp_check.c. The pointer walks of the source are recursions on the text that is left;
-- a `do … while (*++p)` over a text refuses the empty one, since it looks at the NUL.
pub mod Grammar
pub mod Chars
pub mod Parts
pub mod Host
pub mod Shape
pub mod Accepts
use monitoringplug.Base.{
  ℕ, Bool, true, false, not, ◌&&◌, ◌||◌, Option, none, some, [], ◌∷◌, ◌++◌, Bytes, drop, ◌==◌,
  if◌then◌else◌,
}
use monitoringplug.Text.{head, contains, strsep, is_digit, is_alpha, is_alnum, is_xdigit}
use monitoringplug.Check.{is_hostname}

unfoldable pub is_scheme_char : ℕ → Bool
unfolding is_alnum
is_scheme_char c = is_alnum c || c == b'+' || c == b'-' || c == b'.'

-- the marks that every part behind the scheme allows
unfoldable pub is_mark : ℕ → Bool
is_mark c =
    c == b'+'
    || c == b'-'
    || c == b'.'
    || c == b'~'
    || c == b'!'
    || c == b'$'
    || c == b'&'
    || c == b'\''
    || c == b'('
    || c == b')'
    || c == b'*'
    || c == b','
    || c == b';'
    || c == b'='
    || c == b':'

unfoldable pub is_user_char : ℕ → Bool
unfolding is_alnum is_mark
is_user_char c = is_alnum c || is_mark c

unfoldable pub is_path_char : ℕ → Bool
unfolding is_alnum is_mark
is_path_char c = is_alnum c || is_mark c || c == b'_' || c == b'@' || c == b'/'

unfoldable pub is_query_char : ℕ → Bool
unfolding is_path_char
is_query_char c = is_path_char c || c == b'?' || c == b'#'

unfoldable pub all_chars : (ℕ → Bool) → Bytes → Bool
all_chars p [] = true
all_chars p (c ∷ s) = p c && all_chars p s

-- characters of a set, or `%` and two hexadecimal digits
unfoldable pub percent_chars : (ℕ → Bool) → Bytes → Bool
unfolding is_xdigit
percent_chars p [] = true
percent_chars p (c ∷ []) = p c
percent_chars p (c ∷ d ∷ []) = p c && p d
percent_chars p (c ∷ d ∷ e ∷ s) =
    let plain = percent_chars p (d ∷ e ∷ s) in
    let coded = percent_chars p s in
    if p c then plain else if c == b'%' && is_xdigit d && is_xdigit e then coded else false

abbrev pub is_empty : Bytes → Bool
is_empty [] = true
is_empty (c ∷ s) = false

unfoldable pub userinfo_passes : Bytes → Bool
unfolding percent_chars is_user_char
userinfo_passes s = not (is_empty s) && percent_chars is_user_char s

-- `if (buf && *buf != '\0')`
unfoldable pub port_passes : Option Bytes → Bool
unfolding all_chars
port_passes none = true
port_passes (some s) = all_chars is_digit s

abbrev pub is_ip6_char : ℕ → Bool
is_ip6_char c = is_xdigit c || c == b':'

abbrev pub ip6_passes : Bytes → Bool
ip6_passes s =
    let t = if head s == b':' then drop 1 s else s in not (is_empty t) && all_chars is_ip6_char t

-- the bracket branch, from `strsep(&buf, "]")` on
unfoldable pub bracket_passes : Bytes × Option Bytes → Bool
unfolding all_chars port_passes
bracket_passes (address, none) = false
bracket_passes (address, some rest) = ip6_passes address && port_passes (some rest)

abbrev pub is_colon : ℕ → Bool
is_colon c = c == b':'

abbrev pub ends_authority : ℕ → Bool
ends_authority c = c == b'/' || c == b'?' || c == b'#'

abbrev pub ends_path : ℕ → Bool
ends_path c = c == b'?' || c == b'#'

module _ (is_hostaddr : Bytes → Bool) where
  unfoldable pub host_passes : Bytes → Bool
  unfolding bracket_passes strsep is_digit
  host_passes s =
      if head s == b'['
      then bracket_passes (strsep (λ c. c == b']') (drop 1 s))
      else let (host, port) = strsep is_colon s in
        (if is_digit (head s) then is_hostaddr host else is_hostname host) && port_passes port

  unfoldable pub behind_userinfo : Bytes × Option Bytes → Bool
  unfolding userinfo_passes host_passes
  behind_userinfo (user, none) = false
  behind_userinfo (user, some host) = userinfo_passes user && host_passes host

  unfoldable pub authority_passes : Bytes → Bool
  unfolding behind_userinfo host_passes contains
  authority_passes s =
      if is_empty s
      then true
      else if contains b'@' s
      then behind_userinfo (strsep (λ c. c == b'@') s)
      else host_passes s

unfoldable pub query_passes : Option Bytes → Bool
unfolding percent_chars is_query_char
query_passes none = true
query_passes (some s) = percent_chars is_query_char s

-- from `if (!remain || *remain == '\0')` on
unfoldable pub path_passes : Option Bytes → Bool
unfolding percent_chars is_path_char query_passes strsep
path_passes none = true
path_passes (some s) =
    let (path, rest) = strsep ends_path s in percent_chars is_path_char path && query_passes rest

unfoldable pub scheme_passes : Bytes → Bool
unfolding all_chars is_alpha is_scheme_char
scheme_passes [] = false
scheme_passes (c ∷ s) = is_alpha c && all_chars is_scheme_char s

unfoldable pub authority_and_path : (Bytes → Bool) → Bytes × Option Bytes → Bool
authority_and_path is_hostaddr (authority, rest) =
    authority_passes is_hostaddr authority && path_passes rest

unfoldable pub behind_scheme : (Bytes → Bool) → Bytes → Bool
behind_scheme is_hostaddr (b ∷ c ∷ s) =
    if not (b == b'/' && c == b'/')
    then false
    else authority_and_path is_hostaddr (strsep ends_authority s)
behind_scheme is_hostaddr _ = false

unfoldable pub after_colon : (Bytes → Bool) → Bytes × Option Bytes → Bool
after_colon is_hostaddr (scheme, none) = false
after_colon is_hostaddr (scheme, some rest) = scheme_passes scheme && behind_scheme is_hostaddr rest

unfoldable pub is_url : (Bytes → Bool) → Bytes → Bool
unfolding after_colon
is_url is_hostaddr url = after_colon is_hostaddr (strsep is_colon url)
