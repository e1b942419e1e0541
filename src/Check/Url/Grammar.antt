-- ===== src/Check/Url/Grammar.antt =====
-- The grammar of the URLs that `is_url` passes, written apart from its code. A set of characters is given
-- by its marks, as a text, besides the letters and digits.
use monitoringplug.Base.{
  ℕ, Bool, true, false, ◌||◌, [], ◌∷◌, ◌++◌, ◌≡◌, ◌≢◌, ◌⊎◌, String, Bytes, codes, ◌==◌, All,
}
use monitoringplug.Text.{head, contains, is_digit, is_alpha, is_alnum, is_xdigit}
use monitoringplug.Check.Hostname.{IsHostname}

-- a letter, a digit or one of the marks
abbrev pub Allows : String → ℕ → Type 0
Allows marks c = (is_alnum c || contains c (codes marks)) ≡ true

-- Characters of a set, or `%` and two hexadecimal digits in the place of one.
pub data IsCoded (P : ℕ → Type 0) : Bytes → Type 0 where
  done : IsCoded P []
  plain : {c : ℕ} {s : Bytes} → P c → IsCoded P s → IsCoded P (c ∷ s)
  coded :
      {d e : ℕ} {s : Bytes}
      → is_xdigit d ≡ true
      → is_xdigit e ≡ true
      → IsCoded P s
      → IsCoded P (b'%' ∷ d ∷ e ∷ s)

abbrev pub user_marks : String
user_marks = "+-.~!$&'()*,;=:"

abbrev pub path_marks : String
path_marks = "+-.~!$&'()*,;=:_@/"

abbrev pub query_marks : String
query_marks = "+-.~!$&'()*,;=:_@/?#"

-- A letter, and letters, digits, `+`, `-` and `.`.
pub data IsScheme : Bytes → Type 0 where
  letter : {c : ℕ} {s : Bytes} → is_alpha c ≡ true → All (Allows "+-.") s → IsScheme (c ∷ s)

-- Nothing, or a colon and any number of digits.
pub data IsPort : Bytes → Type 0 where
  unset : IsPort []
  digits : {s : Bytes} → All (λ c. is_digit c ≡ true) s → IsPort (b':' ∷ s)

-- Hexadecimal digits and colons, not none, and not a colon alone.
pub record IsAddress (s : Bytes) : Type 0 where
  pub nonempty : s ≢ []
  pub not_colon : s ≢ b':' ∷ []
  pub chars : All (λ c. (is_xdigit c ≡ true) ⊎ (c ≡ b':')) s

-- A host with its port: a name, an address of the machine's that begins with a digit, or an address in
-- brackets, behind which digits stand without a colon.
pub data IsHost (is_hostaddr : Bytes → Bool) : Bytes → Type 0 where
  name :
      {host port : Bytes}
      → IsHostname host
      → is_digit (head host) ≡ false
      → IsPort port
      → IsHost is_hostaddr (host ++ port)
  numeric :
      {host port : Bytes}
      → is_digit (head host) ≡ true
      → All (λ c. (c == b':') ≡ false) host
      → is_hostaddr host ≡ true
      → IsPort port
      → IsHost is_hostaddr (host ++ port)
  bracket :
      (address port : Bytes)
      → IsAddress address
      → All (λ c. is_digit c ≡ true) port
      → IsHost is_hostaddr (b'[' ∷ (address ++ b']' ∷ port))

-- Nothing, a host, or what stands for a user, `@` and a host.
pub data IsAuthority (is_hostaddr : Bytes → Bool) : Bytes → Type 0 where
  empty : IsAuthority is_hostaddr []
  bare :
      {s : Bytes}
      → IsHost is_hostaddr s
      → All (λ c. (c == b'@') ≡ false) s
      → IsAuthority is_hostaddr s
  with_user :
      {user s : Bytes}
      → user ≢ []
      → IsCoded (Allows user_marks) user
      → IsHost is_hostaddr s
      → IsAuthority is_hostaddr (user ++ b'@' ∷ s)

-- A path, and perhaps `?` or `#` and a query or a fragment.
pub data IsPath : Bytes → Type 0 where
  alone : {s : Bytes} → IsCoded (Allows path_marks) s → IsPath s
  query :
      {s t : Bytes} {c : ℕ}
      → IsCoded (Allows path_marks) s
      → (c ≡ b'?') ⊎ (c ≡ b'#')
      → IsCoded (Allows query_marks) t
      → IsPath (s ++ c ∷ t)

-- What stands behind the authority: nothing, or one of `/`, `?` and `#` and a path.
pub data IsTail : Bytes → Type 0 where
  nothing : IsTail []
  path : {c : ℕ} {s : Bytes} → (c ≡ b'/') ⊎ ((c ≡ b'?') ⊎ (c ≡ b'#')) → IsPath s → IsTail (c ∷ s)

-- A scheme, `://`, an authority without `/`, `?` and `#`, and what stands behind it.
pub record IsUrl (is_hostaddr : Bytes → Bool) (url : Bytes) : Type 0 where
  pub scheme : Bytes
  pub authority : Bytes
  pub tail : Bytes
  pub whole : url ≡ scheme ++ b':' ∷ b'/' ∷ b'/' ∷ (authority ++ tail)
  pub scheme_right : IsScheme scheme
  pub authority_ends : All (λ c. contains c (codes "/?#") ≡ false) authority
  pub authority_right : IsAuthority is_hostaddr authority
  pub tail_right : IsTail tail
