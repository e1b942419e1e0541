-- ===== src/Check/Url/Accepts.antt =====
-- URLs that `is_url` is meant to accept, and one family that it refuses.
use monitoringplug.Base.{
  ℕ, Bool, true, false, ◌∷◌, ◌++◌, ◌≡◌, refl, ◌&&◌, Bytes, ◌==◌, All, All-append, All-map,
}
use monitoringplug.Text.{contains}
use monitoringplug.Text.Laws.{strsep-some, contains-false}
use monitoringplug.Check.Url.{
  port_passes, is_colon, ends_authority, bracket_passes, host_passes, authority_passes,
  authority_and_path, behind_scheme, after_colon, is_url,
}

-- A byte that divides neither the URL nor its authority.
abbrev pub IsPlain : ℕ → Type 0
IsPlain c = (ends_authority c ≡ false) × ((c == b'@') ≡ false) × ((c == b']') ≡ false)

and-false : (a : Bool) → (a && false) ≡ false
and-false true = refl
and-false false = refl

and-not_left : (a b : Bool) → b ≡ false → (a && b) ≡ false
and-not_left a b h = rw h (and-false a)

bracket_host-passes :
    (is_hostaddr : Bytes → Bool) (address port : Bytes)
    → All IsPlain address
    → host_passes is_hostaddr (b'[' ∷ (address ++ b']' ∷ b':' ∷ port)) ≡ false
unfolding host_passes bracket_passes port_passes
bracket_host-passes is_hostaddr address port a =
    rw
      (strsep-some (λ c. c == b']') address b']' (b':' ∷ port) (All-map (λ c h. h.2) address a)
        refl)
      (and-false _)

-- A URL is refused if its authority is.
bad_authority :
    (is_hostaddr : Bytes → Bool) (scheme authority rest : Bytes)
    → All (λ c. is_colon c ≡ false) scheme
    → All (λ c. ends_authority c ≡ false) authority
    → authority_passes is_hostaddr authority ≡ false
    → is_url is_hostaddr (scheme ++ b':' ∷ b'/' ∷ b'/' ∷ (authority ++ b'/' ∷ rest)) ≡ false
unfolding is_url after_colon behind_scheme authority_and_path
bad_authority is_hostaddr scheme authority rest s a h =
    rw
      (
        strsep-some is_colon scheme b':' _ s refl,
        strsep-some ends_authority authority b'/' rest a refl,
        h,
      )
      (and-false _)

bracket-authority :
    (is_hostaddr : Bytes → Bool) (address port : Bytes)
    → All IsPlain address
    → All IsPlain port
    → authority_passes is_hostaddr (b'[' ∷ (address ++ b']' ∷ b':' ∷ port)) ≡ false
unfolding authority_passes contains
bracket-authority is_hostaddr address port a p =
    rw
      (contains-false b'@' (address ++ b']' ∷ b':' ∷ port) (
        All-append (λ c. (c == b'@') ≡ false) address (b']' ∷ b':' ∷ port)
          (All-map (λ c h. h.1) address a) (refl, (refl, All-map (λ c h. h.1) port p))))
      (bracket_host-passes is_hostaddr address port a)

-- A bracketed address with a colon behind the bracket, as before a port, makes a URL that is
-- refused, whatever stands before and behind.
pub is_url_bracket_port :
    (is_hostaddr : Bytes → Bool) (scheme address port rest : Bytes)
    → All (λ c. is_colon c ≡ false) scheme
    → All IsPlain address
    → All IsPlain port
    → is_url is_hostaddr
        (scheme ++ b':' ∷ b'/' ∷ b'/' ∷ (b'[' ∷ (address ++ b']' ∷ b':' ∷ port) ++ b'/' ∷ rest))
      ≡ false
is_url_bracket_port is_hostaddr scheme address port rest s a p =
    bad_authority is_hostaddr scheme (b'[' ∷ (address ++ b']' ∷ b':' ∷ port)) rest s
      (
        refl,
        All-append (λ c. ends_authority c ≡ false) address (b']' ∷ b':' ∷ port)
            (All-map (λ c h. h.0) address a) (refl, (refl, All-map (λ c h. h.0) port p)),
      )
      (bracket-authority is_hostaddr address port a p)
