-- ===== src/Check/Url/Shape.antt =====
-- `is_url` against the grammar of URLs.
use monitoringplug.Base.{
  ℕ, Bool, true, false, [], ◌∷◌, ◌++◌, append-nil, ◌≡◌, refl, ◌↔◌, ◌⊎◌, inl, inr, arith, Bytes,
  codes, ==_iff, All, All-map, and-eq_true,
}
use monitoringplug.Text.{contains, strsep, is_alpha}
use monitoringplug.Text.Laws.{strsep-none, strsep-some, strsep-token, strsep-cases}
use monitoringplug.Check.Url.{
  is_scheme_char, all_chars, is_colon, ends_authority, path_passes, scheme_passes,
  authority_and_path, behind_scheme, after_colon, is_url,
}
use monitoringplug.Check.Url.Grammar.{IsAuthority, IsTail, nothing, path, IsUrl}
use monitoringplug.Check.Url.Parts.{scheme_passes_iff, path_passes_iff}
use monitoringplug.Check.Url.Host.{authority_passes_iff}

ends_iff : (c : ℕ) → (ends_authority c ≡ true) ↔ ((c ≡ b'/') ⊎ ((c ≡ b'?') ⊎ (c ≡ b'#')))
ends_iff c = (ground arith, ground arith)

pub not_ends_iff : (c : ℕ) → (ends_authority c ≡ false) ↔ (contains c (codes "/?#") ≡ false)
unfolding contains
not_ends_iff c = (ground arith, ground arith)

scheme_char-colon : (c : ℕ) → is_scheme_char c ≡ true → is_colon c ≡ false
unfolding is_scheme_char
scheme_char-colon c h = ground arith

alpha-colon : (c : ℕ) → is_alpha c ≡ true → is_colon c ≡ false
unfolding is_alpha
alpha-colon c h = ground arith

all_chars-colon : (s : Bytes) → all_chars is_scheme_char s ≡ true → All (λ c. is_colon c ≡ false) s
unfolding all_chars
all_chars-colon [] h = tt
all_chars-colon (c ∷ s) h = (scheme_char-colon c (ground arith), all_chars-colon s (ground arith))

pub scheme-colon : (s : Bytes) → scheme_passes s ≡ true → All (λ c. is_colon c ≡ false) s
unfolding scheme_passes
scheme-colon [] h = tt
scheme-colon (c ∷ s) h = (alpha-colon c (ground arith), all_chars-colon s (ground arith))

module _ (is_hostaddr : Bytes → Bool) where
  -- what `behind_scheme` accepts
  record IsRest (s : Bytes) : Type 0 where
    authority : Bytes
    tail : Bytes
    whole : s ≡ b'/' ∷ b'/' ∷ (authority ++ tail)
    authority_ends : All (λ c. ends_authority c ≡ false) authority
    authority_right : IsAuthority is_hostaddr authority
    tail_right : IsTail tail

  behind_scheme-slashes :
      (s : Bytes)
      → behind_scheme is_hostaddr s ≡ true
      → (t : Bytes) × (s ≡ b'/' ∷ b'/' ∷ t)
        × (authority_and_path is_hostaddr (strsep ends_authority t) ≡ true)
  unfolding behind_scheme
  behind_scheme-slashes [] h = cc
  behind_scheme-slashes (b ∷ []) h = cc
  behind_scheme-slashes (b ∷ c ∷ s) h = (s, ground arith, ground arith)

  behind_scheme_sound : (s : Bytes) → behind_scheme is_hostaddr s ≡ true → IsRest s
  unfolding authority_and_path
  behind_scheme_sound s h =
      let (t, slashes, passes) = behind_scheme-slashes s h in
      let ends = strsep-token ends_authority t in
      elim (strsep-cases ends_authority t) [
        | inl e ↦ record {
          authority = t;
          tail = [];
          whole = cc (append-nil t);
          authority_ends = rw e at ends;
          authority_right =
              (authority_passes_iff is_hostaddr t).0 (and-eq_true _ _ (rw e at passes)).0;
          tail_right = nothing;
        }
        | inr q ↦
            let both = and-eq_true _ _ (rw q.found at passes) in
            record {
              authority = q.token;
              tail = q.separator ∷ q.rest;
              whole = cc (q.whole);
              authority_ends = rw q.found at ends;
              authority_right = (authority_passes_iff is_hostaddr q.token).0 both.0;
              tail_right =
                  path ((ends_iff q.separator).0 q.separates) ((path_passes_iff q.rest).0 both.1);
            }
      ]

  behind_scheme_complete :
      (authority : Bytes) {tail : Bytes}
      → All (λ c. ends_authority c ≡ false) authority
      → IsAuthority is_hostaddr authority
      → IsTail tail
      → behind_scheme is_hostaddr (b'/' ∷ b'/' ∷ (authority ++ tail)) ≡ true
  unfolding behind_scheme authority_and_path
  behind_scheme_complete a h k nothing =
      rw (append-nil a, strsep-none ends_authority a h, (authority_passes_iff is_hostaddr a).1 k)
        (unfold path_passes in refl)
  behind_scheme_complete a h k (path {c} {s} e p) =
      rw
        (
          strsep-some ends_authority a c s h ((ends_iff c).1 e),
          (authority_passes_iff is_hostaddr a).1 k,
          (path_passes_iff s).1 p,
        )
        refl

  -- A text passes exactly if it is a URL of the grammar: a scheme of a letter and letters, digits, `+`, `-`
  -- and `.`; `://`; an authority without `/`, `?` and `#`, which is empty, or a host, or a coded user, `@` and
  -- a host; and either nothing, or one of `/`, `?` and `#`, a coded path, and perhaps `?` or `#` and a coded
  -- query. Coded are characters of the part's own set, and `%` with two hexadecimal digits. A host is a name
  -- or an address that the machine knows, with or without a colon and a port of digits, or a bracketed
  -- address with digits behind it.
  pub is_url_iff : (url : Bytes) → (is_url is_hostaddr url ≡ true) ↔ IsUrl is_hostaddr url
  unfolding is_url after_colon
  is_url_iff url = (
    λ h. elim (strsep-cases is_colon url) [
      | inl e ↦ cc (rw e at h)
      | inr q ↦
          let both = and-eq_true _ _ (rw q.found at h) in
          let rest = behind_scheme_sound q.rest both.1 in
          record {
            scheme = q.token;
            authority = rest.authority;
            tail = rest.tail;
            whole = cc (q.whole, rest.whole, (==_iff _ _).0 q.separates);
            scheme_right = (scheme_passes_iff q.token).0 both.0;
            authority_ends =
                All-map (λ c k. (not_ends_iff c).0 k) rest.authority rest.authority_ends;
            authority_right = rest.authority_right;
            tail_right = rest.tail_right;
          }
    ],
    λ u.
        let scheme = (scheme_passes_iff u.scheme).1 u.scheme_right in
        rw
          (
            u.whole,
            strsep-some is_colon u.scheme b':' _ (scheme-colon u.scheme scheme) refl,
            scheme,
          )
          (behind_scheme_complete u.authority
            (All-map (λ c k. (not_ends_iff c).1 k) u.authority u.authority_ends) u.authority_right
            u.tail_right),
  )
