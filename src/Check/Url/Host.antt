-- ===== src/Check/Url/Host.antt =====
-- The host and the authority of a URL: the tests of `is_url` accept what the grammar says.
use monitoringplug.Base.{
  ℕ, Bool, true, false, some, [], ◌∷◌, ◌++◌, append-nil, ◌≡◌, ◌≢◌, ◌↔◌, refl, sym, subst, ap, ◌∙◌,
  ◌⊎◌, inl, inr, arith, Bytes, ◌==◌, ==_iff, All, All-map, Bool-cases, and-eq_true, drop,
  if◌then◌else◌,
}
use monitoringplug.Text.{head, contains, strsep, is_digit, is_xdigit}
use monitoringplug.Text.Laws.{strsep-none, strsep-some, strsep-token, strsep-cases, contains-false}
use monitoringplug.Check.{is_hostname}
use monitoringplug.Check.Hostname.{is_hostname_iff}
use monitoringplug.Check.Url.{
  all_chars, is_colon, port_passes, is_ip6_char, ip6_passes, bracket_passes, host_passes,
  behind_userinfo, authority_passes,
}
use monitoringplug.Check.Url.Grammar.{
  IsPort, unset, digits, IsAddress, IsHost, name, numeric, bracket, IsAuthority, empty, bare,
  with_user,
}
use monitoringplug.Check.Url.Chars.{
  IsHostname-bytes, host_byte-plain, IsHostname-ne-nil, head-append, is_empty-append, head-All,
  IsHostByte, all_chars_iff, all_chars-All, IsCoded-All,
}
use monitoringplug.Check.Url.Parts.{userinfo_passes_iff, user_plain-Allows, xdigit-plain}

ip6_char_iff : (c : ℕ) → (is_ip6_char c ≡ true) ↔ ((is_xdigit c ≡ true) ⊎ (c ≡ b':'))
ip6_char_iff c = (ground arith, ground arith)

ip6_chars_iff :
    (s : Bytes) → (all_chars is_ip6_char s ≡ true) ↔ All (λ c. (is_xdigit c ≡ true) ⊎ (c ≡ b':')) s
ip6_chars_iff s = (
  λ h. All-map (λ c k. (ip6_char_iff c).0 k) s ((all_chars_iff is_ip6_char s).0 h),
  λ h. (all_chars_iff is_ip6_char s).1 (All-map (λ c k. (ip6_char_iff c).1 k) s h),
)

ip6_passes_sound : (s : Bytes) → ip6_passes s ≡ true → IsAddress s
ip6_passes_sound [] h = cc
ip6_passes_sound (c ∷ []) h = elim (Bool-cases (c == b':')) [
  | inl k ↦ cc (rw k at h)
  | inr k ↦ record {
    nonempty = λ e. cc;
    not_colon = ground arith;
    chars = (ip6_chars_iff (c ∷ [])).0 (rw k at h);
  }
]
ip6_passes_sound (c ∷ d ∷ s) h = elim (Bool-cases (c == b':')) [
  | inl k ↦ record {
    nonempty = λ e. cc;
    not_colon = λ e. cc;
    chars = (inr ((==_iff _ _).0 k), (ip6_chars_iff (d ∷ s)).0 (rw k at h));
  }
  | inr k ↦ record {
    nonempty = λ e. cc;
    not_colon = λ e. cc;
    chars = (ip6_chars_iff (c ∷ d ∷ s)).0 (rw k at h);
  }
]

ip6_passes_complete : (s : Bytes) → IsAddress s → ip6_passes s ≡ true
ip6_passes_complete [] a = absurd (a.nonempty refl)
ip6_passes_complete (c ∷ []) a = elim (Bool-cases (c == b':')) [
  | inl k ↦ absurd (a.not_colon (ap (λ b. b ∷ []) ((==_iff _ _).0 k)))
  | inr k ↦ rw k ((ip6_chars_iff (c ∷ [])).1 a.chars)
]
ip6_passes_complete (c ∷ d ∷ s) a = elim (Bool-cases (c == b':')) [
  | inl k ↦ rw k ((ip6_chars_iff (d ∷ s)).1 a.chars.1)
  | inr k ↦ rw k ((ip6_chars_iff (c ∷ d ∷ s)).1 a.chars)
]

-- a digit in front of a colon stands in the token before it
digit-token :
    (token rest : Bytes) (c : ℕ)
    → is_colon c ≡ true
    → is_digit (head (token ++ c ∷ rest)) ≡ true
    → is_digit (head token) ≡ true
unfolding is_digit
digit-token [] rest c h k = absurd (ground arith)
digit-token (d ∷ token) rest c h k = k

address_char-plain : (c : ℕ) → (is_xdigit c ≡ true) ⊎ (c ≡ b':') → (c == b']') ≡ false
unfolding is_xdigit
address_char-plain c h = ground arith

no_digit : is_digit (head []) ≡ false
unfolding is_digit
no_digit = refl

digit-ne-nil : (s : Bytes) → is_digit (head s) ≡ true → s ≢ []
digit-ne-nil [] h = cc (no_digit)
digit-ne-nil (c ∷ s) h = λ e. cc

digit-bracket : (c : ℕ) → is_digit c ≡ true → (c == b'[') ≡ false
unfolding is_digit
digit-bracket c h = ground arith

port_passes-sound :
    (c : ℕ) (s : Bytes) → is_colon c ≡ true → port_passes (some s) ≡ true → IsPort (c ∷ s)
unfolding port_passes
port_passes-sound c s h k =
    subst (λ b. IsPort (b ∷ s)) (sym ((==_iff _ _).0 h)) (digits ((all_chars_iff is_digit s).0 k))

contains-some :
    (b : ℕ) (s : Bytes) (c : ℕ) (t : Bytes) → (c == b) ≡ true → contains b (s ++ c ∷ t) ≡ true
unfolding contains
contains-some b [] c t h = rw h refl
contains-some b (d ∷ s) c t h = ground (arith, contains-some b s c t h)

module _ (is_hostaddr : Bytes → Bool) where
  -- the test on a host that is not in brackets
  abbrev named_passes : Bytes → Bytes → Bool
  named_passes s host = if is_digit (head s) then is_hostaddr host else is_hostname host

  IsHost-of_parts :
      (host rest port : Bytes)
      → (is_digit (head rest) ≡ true → is_digit (head host) ≡ true)
      → (host ≢ [] → head rest ≡ head host)
      → rest ≡ host ++ port
      → All (λ c. is_colon c ≡ false) host
      → named_passes rest host ≡ true
      → IsPort port
      → IsHost is_hostaddr rest
  IsHost-of_parts host rest port first same e plain h p =
      subst (IsHost is_hostaddr) (sym e) (elim (Bool-cases (is_digit (head rest))) [
        | inl d ↦ numeric (first d) plain (rw d at h) p
        | inr d ↦
            let named = (is_hostname_iff host).0 (rw d at h) in
            name named (rw (same (IsHostname-ne-nil named)) at d) p
      ])

  bracket_sound :
      (s : Bytes)
      → (head s == b'[') ≡ true
      → bracket_passes (strsep (λ c. c == b']') (drop 1 s)) ≡ true
      → IsHost is_hostaddr s
  unfolding bracket_passes port_passes
  bracket_sound [] k h = cc
  bracket_sound (c ∷ s) k h = elim (strsep-cases (λ c. c == b']') s) [
    | inl e ↦ cc (rw e at h)
    | inr q ↦
        let (address, port) = and-eq_true _ _ (rw q.found at h) in
        rw ((==_iff _ _).0 k, q.whole, (==_iff _ _).0 q.separates)
          (bracket q.token q.rest (ip6_passes_sound q.token address)
            ((all_chars_iff is_digit q.rest).0 port))
  ]

  host_passes_sound : (s : Bytes) → host_passes is_hostaddr s ≡ true → IsHost is_hostaddr s
  unfolding host_passes
  host_passes_sound s h = elim (Bool-cases (head s == b'[')) [
    | inl k ↦ bracket_sound s k (rw k at h)
    | inr k ↦ elim (strsep-cases is_colon s) [
      | inl e ↦
          let (named, port) = and-eq_true _ _ (rw (k, e) at h) in
          let ends = strsep-token is_colon s in
          IsHost-of_parts s s [] (λ d. d) (λ n. refl) (sym (append-nil s)) (rw e at ends) named
            unset
      | inr q ↦
          let (named, port) = and-eq_true _ _ (rw (k, q.found) at h) in
          let ends = strsep-token is_colon s in
          IsHost-of_parts q.token s (q.separator ∷ q.rest)
            (λ d. digit-token q.token q.rest q.separator q.separates (rw q.whole at d))
            (λ n. ap head q.whole ∙ head-append q.token (q.separator ∷ q.rest) n) q.whole
            (rw q.found at ends) named (port_passes-sound q.separator q.rest q.separates port)
    ]
  ]

  -- a host in front of its port
  host_passes-port :
      {host port : Bytes}
      → host ≢ []
      → (head host == b'[') ≡ false
      → All (λ c. is_colon c ≡ false) host
      → named_passes host host ≡ true
      → IsPort port
      → host_passes is_hostaddr (host ++ port) ≡ true
  unfolding host_passes port_passes
  host_passes-port {host} n k plain h unset =
      rw (append-nil host, k, strsep-none is_colon host plain, h) refl
  host_passes-port {host} n k plain h (digits {s} d) =
      rw (head-append host (b':' ∷ s) n, k, strsep-some is_colon host b':' s plain refl, h)
        (all_chars-All is_digit s d)

  host_passes_complete : {s : Bytes} → IsHost is_hostaddr s → host_passes is_hostaddr s ≡ true
  host_passes_complete (name {host} n alpha p) =
      let bytes = IsHostname-bytes n in
      let first = head-All IsHostByte host (IsHostname-ne-nil n) bytes in
      host_passes-port (IsHostname-ne-nil n) (host_byte-plain (head host) first).3
        (All-map (λ c h. (host_byte-plain c h).1) host bytes)
        (rw alpha ((is_hostname_iff host).1 n)) p
  host_passes_complete (numeric {host} d plain h p) =
      host_passes-port (digit-ne-nil host d) (digit-bracket (head host) d) plain (rw d h) p
  host_passes_complete (bracket address port a p) =
      unfold host_passes bracket_passes port_passes in
      rw
        (
          strsep-some (λ c. c == b']') address b']' port
              (All-map (λ c h. address_char-plain c h) address a.chars) refl,
          ip6_passes_complete address a,
        )
        (all_chars-All is_digit port p)

  pub host_passes_iff : (s : Bytes) → (host_passes is_hostaddr s ≡ true) ↔ IsHost is_hostaddr s
  host_passes_iff s = (host_passes_sound s, host_passes_complete)

  authority_passes_sound :
      (s : Bytes) → authority_passes is_hostaddr s ≡ true → IsAuthority is_hostaddr s
  unfolding authority_passes behind_userinfo
  authority_passes_sound [] h = empty
  authority_passes_sound (c ∷ s) h =
      let ends = strsep-token (λ c. c == b'@') (c ∷ s) in
      elim (strsep-cases (λ c. c == b'@') (c ∷ s)) [
        | inl e ↦
            let plain : All (λ c. (c == b'@') ≡ false) (c ∷ s) = rw e at ends in
            bare ((host_passes_iff (c ∷ s)).0 (rw (contains-false b'@' (c ∷ s) plain) at h)) plain
        | inr q ↦
            let found : contains b'@' (c ∷ s) ≡ true =
              subst (λ t. contains b'@' t ≡ true) (sym q.whole)
                (contains-some b'@' q.token q.separator q.rest q.separates) in
            let (user, host) = and-eq_true _ _ (rw (found, q.found) at h) in
            let (nonempty, right) = (userinfo_passes_iff q.token).0 user in
            rw (q.whole, (==_iff _ _).0 q.separates)
              (with_user nonempty right ((host_passes_iff q.rest).0 host))
      ]

  authority_passes_complete :
      {s : Bytes} → IsAuthority is_hostaddr s → authority_passes is_hostaddr s ≡ true
  unfolding authority_passes behind_userinfo
  authority_passes_complete empty = refl
  authority_passes_complete (bare {s = []} h plain) = refl
  authority_passes_complete (bare {s = c ∷ s} h plain) =
      rw (contains-false b'@' (c ∷ s) plain) ((host_passes_iff (c ∷ s)).1 h)
  authority_passes_complete (with_user {user} {s} n u h) =
      rw
        (
          is_empty-append user (b'@' ∷ s) n,
          contains-some b'@' user b'@' s refl,
          strsep-some (λ c. c == b'@') user b'@' s
              (IsCoded-All _ user_plain-Allows refl (λ c k. (xdigit-plain c k).1) u) refl,
          (userinfo_passes_iff user).1 (n, u),
        )
        ((host_passes_iff s).1 h)

  pub authority_passes_iff :
      (s : Bytes) → (authority_passes is_hostaddr s ≡ true) ↔ IsAuthority is_hostaddr s
  authority_passes_iff s = (authority_passes_sound s, authority_passes_complete)
