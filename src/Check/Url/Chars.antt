-- ===== src/Check/Url/Chars.antt =====
-- The characters of a URL: the sets of the code and those of the grammar, and the bytes of a host name.
use monitoringplug.Base.{
  ℕ, Bool, true, false, ◌&&◌, [], ◌∷◌, ◌++◌, ◌≡◌, ◌≢◌, ◌↔◌, refl, sym, subst, ap, ◌⊎◌, inl, inr,
  arith, Bytes, ◌==◌, ==_iff, All, All-append, length, length-append, Bool-cases, and-eq_true,
  if◌then◌else◌,
}
use monitoringplug.Text.{head, contains, is_xdigit}
use monitoringplug.Check.{is_host_char}
use monitoringplug.Check.Hostname.{IsHostname, last, dot}
use monitoringplug.Check.Url.{
  is_scheme_char, is_user_char, is_path_char, is_query_char, is_empty, all_chars, percent_chars,
  is_colon, ends_authority,
}
use monitoringplug.Check.Url.Grammar.{
  Allows, IsCoded, done, plain, coded, user_marks, path_marks, query_marks,
}

abbrev pub IsHostByte : ℕ → Type 0
IsHostByte c = (is_host_char c ≡ true) ⊎ (c ≡ b'.')

pub label-bytes : (s : Bytes) → All (λ c. is_host_char c ≡ true) s → All IsHostByte s
label-bytes [] h = tt
label-bytes (c ∷ s) (h, hs) = (inl h, label-bytes s hs)

pub IsHostname-bytes : {s : Bytes} → IsHostname s → All IsHostByte s
IsHostname-bytes (last l) = label-bytes _ l.chars
IsHostname-bytes (dot {s} {t} l h) =
    All-append IsHostByte s (b'.' ∷ t) (label-bytes s l.chars) (inr refl, IsHostname-bytes h)

-- A byte of a host name is none of the bytes that divide a URL.
pub host_byte-plain :
    (c : ℕ)
    → IsHostByte c
    → (ends_authority c ≡ false)
      × (is_colon c ≡ false)
      × ((c == b'@') ≡ false)
      × ((c == b'[') ≡ false)
unfolding is_host_char
host_byte-plain c h = ground arith

pub IsHostname-ne-nil : {s : Bytes} → IsHostname s → s ≢ []
IsHostname-ne-nil (last l) = l.nonempty
IsHostname-ne-nil (dot {s} {t} l h) =
    λ e. absurd (omega (arith, length-append s (b'.' ∷ t), ap length e))

pub is_empty-append : (s t : Bytes) → s ≢ [] → is_empty (s ++ t) ≡ false
is_empty-append [] t h = absurd (h refl)
is_empty-append (c ∷ s) t h = refl

pub head-append : (s t : Bytes) → s ≢ [] → head (s ++ t) ≡ head s
head-append [] t h = absurd (h refl)
head-append (c ∷ s) t h = refl

pub head-All : (P : ℕ → Type 0) (s : Bytes) → s ≢ [] → All P s → P (head s)
head-All P [] h a = absurd (h refl)
head-All P (c ∷ s) h (p, ps) = p

pub all_chars-All : (p : ℕ → Bool) (s : Bytes) → All (λ c. p c ≡ true) s → all_chars p s ≡ true
unfolding all_chars
all_chars-All p [] h = refl
all_chars-All p (c ∷ s) (h, hs) = rw (h, all_chars-All p s hs)

pub all_chars_iff : (p : ℕ → Bool) (s : Bytes) → (all_chars p s ≡ true) ↔ All (λ c. p c ≡ true) s
unfolding all_chars
all_chars_iff p s = (λ h. sound s h, all_chars-All p s)
  where
    sound : (s : Bytes) → all_chars p s ≡ true → All (λ c. p c ≡ true) s
    sound [] h = tt
    sound (c ∷ s) h = (ground arith, sound s (ground arith))

if-true : (b x : Bool) → (if b then x else false) ≡ true → (b ≡ true) × (x ≡ true)
if-true true x h = (refl, h)
if-true false x h = cc

module _ (p : ℕ → Bool) (P : ℕ → Type 0) (same : (c : ℕ) → (p c ≡ true) ↔ P c)
    (percent : p b'%' ≡ false) where
  percent_chars_sound : (s : Bytes) → percent_chars p s ≡ true → IsCoded P s
  unfolding percent_chars
  percent_chars_sound [] h = done
  percent_chars_sound (c ∷ []) h = plain ((same c).0 h) done
  percent_chars_sound (c ∷ d ∷ []) h =
      plain ((same c).0 (ground arith)) (plain ((same d).0 (ground arith)) done)
  percent_chars_sound (c ∷ d ∷ e ∷ s) h = elim (Bool-cases (p c)) [
    | inl k ↦ plain ((same c).0 k) (percent_chars_sound (d ∷ e ∷ s) (rw k at h))
    | inr k ↦
        let coded_next : (if c == b'%' && is_xdigit d && is_xdigit e
              then percent_chars p s
              else false)
            ≡ true =
          rw k at h in
        let (test, rest) = if-true _ _ coded_next in
        let (start, second) = and-eq_true _ _ test in
        let (sign, first) = and-eq_true _ _ start in
        subst (λ b. IsCoded P (b ∷ d ∷ e ∷ s)) (sym ((==_iff _ _).0 sign))
          (coded first second (percent_chars_sound s rest))
  ]

  percent_chars_complete : {s : Bytes} → IsCoded P s → percent_chars p s ≡ true
  unfolding percent_chars
  percent_chars_complete done = refl
  percent_chars_complete (plain {c} {s = []} h k) = (same c).1 h
  percent_chars_complete (plain {c} {s = d ∷ []} h k) = rw ((same c).1 h) (percent_chars_complete k)
  percent_chars_complete (plain {c} {s = d ∷ e ∷ s} h k) =
      rw ((same c).1 h) (percent_chars_complete k)
  percent_chars_complete (coded h k r) = rw (percent, h, k) (percent_chars_complete r)

  pub percent_chars_iff : (s : Bytes) → (percent_chars p s ≡ true) ↔ IsCoded P s
  percent_chars_iff s = (percent_chars_sound s, percent_chars_complete)

pub scheme_char_iff : (c : ℕ) → (is_scheme_char c ≡ true) ↔ Allows "+-." c
unfolding is_scheme_char contains
scheme_char_iff c = (ground arith, ground arith)

pub user_char_iff : (c : ℕ) → (is_user_char c ≡ true) ↔ Allows user_marks c
unfolding is_user_char contains
user_char_iff c = (ground arith, ground arith)

pub path_char_iff : (c : ℕ) → (is_path_char c ≡ true) ↔ Allows path_marks c
unfolding is_path_char contains
path_char_iff c = (ground arith, ground arith)

pub query_char_iff : (c : ℕ) → (is_query_char c ≡ true) ↔ Allows query_marks c
unfolding is_query_char contains
query_char_iff c = (ground arith, ground arith)

-- a property of all characters of a coded text
pub IsCoded-All :
    {P : ℕ → Type 0} (Q : ℕ → Type 0)
    → ((c : ℕ) → P c → Q c)
    → Q b'%'
    → ((c : ℕ) → is_xdigit c ≡ true → Q c)
    → {s : Bytes} → IsCoded P s
    → All Q s
IsCoded-All Q f g h done = tt
IsCoded-All Q f g h (plain k r) = (f _ k, IsCoded-All Q f g h r)
IsCoded-All Q f g h (coded k l r) = (g, (h _ k, (h _ l, IsCoded-All Q f g h r)))
