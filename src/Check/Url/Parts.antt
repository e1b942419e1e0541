-- ===== src/Check/Url/Parts.antt =====
-- The scheme, the user and the path of a URL: the tests of `is_url` accept what the grammar says.
use monitoringplug.Base.{
  ℕ, true, false, some, [], ◌∷◌, ◌≡◌, ◌≢◌, ◌↔◌, refl, sym, subst, inl, inr, arith, Bytes, ◌==◌,
  All-map, and-eq_true,
}
use monitoringplug.Text.{contains, is_alnum, is_xdigit}
use monitoringplug.Text.Laws.{strsep-none, strsep-some, strsep-cases}
use monitoringplug.Check.Url.{
  is_scheme_char, is_user_char, is_path_char, is_query_char, percent_chars, ends_path,
  userinfo_passes, query_passes, path_passes, scheme_passes,
}
use monitoringplug.Check.Url.Grammar.{
  Allows, IsCoded, user_marks, path_marks, query_marks, IsScheme, letter, IsPath, alone, query,
}
use monitoringplug.Check.Url.Chars.{
  all_chars_iff, all_chars-All, percent_chars_iff, scheme_char_iff, user_char_iff, path_char_iff,
  query_char_iff, IsCoded-All,
}

pub scheme_passes_iff : (s : Bytes) → (scheme_passes s ≡ true) ↔ IsScheme s
unfolding scheme_passes
scheme_passes_iff s = (sound s, complete)
  where
    sound : (s : Bytes) → scheme_passes s ≡ true → IsScheme s
    sound [] h = cc
    sound (c ∷ s) h =
        let (first, more) = and-eq_true _ _ h in
        letter first
          (All-map (λ d k. (scheme_char_iff d).0 k) s ((all_chars_iff is_scheme_char s).0 more))

    complete : {s : Bytes} → IsScheme s → scheme_passes s ≡ true
    complete (letter {c} {s} h k) =
        rw (h, all_chars-All is_scheme_char s (All-map (λ d l. (scheme_char_iff d).1 l) s k)) refl

pub userinfo_passes_iff :
    (s : Bytes) → (userinfo_passes s ≡ true) ↔ ((s ≢ []) × IsCoded (Allows user_marks) s)
unfolding userinfo_passes
userinfo_passes_iff [] = (λ h. cc, λ h. absurd (h.0 refl))
userinfo_passes_iff (c ∷ s) =
    let (sound, complete) =
      percent_chars_iff is_user_char (Allows user_marks) user_char_iff (unfold is_user_char in refl)
        (c ∷ s) in
    (λ h. (λ e. cc, sound h), λ h. complete h.1)

path_chars_iff : (s : Bytes) → (percent_chars is_path_char s ≡ true) ↔ IsCoded (Allows path_marks) s
path_chars_iff s =
    percent_chars_iff is_path_char (Allows path_marks) path_char_iff (unfold is_path_char in refl) s

query_chars_iff :
    (s : Bytes) → (percent_chars is_query_char s ≡ true) ↔ IsCoded (Allows query_marks) s
query_chars_iff s =
    percent_chars_iff is_query_char (Allows query_marks) query_char_iff
      (unfold is_query_char in refl) s

path_plain-Allows : (c : ℕ) → Allows path_marks c → ends_path c ≡ false
unfolding contains is_alnum
path_plain-Allows c h = ground arith

pub xdigit-plain :
    (c : ℕ)
    → is_xdigit c ≡ true
    → (ends_path c ≡ false) × ((c == b'@') ≡ false) × ((c == b']') ≡ false)
unfolding is_xdigit
xdigit-plain c h = ground arith

pub user_plain-Allows : (c : ℕ) → Allows user_marks c → (c == b'@') ≡ false
unfolding contains is_alnum
user_plain-Allows c h = ground arith

pub path_passes_iff : (s : Bytes) → (path_passes (some s) ≡ true) ↔ IsPath s
unfolding path_passes query_passes
path_passes_iff s = (
  λ h. elim (strsep-cases ends_path s) [
    | inl e ↦ alone ((path_chars_iff s).0 (and-eq_true _ _ (rw e at h)).0)
    | inr q ↦
        let (before, behind) = and-eq_true _ _ (rw q.found at h) in
        subst IsPath (sym q.whole) (
          query ((path_chars_iff q.token).0 before) (ground (arith, q.separates))
            ((query_chars_iff q.rest).0 behind))
  ],
  complete,
)
  where
    complete : {s : Bytes} → IsPath s → path_passes (some s) ≡ true
    complete (alone {s} h) =
        rw
          (
            strsep-none ends_path s
                (IsCoded-All _ path_plain-Allows refl (λ c k. (xdigit-plain c k).0) h),
            (path_chars_iff s).1 h,
          )
          refl
    complete (query {s} {t} {c} h e k) =
        rw
          (
            strsep-some ends_path s c t
                (IsCoded-All _ path_plain-Allows refl (λ c k. (xdigit-plain c k).0) h)
                (ground arith),
            (path_chars_iff s).1 h,
            (query_chars_iff t).1 k,
          )
          refl
