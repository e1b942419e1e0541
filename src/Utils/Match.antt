-- ===== src/Utils/Match.antt =====
-- `mp_strmatch` and `mp_strcmp`.
use monitoringplug.Base.{
  ℕ, suc, true, false, some, [], ◌∷◌, ◌++◌, ◌≡◌, ◌≢◌, refl, ap, subst, sym, ◌⊎◌, ◌↔◌, inl, inr,
  arith, Bytes, length, length-append, take-append, drop, get_elem?-append, ◌==◌, ==_iff,
  Bool-cases, if◌then◌else◌,
}
use monitoringplug.Text.{str_eq, starts_with}
use monitoringplug.Text.Laws.{str_eq_iff, starts_with-append, starts_with-drop}
use monitoringplug.Utils.{strcmp, strmatch}

-- The specification: a pattern `p` and a last character, `*` for anything behind `p`.
abbrev pub Matches : Bytes → Bytes → ℕ → Type 0
Matches string p c =
    ((c ≡ b'*') × (rest : Bytes) × (string ≡ p ++ rest)) ⊎ ((c ≢ b'*') × (string ≡ p ++ c ∷ []))

length-last : (p : Bytes) (c : ℕ) → length (p ++ c ∷ []) ≡ suc (length p)
length-last p c = omega (arith, length-append p (c ∷ []))

strmatch_at :
    (string p : Bytes) (c : ℕ)
    → strmatch string (p ++ c ∷ [])
      ≡ some (if c == b'*' then starts_with string p else str_eq string (p ++ c ∷ []))
unfolding strmatch starts_with
strmatch_at string [] c = refl
strmatch_at string (d ∷ p) c =
    rw (strmatch, length-last p c, get_elem?-append p c [], length-last p c)
      (ap
        (λ x.
          some
            (if c == b'*' then starts_with string (d ∷ x) else str_eq string (d ∷ (p ++ c ∷ []))))
        (take-append p (c ∷ [])))

-- A string matches a pattern that ends in `*` exactly if it begins with what stands before it, and any
-- other pattern, not empty, exactly if it is equal.
pub strmatch_iff :
    (string p : Bytes) (c : ℕ) → (strmatch string (p ++ c ∷ []) ≡ some true) ↔ Matches string p c
strmatch_iff string p c = rw (strmatch_at string p c) (elim (Bool-cases (c == b'*')) [
  | inl e ↦ rw e (
    λ h. inl ((==_iff _ _).0 e, drop (length p) string, starts_with-drop string p (ground arith)),
    λ h. begins (subst (Matches string p) ((==_iff _ _).0 e) h),
  )
  | inr e ↦ rw e (
    λ h. inr (ground arith, (str_eq_iff _ _).0 (ground arith)),
    λ h. ground (arith, str_eq_iff string (p ++ c ∷ [])),
  )
])
  where
    begins : Matches string p b'*' → some (starts_with string p) ≡ some true
    begins (inl (e, rest, f)) = rw (f, starts_with-append p rest) refl
    begins (inr (ne, e)) = absurd (ne refl)

-- The specification of `mp_strcmp`: a leading `!` asks for anything but the text behind it.
abbrev pub Accepts : Bytes → Bytes → Type 0
Accepts [] s = s ≡ []
Accepts (c ∷ p) s = ((c ≡ b'!') × (p ≢ s)) ⊎ ((c ≢ b'!') × (c ∷ p ≡ s))

-- `mp_strcmp` returns 0 exactly if the second text is the first, or, where the first begins with `!`, is
-- not what stands behind that mark.
pub strcmp_iff : (p s : Bytes) → (strcmp p s ≡ false) ↔ Accepts p s
unfolding strcmp
strcmp_iff [] s =
    let (a, b) = str_eq_iff [] s in (λ h. sym (a (ground arith)), λ h. ground (arith, b (sym h)))
strcmp_iff (c ∷ p) s = elim (Bool-cases (c == b'!')) [
  | inl e ↦ ground (arith, e, str_eq_iff p s)
  | inr e ↦ ground (arith, e, str_eq_iff (c ∷ p) s)
]
