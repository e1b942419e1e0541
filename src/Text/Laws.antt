-- ===== src/Text/Laws.antt =====
-- Laws of the string functions.
use monitoringplug.Base.{
  Option, ℕ, ◌<◌, Bool, true, false, none, some, [], ◌∷◌, ◌++◌, ◌≡◌, refl, ap, ◌⊎◌, ◌↔◌, inl, inr,
  arith, Bytes, length, drop, ◌==◌, All, Bool-cases,
}
use monitoringplug.Text.{contains, str_eq, starts_with, strspn, strsep}

pub str_eq_iff : (s t : Bytes) → (str_eq s t ≡ true) ↔ (s ≡ t)
unfolding str_eq
str_eq_iff (c ∷ s) (d ∷ t) = ground (arith, str_eq_iff s t)
str_eq_iff _ _ = ground arith

pub str_eq_self : (s : Bytes) → str_eq s s ≡ true
str_eq_self s = (str_eq_iff s s).1 refl

pub starts_with-append : (p s : Bytes) → starts_with (p ++ s) p ≡ true
unfolding starts_with
starts_with-append [] s = refl
starts_with-append (c ∷ p) s = ground (arith, starts_with-append p s)

pub starts_with-drop : (s p : Bytes) → starts_with s p ≡ true → s ≡ p ++ drop (length p) s
unfolding starts_with
starts_with-drop s [] h = refl
starts_with-drop [] (d ∷ p) h = cc
starts_with-drop (c ∷ s) (d ∷ p) h = ground (arith, starts_with-drop s p)

-- `strspn` spans the whole string exactly when every byte is in the set.
pub strspn-eq-length :
    (p : ℕ → Bool) (s : Bytes) → (strspn p s ≡ length s) ↔ All (λ c. p c ≡ true) s
unfolding strspn
strspn-eq-length p [] = (λ h. tt, λ h. refl)
strspn-eq-length p (c ∷ s) = ground (arith, strspn-eq-length p s)

pub contains-false : (b : ℕ) (s : Bytes) → All (λ c. (c == b) ≡ false) s → contains b s ≡ false
unfolding contains
contains-false b [] h = refl
contains-false b (c ∷ s) (h, hs) = rw (h, contains-false b s hs)

module _ (p : ℕ → Bool) where
  -- A token holds no separator.
  pub strsep-token : (s : Bytes) → All (λ c. p c ≡ false) (strsep p s).0
  unfolding strsep
  strsep-token [] = tt
  strsep-token (c ∷ s) = elim (Bool-cases (p c)) [
    | inl h ↦ rw h tt
    | inr h ↦ rw h (h, strsep-token s)
  ]

  pub strsep-none : (t : Bytes) → All (λ c. p c ≡ false) t → strsep p t ≡ (t, none)
  unfolding strsep
  strsep-none [] h = refl
  strsep-none (c ∷ t) (h, hs) = rw (h, strsep-none t hs)

  pub strsep-some :
      (t : Bytes) (c : ℕ) (r : Bytes)
      → All (λ c. p c ≡ false) t
      → p c ≡ true
      → strsep p (t ++ c ∷ r) ≡ (t, some r)
  unfolding strsep
  strsep-some [] c r h e = rw e
  strsep-some (d ∷ t) c r (h, hs) e = rw (h, strsep-some t c r hs e)

  -- What is left is shorter.
  pub length-strsep : (s : Bytes) {r : Bytes} → (strsep p s).1 ≡ some r → length r < length s
  unfolding strsep
  length-strsep [] h = cc
  length-strsep (c ∷ s) {r} h = ground (arith, length-strsep s {r = r})

  -- Where the first of two texts has no separator.
  pub strsep-append :
      (s t : Bytes)
      → (strsep p s).1 ≡ none
      → strsep p (s ++ t) ≡ (s ++ (strsep p t).0, (strsep p t).1)
  unfolding strsep
  strsep-append [] t h = refl
  strsep-append (c ∷ s) t h = elim (Bool-cases (p c)) [
    | inl e ↦ (let g = (rw e at h) in cc)
    | inr e ↦
        rw e (ap (λ (q : Bytes × Option Bytes). (c ∷ q.0, q.1)) (strsep-append s t (rw e at h)))
  ]

  -- How `strsep` divides a text.
  pub record Splits (s : Bytes) : Type 0 where
    pub token : Bytes
    pub separator : ℕ
    pub rest : Bytes
    pub found : strsep p s ≡ (token, some rest)
    pub separates : p separator ≡ true
    pub whole : s ≡ token ++ separator ∷ rest

  pub strsep-cases : (s : Bytes) → (strsep p s ≡ (s, none)) ⊎ Splits s
  unfolding strsep
  strsep-cases [] = inl refl
  strsep-cases (c ∷ s) = elim (Bool-cases (p c)) [
    | inl h ↦
        inr (record {
          token = [];
          separator = c;
          rest = s;
          found = rw h;
          separates = h;
          whole = refl;
        })
    | inr h ↦ elim (strsep-cases s) [
      | inl e ↦ inl (rw (h, e))
      | inr q ↦ inr (record {
        token = c ∷ q.token;
        separator = q.separator;
        rest = q.rest;
        found = rw (h, q.found);
        separates = q.separates;
        whole = ap (◌∷◌ c) q.whole;
      })
    ]
  ]
