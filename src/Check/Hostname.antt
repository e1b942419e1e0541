-- ===== src/Check/Hostname.antt =====
-- `is_hostname` against the grammar of host names.
use monitoringplug.Base.{
  ℕ, zero, suc, ◌+◌, ◌<◌, true, false, some, [], ◌∷◌, ◌++◌, ◌≡◌, ◌≢◌, refl, sym, ap, subst, ◌∙◌,
  ◌↔◌, inl, inr, arith, Bytes, length, length-append, ◌==◌, ==_iff, All,
}
use monitoringplug.Text.{strspn}
use monitoringplug.Text.Laws.{strsep-none, strsep-some, strspn-eq-length, strsep-cases}
use monitoringplug.Check.{is_host_char, is_dot, hostname_loop, is_hostname}

-- One part: some letters, digits, `-` and `_`.
pub record IsLabel (s : Bytes) : Type 0 where
  pub nonempty : s ≢ []
  pub chars : All (λ c. is_host_char c ≡ true) s

-- Parts with one dot between each two.
pub data IsHostname : Bytes → Type 0 where
  last : {s : Bytes} → IsLabel s → IsHostname s
  dot : {s t : Bytes} → IsLabel s → IsHostname t → IsHostname (s ++ b'.' ∷ t)

not_dot : (c : ℕ) → is_host_char c ≡ true → is_dot c ≡ false
unfolding is_host_char
not_dot c h = ground arith

no_dots : (s : Bytes) → All (λ c. is_host_char c ≡ true) s → All (λ c. is_dot c ≡ false) s
no_dots [] h = tt
no_dots (c ∷ s) (h, hs) = (not_dot c h, no_dots s hs)

IsLabel-length : {s : Bytes} → IsLabel s → (length s == 0) ≡ false
IsLabel-length {s = []} l = absurd (l.nonempty refl)
IsLabel-length {s = c ∷ s} l = ground arith

IsLabel-strspn : {s : Bytes} → IsLabel s → (strspn is_host_char s == length s) ≡ true
IsLabel-strspn {s} l = (==_iff _ _).1 ((strspn-eq-length is_host_char s).1 l.chars)

hostname_loop_complete :
    {s : Bytes} (fuel : ℕ)
    → IsHostname s
    → length s < fuel
    → hostname_loop (suc fuel) (some s) ≡ true
unfolding hostname_loop
hostname_loop_complete zero h b = absurd (omega arith)
hostname_loop_complete (suc fuel) (last {s} l) b =
    rw (strsep-none is_dot s (no_dots s l.chars), IsLabel-length l, IsLabel-strspn l)
hostname_loop_complete (suc fuel) (dot {s} {t} l h) b =
    rw (strsep-some is_dot s b'.' t (no_dots s l.chars) refl, IsLabel-length l, IsLabel-strspn l)
      (hostname_loop_complete fuel h (omega (arith, length-append s (b'.' ∷ t))))

IsLabel-of_tests :
    (s : Bytes) → (length s == 0) ≡ false → (strspn is_host_char s == length s) ≡ true → IsLabel s
IsLabel-of_tests s h k = record {
  nonempty = λ e. cc (rw e at h);
  chars = (strspn-eq-length is_host_char s).0 ((==_iff _ _).0 k);
}

hostname_loop_sound : (fuel : ℕ) (s : Bytes) → hostname_loop fuel (some s) ≡ true → IsHostname s
unfolding hostname_loop
hostname_loop_sound zero s h = cc
hostname_loop_sound (suc fuel) s h = elim (strsep-cases is_dot s) [
  | inl e ↦ last (IsLabel-of_tests s (ground (arith, e)) (ground (arith, e)))
  | inr q ↦
      let label : IsLabel q.token =
        IsLabel-of_tests q.token (ground (arith, q.found)) (ground (arith, q.found)) in
      let later : IsHostname q.rest = hostname_loop_sound fuel q.rest (ground (arith, q.found)) in
      subst IsHostname
        (ap (λ c. q.token ++ c ∷ q.rest) (sym ((==_iff _ _).0 q.separates)) ∙ sym q.whole)
        (dot label later)
]

-- A text passes exactly if it is parts of letters, digits, `-` and `_`, none of them empty, with one
-- dot between each two.
pub is_hostname_iff : (s : Bytes) → (is_hostname s ≡ true) ↔ IsHostname s
unfolding is_hostname
is_hostname_iff s = (
  hostname_loop_sound _ s,
  λ h.
      subst (λ n. hostname_loop n (some s) ≡ true) {x = suc (length s + 1)} (omega arith)
        (hostname_loop_complete (length s + 1) h (omega arith)),
)
