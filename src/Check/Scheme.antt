-- ===== src/Check/Scheme.antt =====
-- `is_url_scheme`: the text before the first colon that follows.
use monitoringplug.Base.{
  true, [], ◌∷◌, ◌++◌, ◌≡◌, ap, ◌↔◌, arith, Bytes, length, drop, ◌==◌, ==_iff, ◌∙◌, drop-append,
}
use monitoringplug.Text.{head, starts_with}
use monitoringplug.Text.Laws.{starts_with-append, starts_with-drop}
use monitoringplug.Check.{is_url_scheme}

head_colon : (s : Bytes) → (head s == b':') ≡ true → (r : Bytes) × (s ≡ b':' ∷ r)
head_colon [] h = cc
head_colon (d ∷ s) h = (s, ap (λ x. x ∷ s) ((==_iff d b':').0 h))

-- A URL has a scheme exactly if it is that scheme, a colon and anything behind.
pub is_url_scheme_iff :
    (url schema : Bytes)
    → (is_url_scheme url schema ≡ true) ↔ ((rest : Bytes) × (url ≡ schema ++ b':' ∷ rest))
unfolding is_url_scheme
is_url_scheme_iff url schema = (
  λ h.
      let prefix : starts_with url schema ≡ true = ground arith in
      let (rest, e) = head_colon (drop (length schema) url) (ground arith) in
      (rest, starts_with-drop url schema prefix ∙ ap (◌++◌ schema) e),
  λ (rest, e). rw (e, starts_with-append, drop-append),
)
