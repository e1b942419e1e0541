-- ===== src/Utils/Concat.antt =====
-- Texts put together one after another, as a check does for its output.
use monitoringplug.Base.{
  Option, none, some, List, [], ◌∷◌, ◌++◌, append-nil, append_assoc, ◌≡◌, refl, ap, ◌∙◌, Bytes,
  codes,
}
use monitoringplug.Utils.{strcat_with, strcat, strcat_space, strcat_comma}

-- The specification: the texts that are there, with the separator between each two.
abbrev pub behind : Bytes → List (Option Bytes) → Bytes
behind separator [] = []
behind separator (none ∷ ts) = behind separator ts
behind separator (some t ∷ ts) = separator ++ (t ++ behind separator ts)

abbrev pub joined : Bytes → List (Option Bytes) → Option Bytes
joined separator [] = none
joined separator (none ∷ ts) = joined separator ts
joined separator (some t ∷ ts) = some (t ++ behind separator ts)

-- The calls in order.
abbrev pub each :
    (Option Bytes → Option Bytes → Option Bytes) → Option Bytes → List (Option Bytes) → Option Bytes
each f target [] = target
each f target (t ∷ ts) = each f (f target t) ts

module _ (separator : Bytes) where
  each-some :
      (t : Bytes) (ts : List (Option Bytes))
      → each (strcat_with separator) (some t) ts ≡ some (t ++ behind separator ts)
  unfolding strcat_with
  each-some t [] = ap some (simp append-nil)
  each-some t (none ∷ ts) = each-some t ts
  each-some t (some u ∷ ts) = each-some (t ++ (separator ++ u)) ts ∙ ap some (simp append_assoc)

  each-joined :
      (ts : List (Option Bytes)) → each (strcat_with separator) none ts ≡ joined separator ts
  unfolding strcat_with
  each-joined [] = refl
  each-joined (none ∷ ts) = each-joined ts
  each-joined (some t ∷ ts) = each-some t ts

-- Started with a null target, `mp_strcat`, `mp_strcat_space` and `mp_strcat_comma` make of any texts in
-- turn those that are not null, with nothing, a blank or a comma and a blank between each two, and
-- leave a null target if there is none.
pub strcat-joined :
    (ts : List (Option Bytes))
    → (each strcat none ts ≡ joined [] ts)
      × (each strcat_space none ts ≡ joined (codes " ") ts)
      × (each strcat_comma none ts ≡ joined (codes ", ") ts)
unfolding strcat strcat_space strcat_comma
strcat-joined ts = (each-joined [] ts, each-joined (codes " ") ts, each-joined (codes ", ") ts)
