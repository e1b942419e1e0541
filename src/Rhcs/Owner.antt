-- ===== src/Rhcs/Owner.antt =====
-- The owner of a group, found among the nodes by its name.
use monitoringplug.Base.{
  ℕ, suc, ◌+◌, false, Option, none, some, List, [], ◌∷◌, ◌++◌, ◌≡◌, refl, ap, ◌∙◌, arith, Bytes,
  codes, length, All, All-append, if◌then◌else◌,
}
use monitoringplug.Text.{str_eq}
use monitoringplug.Text.Laws.{str_eq_self}
use monitoringplug.Getopt.{completed, ◌>>=◌}
use monitoringplug.Rhcs.{Group, find_name, group_attribute}

abbrev pub known : List Bytes → List (Option Bytes)
known [] = []
known (n ∷ ns) = some n ∷ known ns

abbrev pub Others : Bytes → List Bytes → Type 0
Others v = All (λ n. str_eq v n ≡ false)

find_name-Others :
    (v : Bytes) (ns : List Bytes) (i : ℕ) (found : Option ℕ)
    → Others v ns
    → find_name v (known ns) i found ≡ completed found
unfolding find_name
find_name-Others v [] i found h = refl
find_name-Others v (n ∷ ns) i found (h, hs) =
    ap (λ b. find_name v (known ns) (suc i) (if b then some i else found)) h
    ∙ find_name-Others v ns (suc i) found hs

find_name-place :
    (v : Bytes) (before after : List Bytes) (i : ℕ) (found : Option ℕ)
    → Others v after
    → find_name v (known (before ++ v ∷ after)) i found ≡ completed (some (i + length before))
unfolding find_name
find_name-place v [] after i found h =
    ap (λ b. find_name v (known after) (suc i) (if b then some i else found)) (str_eq_self v)
    ∙ find_name-Others v after (suc i) (some i) h
    ∙ ap (λ n. completed (some n)) {y = i + 0} (omega arith)
find_name-place v (n ∷ before) after i found h =
    find_name-place v before after (suc i) (if str_eq v n then some i else found) h
    ∙ ap (λ m. completed (some m)) {y = i + length (n ∷ before)} (omega arith)

-- The attribute `owner` of a group sets its owner: to the place of the last node with this name, and
-- to none if no node has it, whatever it was before.
pub group_attribute-owner :
    (v : Bytes) (before after : List Bytes) (g : Group)
    → Others v after
    → (group_attribute (known (before ++ v ∷ after)) (codes "owner") v g
        ≡ completed (record g { owner = some (length before) }))
      × (Others v before
          → group_attribute (known (before ++ after)) (codes "owner") v g
            ≡ completed (record g { owner = none }))
unfolding group_attribute str_eq
group_attribute-owner v before after g h = (
  ap (λ o. o >>= (λ owner. completed (record g { owner = owner })))
      (find_name-place v before after 0 none h
        ∙ ap (λ n. completed (some n)) {y = length before} (omega arith)),
  λ k.
      ap (λ o. o >>= (λ owner. completed (record g { owner = owner })))
        (find_name-Others v (before ++ after) 0 none
          (All-append (λ n. str_eq v n ≡ false) before after k h)),
)
