-- ===== src/Utils/Tests.antt =====
-- Small runs, and the theorems at an input.
use monitoringplug.Base.{true, false, Option, none, some, List, [], ◌∷◌, ◌≡◌, refl, Bytes, codes}
use monitoringplug.Base.Int.{pos, negsuc}
use monitoringplug.Text.{strsep, strtol, str_eq, starts_with}
use monitoringplug.Utils.{strcmp, array_push, array_push_int, strmatch}
use monitoringplug.Utils.Push.{Items, array_push-Items}

pushed :
    array_push (codes "a" ∷ []) (some (codes "b,,c")) ≡ codes "a" ∷ codes "b" ∷ [] ∷ codes "c" ∷ []
unfolding array_push strsep
pushed = refl

wrapped :
    array_push_int [] (some (codes "4294967295,2147483648,7"))
    ≡ negsuc 0 ∷ negsuc 2147483647 ∷ pos 7 ∷ []
unfolding array_push_int strsep strtol
wrapped = refl

matched : strmatch (codes "eth0") (codes "eth*") ≡ some true
unfolding strmatch starts_with
matched = refl

negated : strcmp (codes "!up") (codes "down") ≡ false
unfolding strcmp str_eq
negated = refl

abbrev parts : List (Option Bytes)
parts = some (codes "a") ∷ none ∷ some (codes "b") ∷ []

array_push-Items_example :
    (items : List Bytes) × (array_push [] (some (codes "a,b")) ≡ items) × Items (codes "a,b") items
array_push-Items_example = array_push-Items [] (codes "a,b")
