-- ===== src/Perfdata/Line.antt =====
-- The text that one value adds to the performance data.
use monitoringplug.Base.{
  ℕ, suc, ◌-◌, false, Option, none, some, List, [], ◌∷◌, ◌++◌, append_assoc, ◌≡◌, ◌≢◌, refl, sym,
  ap, ◌∙◌, inl, inr, arith, Bytes, codes, length, length-append, take-append_one, get_elem?-append,
  ◌==◌, All, All-append, Bool-cases, if◌then◌else◌,
}
use monitoringplug.Utils.{strcat, strcat_space}
use monitoringplug.Perfdata.{trim_loop, trim, is_quoted, name_value, field, with_semicolon, write}

-- Printed texts hold no semicolon.
abbrev pub IsField : Bytes → Type 0
IsField = All (λ c. (c == b';') ≡ false)

abbrev pub or_empty : Option Bytes → Bytes
or_empty none = []
or_empty (some s) = s

-- A text and fields, each with a semicolon behind it; the last field comes first in the list.
abbrev pub closed : Bytes → List Bytes → Bytes
closed h [] = h ++ b';' ∷ []
closed h (f ∷ fs) = closed h fs ++ (f ++ b';' ∷ [])

-- the fields without the empty ones at the end
abbrev pub drop_empty : List Bytes → List Bytes
drop_empty [] = []
drop_empty ([] ∷ fs) = drop_empty fs
drop_empty ((c ∷ f) ∷ fs) = (c ∷ f) ∷ fs

trim-two : (x : Bytes) → trim (some (x ++ b';' ∷ b';' ∷ [])) ≡ trim (some (x ++ b';' ∷ []))
unfolding trim
trim-two x =
    let long : length (x ++ b';' ∷ b';' ∷ []) - 1 ≡ suc (length x) =
      omega (arith, length-append x (b';' ∷ b';' ∷ [])) in
    let short : length (x ++ b';' ∷ []) - 1 ≡ length x =
      omega (arith, length-append x (b';' ∷ [])) in
    rw (long, short, trim_loop, get_elem?-append x b';' (b';' ∷ []))
      (ap (trim_loop (length x)) (take-append_one x b';' (b';' ∷ [])))

trim-last :
    (x : Bytes) (c : ℕ)
    → (c == b';') ≡ false
    → trim (some (x ++ c ∷ b';' ∷ [])) ≡ some (x ++ c ∷ b';' ∷ [])
unfolding trim
trim-last x c h =
    let long : length (x ++ c ∷ b';' ∷ []) - 1 ≡ suc (length x) =
      omega (arith, length-append x (c ∷ b';' ∷ [])) in
    rw (long, trim_loop, get_elem?-append x c (b';' ∷ []), h) refl

-- A text with a last character that is no semicolon.
record Ends (s : Bytes) : Type 0 where
  front : Bytes
  final : ℕ
  whole : s ≡ front ++ final ∷ []
  plain : (final == b';') ≡ false

IsField-Ends : (c : ℕ) (s : Bytes) → IsField (c ∷ s) → Ends (c ∷ s)
IsField-Ends c [] (h, hs) = record { front = []; final = c; whole = refl; plain = h }
IsField-Ends c (d ∷ s) (h, hs) =
    let e = IsField-Ends d s hs in
    record { front = c ∷ e.front; final = e.final; whole = ap (◌∷◌ c) e.whole; plain = e.plain }

Ends-append : (a : Bytes) {s : Bytes} → Ends s → Ends (a ++ s)
Ends-append a e = record {
  front = a ++ e.front;
  final = e.final;
  whole = ap (λ s. a ++ s) e.whole ∙ sym (append_assoc a e.front (e.final ∷ []));
  plain = e.plain;
}

trim-Ends : {s : Bytes} → Ends s → trim (some (s ++ b';' ∷ [])) ≡ some (s ++ b';' ∷ [])
trim-Ends {s} e =
    let whole : s ++ b';' ∷ [] ≡ e.front ++ e.final ∷ b';' ∷ [] =
      ap (λ s. s ++ b';' ∷ []) e.whole ∙ append_assoc e.front (e.final ∷ []) (b';' ∷ []) in
    ap (λ s. trim (some s)) whole ∙ trim-last e.front e.final e.plain ∙ ap some (sym whole)

closed_semicolon : (h : Bytes) (fs : List Bytes) → (x : Bytes) × (closed h fs ≡ x ++ b';' ∷ [])
closed_semicolon h [] = (h, refl)
closed_semicolon h (f ∷ fs) = (closed h fs ++ f, sym (append_assoc (closed h fs) f (b';' ∷ [])))

trim-closed :
    {h : Bytes} (fs : List Bytes)
    → Ends h
    → All IsField fs
    → trim (some (closed h fs)) ≡ some (closed h (drop_empty fs))
trim-closed [] e k = trim-Ends e
trim-closed {h} ([] ∷ fs) e (k, ks) =
    let (x, w) = closed_semicolon h fs in
    ap (λ s. trim (some (s ++ b';' ∷ []))) w
    ∙ ap (λ s. trim (some s)) (append_assoc x (b';' ∷ []) (b';' ∷ []))
    ∙ trim-two x
    ∙ ap (λ s. trim (some s)) (sym w)
    ∙ trim-closed fs e ks
trim-closed {h} ((c ∷ f) ∷ fs) e (k, ks) =
    let w = sym (append_assoc (closed h fs) (c ∷ f) (b';' ∷ [])) in
    ap (λ s. trim (some s)) w
    ∙ trim-Ends (Ends-append (closed h fs) (IsField-Ends c f k))
    ∙ ap some (sym w)

field-closed :
    (h : Bytes) (fs : List Bytes) (o : Option Bytes)
    → field (some (closed h fs)) o ≡ some (closed h (or_empty o ∷ fs))
unfolding strcat
field-closed h fs none = refl
field-closed h fs (some s) = ap some (append_assoc (closed h fs) s (b';' ∷ []))

-- The specification: the label, in quotes where it needs them, and the value with its unit.
abbrev pub named : Bytes → Bytes → Bytes → Bytes
named label value unit =
    if is_quoted label
    then b'\'' ∷ (label ++ b'\'' ∷ b'=' ∷ (value ++ unit))
    else label ++ b'=' ∷ (value ++ unit)

name_value-named :
    (label value unit : Bytes) → name_value label value unit ≡ named label value unit ++ b';' ∷ []
unfolding name_value
name_value-named label value unit = elim (Bool-cases (is_quoted label)) [
  | inl e ↦ rw e (simp append_assoc)
  | inr e ↦ rw e (simp append_assoc)
]

-- behind what was there and a blank
abbrev pub behind : Option Bytes → Bytes → Bytes
behind none s = s
behind (some perfdata) s = perfdata ++ (codes " " ++ s)

named-closed :
    (label value unit : Bytes) (perfdata : Option Bytes)
    → strcat_space perfdata (some (name_value label value unit))
      ≡ some (closed (behind perfdata (named label value unit)) [])
unfolding strcat_space
named-closed label value unit none = ap some (name_value-named label value unit)
named-closed label value unit (some p) =
    ap some
      (ap (λ s. p ++ (codes " " ++ s)) (name_value-named label value unit) ∙ simp append_assoc)

-- The specification of the fields, the last one first.
abbrev pub fields : Option Bytes → Option Bytes → Option Bytes → Option Bytes → List Bytes
fields warning critical min none = or_empty min ∷ or_empty critical ∷ or_empty warning ∷ []
fields warning critical min (some max) =
    max ∷ or_empty min ∷ or_empty critical ∷ or_empty warning ∷ []

named-Ends :
    (label value unit : Bytes) (perfdata : Option Bytes)
    → value ≢ []
    → IsField value
    → IsField unit
    → Ends (behind perfdata (named label value unit))
named-Ends label [] unit perfdata ne v u = absurd (ne refl)
named-Ends label (c ∷ value) unit perfdata ne v u =
    let e =
      IsField-Ends c (value ++ unit)
        (v.0, All-append (λ c. (c == b';') ≡ false) value unit v.1 u) in
    let n : Ends (named label (c ∷ value) unit) = elim (Bool-cases (is_quoted label)) [
      | inl q ↦ rw q (Ends-append (b'\'' ∷ label) (Ends-append (b'\'' ∷ b'=' ∷ []) e))
      | inr q ↦ rw q (Ends-append label (Ends-append (b'=' ∷ []) e))
    ] in
    elim perfdata as (λ q. Ends (behind q (named label (c ∷ value) unit))) [
      | none ↦ n
      | some p ↦ Ends-append p (Ends-append (codes " ") n)
    ]

max-closed :
    (h : Bytes) (warning critical min max : Option Bytes)
    → strcat (some (closed h (fields warning critical min none))) (with_semicolon max)
      ≡ some (closed h (fields warning critical min max))
unfolding strcat
max-closed h warning critical min none = refl
max-closed h warning critical min (some m) = refl

-- What is appended for a value is a blank, if there was something before, the label, quoted where it
-- needs that, `=`, value, unit and a semicolon, and then the warning range, the critical range, minimum
-- and maximum up to the last that is not empty, each with a semicolon behind it. (The value is printed
-- as some text, and no printed text holds a semicolon.)
pub write-closed :
    (label value unit : Bytes) (warning critical min max perfdata : Option Bytes)
    → value ≢ []
    → IsField value
    → IsField unit
    → All IsField (fields warning critical min max)
    → write label value unit warning critical min max perfdata
      ≡ some (
          closed
            (behind perfdata (named label value unit))
            (drop_empty (fields warning critical min max)))
unfolding write
write-closed label value unit warning critical min max perfdata ne v u k =
    let h : Bytes = behind perfdata (named label value unit) in
    ap (λ p. trim (strcat (field (field (field p warning) critical) min) (with_semicolon max)))
      (named-closed label value unit perfdata)
    ∙ ap (λ p. trim (strcat (field (field p critical) min) (with_semicolon max)))
        (field-closed h [] warning)
    ∙ ap (λ p. trim (strcat (field p min) (with_semicolon max)))
        (field-closed h (or_empty warning ∷ []) critical)
    ∙ ap (λ p. trim (strcat p (with_semicolon max)))
        (field-closed h (or_empty critical ∷ or_empty warning ∷ []) min)
    ∙ ap trim (max-closed h warning critical min max)
    ∙ trim-closed (fields warning critical min max) (named-Ends label value unit perfdata ne v u) k
