-- ===== src/Perfdata.antt =====
-- lib/mp_perfdata.c: the performance data that a check appends for one value. The ranges are those of
-- `Range`, with its machine `Doubles`; `print n` is `printf("%.*f", n, …)`, and `of_long` the conversion
-- of a `long`. What is appended before the last loop depends on nothing but printed texts.
pub mod Line
pub mod Percent
pub mod Integer
mod Tests
use monitoringplug.Base.{
  ℕ, zero, suc, ◌+◌, ◌-◌, Bool, true, false, not, ◌||◌, Option, none, some, [], ◌∷◌, ◌++◌, Bytes,
  codes, length, take, get_elem?, ◌==◌, if◌then◌else◌,
}
use monitoringplug.Base.Int.{ℤ, pos}
use monitoringplug.Text.{contains, decimal_ℤ}
use monitoringplug.Range.{Doubles, Range, Thresholds, defaults, str_range}
use monitoringplug.Utils.{strcat, strcat_space}

-- `for (buf = …; *(buf-1) == ';'; buf--) *buf = '\0';` with `buf` at an index; `none` is the read before
-- the text
unfoldable pub trim_loop : ℕ → Bytes → Option Bytes
trim_loop zero text = none
trim_loop (suc i) text = elim (get_elem? text i) [
  | none ↦ none
  | some c ↦ let rest = trim_loop i (take (suc i) text) in if c == b';' then rest else some text
]

unfoldable pub trim : Option Bytes → Option Bytes
unfolding trim_loop
trim none = none
trim (some text) = trim_loop (length text - 1) text

-- `strpbrk(label, "'= +")`
unfoldable pub is_quoted : Bytes → Bool
unfolding contains
is_quoted label =
    contains b'\'' label || contains b'=' label || contains b' ' label || contains b'+' label

unfoldable pub name_value : Bytes → Bytes → Bytes → Bytes
unfolding is_quoted
name_value label value unit =
    if is_quoted label
    then b'\'' ∷ (label ++ b'\'' ∷ b'=' ∷ (value ++ (unit ++ b';' ∷ [])))
    else label ++ b'=' ∷ (value ++ (unit ++ b';' ∷ []))

-- `if (buf) mp_strcat(&mp_perfdata, buf);` and the separator
abbrev pub field : Option Bytes → Option Bytes → Option Bytes
field perfdata text = strcat (strcat perfdata text) (some (b';' ∷ []))

abbrev pub with_semicolon : Option Bytes → Option Bytes
with_semicolon none = none
with_semicolon (some text) = some (text ++ b';' ∷ [])

-- what `mp_perfdata_int2` and `mp_perfdata_float2` do behind the test of `mp_showperfdata`, on the texts
-- that they print; those of the optional values may be missing
unfoldable pub write :
    Bytes
    → Bytes
    → Bytes
    → Option Bytes
    → Option Bytes
    → Option Bytes
    → Option Bytes
    → Option Bytes
    → Option Bytes
unfolding trim name_value strcat strcat_space
write label value unit warning critical min max perfdata =
    let named = strcat_space perfdata (some (name_value label value unit)) in
    let ranged = field (field named warning) critical in
    trim (strcat (field ranged min) (with_semicolon max))

module _ (F : Doubles) where
  open F use {D, of_nat, le, eq, mul}

  unfoldable pub resolv_range : D → Range D → Range D
  resolv_range max r = record r {
    start = if r.start_percent then mul r.start max else r.start;
    start_percent = false;
    end = if r.end_percent then mul r.end max else r.end;
    end_percent = false;
  }

  abbrev pub resolv_option : D → Option (Range D) → Option (Range D)
  resolv_option max none = none
  resolv_option max (some r) = some (resolv_range max r)

  unfoldable pub percent_resolv : D → Option (Thresholds D) → Option (Thresholds D)
  unfolding resolv_range
  percent_resolv max none = none
  percent_resolv max (some t) =
      some (record t {
        warning = resolv_option max t.warning;
        critical = resolv_option max t.critical;
      })

  abbrev pub printed_range : Option (Range D) → Option Bytes
  printed_range none = none
  printed_range (some r) = some (str_range F (some r))

  abbrev pub warning_text : Option (Thresholds D) → Option Bytes
  warning_text none = none
  warning_text (some t) = printed_range t.warning

  abbrev pub critical_text : Option (Thresholds D) → Option Bytes
  critical_text none = none
  critical_text (some t) = printed_range t.critical

  abbrev pub printed {ℓ} : {A : Type ℓ} → (A → Bytes) → Option A → Option Bytes
  printed print none = none
  printed print (some a) = some (print a)

  abbrev pub or_zero {ℓ} : {A : Type ℓ} → (A → D) → Option A → D
  or_zero of none = of_nat 0
  or_zero of (some a) = of a

  -- The new performance data, and the thresholds, which are resolved in place.
  unfoldable pub perfdata_int2 :
      (ℤ → D)
      → Bool
      → Bytes
      → ℤ
      → Bytes
      → Option (Thresholds D)
      → Option ℤ
      → Option ℤ
      → Option Bytes
      → Option Bytes × Option (Thresholds D)
  unfolding percent_resolv write
  perfdata_int2 of_long show label value unit threshold min max perfdata =
      let t = percent_resolv (or_zero of_long max) threshold in
      if not show then (perfdata, t) else (
        write label (decimal_ℤ value) unit (warning_text t) (critical_text t)
            (printed decimal_ℤ min) (printed decimal_ℤ max) perfdata,
        t,
      )

  abbrev pub precision_of : D → ℕ
  precision_of value = if le (of_nat 9999) value then 0 else if eq value (of_nat 0) then 0 else 3

  unfoldable pub perfdata_float2 :
      (ℕ → D → Bytes)
      → Bool
      → Bytes
      → D
      → Bytes
      → Option (Thresholds D)
      → Option D
      → Option D
      → Option Bytes
      → Option Bytes × Option (Thresholds D)
  unfolding percent_resolv write
  perfdata_float2 print show label value unit threshold min max perfdata =
      let t = percent_resolv (or_zero (λ d. d) max) threshold in
      let precision = precision_of value in
      if not show then (perfdata, t) else (
        write label (print precision value) unit (warning_text t) (critical_text t)
            (printed (print precision) min) (printed (print precision) max) perfdata,
        t,
      )

  unfoldable pub perfdata_int :
      (ℤ → D)
      → Bool
      → Bytes
      → ℤ
      → Bytes
      → Option (Thresholds D)
      → Option Bytes
      → Option Bytes × Option (Thresholds D)
  unfolding perfdata_int2
  perfdata_int of_long show label value unit threshold perfdata =
      perfdata_int2 of_long show label value unit threshold none none perfdata

  unfoldable pub perfdata_float :
      (ℕ → D → Bytes)
      → Bool
      → Bytes
      → D
      → Bytes
      → Option (Thresholds D)
      → Option Bytes
      → Option Bytes × Option (Thresholds D)
  unfolding perfdata_float2
  perfdata_float print show label value unit threshold perfdata =
      perfdata_float2 print show label value unit threshold none none perfdata

  -- the range from minus infinity to a limit
  abbrev pub up_to : D → Range D
  up_to limit = record (defaults F) { start_infinity = true; end = limit }

  abbrev pub limits : Option D → Option D → Option (Thresholds D)
  limits none none = none
  limits (some w) none = some (record { warning = some (up_to w); critical = none })
  limits none (some c) = some (record { warning = none; critical = some (up_to c) })
  limits (some w) (some c) = some (record { warning = some (up_to w); critical = some (up_to c) })

  abbrev pub converted : (ℤ → D) → Option ℤ → Option D
  converted of_long none = none
  converted of_long (some n) = some (of_long n)

  unfoldable pub perfdata_int3 :
      (ℤ → D)
      → Bool
      → Bytes
      → ℤ
      → Bytes
      → Option ℤ
      → Option ℤ
      → Option ℤ
      → Option ℤ
      → Option Bytes
      → Option Bytes
  unfolding perfdata_int2
  perfdata_int3 of_long show label value unit warn crit min max perfdata =
      (perfdata_int2 of_long show label value unit
        (limits (converted of_long warn) (converted of_long crit)) min max perfdata).0

  unfoldable pub perfdata_float3 :
      (ℕ → D → Bytes)
      → Bool
      → Bytes
      → D
      → Bytes
      → Option D
      → Option D
      → Option D
      → Option D
      → Option Bytes
      → Option Bytes
  unfolding perfdata_float2
  perfdata_float3 print show label value unit warn crit min max perfdata =
      (perfdata_float2 print show label value unit (limits warn crit) min max perfdata).0
