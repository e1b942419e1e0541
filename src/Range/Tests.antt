-- ===== src/Range/Tests.antt =====
-- Ranges over the natural numbers in place of `double`, and the theorems at an input.
use monitoringplug.Base.{
  ℕ, ◌≤◌, true, false, none, some, [], ◌∷◌, ◌≡◌, refl, inl, inr, ◌⊎◌, ◌==◌, ◌↔◌, arith, codes, leb,
}
use monitoringplug.Text.{strsep, is_digit, digits_value, decimal}
use monitoringplug.Range.{
  outside, inside, noext, bisi, time, accepted, error, Range, Thresholds, resolve,
  parse_range_string, check_range, get_status, str_range, set_warning_range, set_critical_range,
}
use monitoringplug.Range.Naturals.{read_digits, whole}
use monitoringplug.Range.Check.{Alerts, SomeAlerts, check_range_lem, get_status_lem}
use monitoringplug.Range.Parse.{
  IsOrdered, HasNan, WhenAccepted, IsRefused, IsNumber, parse_range_string-IsOrdered,
  parse_range_string-error, parse_range_string-swap,
}
use monitoringplug.Range.Print.{IsCanonical, parse_range_string-str_range}

abbrev ten_to_twenty : Range ℕ
ten_to_twenty = record {
  start = 10;
  start_infinity = false;
  start_percent = false;
  end = 20;
  end_infinity = false;
  end_percent = false;
  alert_on = outside;
}

abbrev limits : Thresholds ℕ
limits = record {
  warning = some ten_to_twenty;
  critical = some (record ten_to_twenty { end = 30 });
}

parsed :
    parse_range_string whole bisi (codes "@2K:1")
    ≡ (record ten_to_twenty { start = 1; end = 2048; alert_on = inside }, accepted)
unfolding parse_range_string read_digits strsep
parsed = refl

warning_set :
    set_warning_range whole time (codes "10:20") (some (record limits { warning = none }))
    ≡ (limits, accepted)
unfolding set_warning_range read_digits strsep
warning_set = refl

critical_refused : (set_critical_range whole noext (codes "10:x") none).1 ≡ error
unfolding set_critical_range read_digits strsep
critical_refused = refl

check_range_lem_example :
    (check_range whole 25 ten_to_twenty ≡ true) ↔ Alerts whole 25 ten_to_twenty
check_range_lem_example = check_range_lem whole 25 ten_to_twenty

get_status_lem_example :
    ((get_status whole 25 (some limits) ≡ 2) ↔ SomeAlerts whole 25 limits.critical)
    × ((get_status whole 25 (some limits) ≡ 1)
        ↔ (¬ (SomeAlerts whole 25 limits.critical) × SomeAlerts whole 25 limits.warning))
    × (get_status whole 25 (some limits) ≤ 2)
get_status_lem_example = get_status_lem whole 25 (some limits)

leb_total : (a b : ℕ) → a == a ≡ true → b == b ≡ true → leb a b ≡ false → leb b a ≡ true
leb_total a b h k l = ground arith

parse_range_string-IsOrdered_example :
    WhenAccepted whole
      (λ r. (HasNan whole r ⊎ IsOrdered whole r) × (r.alert_on ≡ inside))
      (parse_range_string whole bisi (codes "@20:10"))
parse_range_string-IsOrdered_example =
    parse_range_string-IsOrdered whole leb_total bisi (codes "@20:10")

parse_range_string-error_example :
    ((parse_range_string whole noext (codes "x:y")).1 ≡ error) ↔ IsRefused whole (codes "y")
unfolding strsep
parse_range_string-error_example = parse_range_string-error whole noext (codes "x:y")

number :
    (c d : ℕ)
    → is_digit c ≡ true
    → is_digit d ≡ true
    → IsNumber whole (c ∷ d ∷ []) (digits_value 0 (c ∷ d ∷ [])) []
unfolding read_digits
number c d h k = record {
  no_colon = (unfold is_digit in ground arith, (unfold is_digit in ground arith, tt));
  plain = (
    unfold is_digit in ground arith,
    unfold is_digit in ground arith,
    unfold is_digit in ground arith,
  );
  reads = rw (h, k) refl;
}

ten : IsNumber whole (codes "10") 10 []
unfolding is_digit digits_value
ten = number b'1' b'0' refl refl

twenty : IsNumber whole (codes "20") 20 []
unfolding is_digit digits_value
twenty = number b'2' b'0' refl refl

parse_range_string-swap_example :
    (parse_range_string whole noext (codes "10:20") ≡ (ten_to_twenty, accepted))
    × (parse_range_string whole noext (codes "20:10") ≡ (ten_to_twenty, accepted))
unfolding resolve
parse_range_string-swap_example =
    parse_range_string-swap whole noext (codes "10") (codes "20") ten twenty refl refl refl refl

ten_to_twenty-IsCanonical : IsCanonical whole ten_to_twenty
ten_to_twenty-IsCanonical = record {
  alert = refl;
  absolute = (refl, refl);
  ordered = inr (inr refl);
  start_default = λ h. cc;
  end_default = λ h. cc;
  zero_start = λ h. cc;
}

parse_range_string-str_range_example :
    parse_range_string whole noext (str_range whole (some ten_to_twenty))
    ≡ (ten_to_twenty, accepted)
unfolding decimal
parse_range_string-str_range_example =
    parse_range_string-str_range whole ten_to_twenty ten_to_twenty-IsCanonical ten twenty
      (inr (inl refl))

abbrev from_zero : Range ℕ
from_zero = record ten_to_twenty { start = 0; end = 0; end_infinity = true }
