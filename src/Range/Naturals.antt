-- ===== src/Range/Naturals.antt =====
-- The natural numbers in place of `double`, on which tests are evaluated: a number is read as the
-- digits at the front of a text and printed in decimal.
use monitoringplug.Base.{
  ℕ, ◌*◌, ◌/◌, Option, none, some, Bytes, ltb, leb, ◌==◌, if◌then◌else◌, drop,
}
use monitoringplug.Text.{strspn, is_digit, digits_value, decimal}
use monitoringplug.Range.{Doubles}

unfoldable pub read_digits : Bytes → Option (ℕ × Bytes)
unfolding strspn is_digit digits_value
read_digits s =
    let n = strspn is_digit s in if n == 0 then none else some (digits_value 0 s, drop n s)

abbrev pub whole : Doubles
whole = record {
  D = ℕ;
  of_nat = λ n. n;
  lt = ltb;
  le = leb;
  eq = ◌==◌;
  mul = λ a b. a * b;
  div = λ a b. a / b;
  strtod = read_digits;
  print3 = decimal;
}
