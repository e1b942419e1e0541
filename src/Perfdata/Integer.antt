-- ===== src/Perfdata/Integer.antt =====
-- `mp_perfdata_int2`: the line for an integer.
use monitoringplug.Base.{
  ℕ, suc, true, false, Option, none, some, [], ◌≡◌, ◌≢◌, refl, arith, Bytes, ◌==◌, All, All-map,
}
use monitoringplug.Base.Int.{ℤ, pos, negsuc}
use monitoringplug.Text.{is_digit, decimal, decimal_ℤ}
use monitoringplug.Text.Decimal.{decimal-IsDigits, decimal-ne-nil}
use monitoringplug.Range.{Doubles, Thresholds}
use monitoringplug.Perfdata.{
  percent_resolv, or_zero, warning_text, critical_text, printed, perfdata_int2,
}
use monitoringplug.Perfdata.Line.{
  IsField, or_empty, closed, drop_empty, named, behind, fields, write-closed,
}

digit-plain : (c : ℕ) → is_digit c ≡ true → (c == b';') ≡ false
unfolding is_digit
digit-plain c h = ground arith

decimal_ℤ-IsField : (n : ℤ) → IsField (decimal_ℤ n)
unfolding decimal_ℤ
decimal_ℤ-IsField (pos n) = All-map digit-plain (decimal n) (decimal-IsDigits n)
decimal_ℤ-IsField (negsuc n) =
    (refl, All-map digit-plain (decimal (suc n)) (decimal-IsDigits (suc n)))

decimal_ℤ-ne-nil : (n : ℤ) → decimal_ℤ n ≢ []
unfolding decimal_ℤ
decimal_ℤ-ne-nil (pos n) e = decimal-ne-nil n e
decimal_ℤ-ne-nil (negsuc n) e = cc

module _ (F : Doubles) where
  open F use {D}

  fields-IsField :
      (warning critical : Option Bytes) (min max : Option ℤ)
      → IsField (or_empty warning)
      → IsField (or_empty critical)
      → All IsField (fields warning critical (printed F decimal_ℤ min) (printed F decimal_ℤ max))
  fields-IsField w c none none h k = (tt, (k, (h, tt)))
  fields-IsField w c none (some m) h k = (decimal_ℤ-IsField m, (tt, (k, (h, tt))))
  fields-IsField w c (some n) none h k = (decimal_ℤ-IsField n, (k, (h, tt)))
  fields-IsField w c (some n) (some m) h k =
      (decimal_ℤ-IsField m, (decimal_ℤ-IsField n, (k, (h, tt))))

  -- With performance data asked for, an integer with its unit, the ranges, resolved against the maximum
  -- (0 if there is none), and the minimum and maximum, if given, are appended: label, value and unit, and
  -- the fields up to the last that is not empty, each with a semicolon behind it. (No printed range and
  -- no unit holds a semicolon.)
  pub perfdata_int2-closed :
      (of_long : ℤ → D) (label : Bytes) (value : ℤ) (unit : Bytes)
      (threshold : Option (Thresholds D)) (min max : Option ℤ) (perfdata : Option Bytes)
      {t : Option (Thresholds D)}
      → percent_resolv F (or_zero F of_long max) threshold ≡ t
      → IsField unit
      → IsField (or_empty (warning_text F t))
      → IsField (or_empty (critical_text F t))
      → perfdata_int2 F of_long true label value unit threshold min max perfdata ≡ (
        some (
            closed (behind perfdata (named label (decimal_ℤ value) unit)) (
              drop_empty (
                fields
                  (warning_text F t)
                  (critical_text F t)
                  (printed F decimal_ℤ min)
                  (printed F decimal_ℤ max)))),
        t,
      )
  unfolding perfdata_int2
  perfdata_int2-closed of_long label value unit threshold min max perfdata {t} e u w c =
      rw
        (
          e,
          write-closed label (decimal_ℤ value) unit (warning_text F t) (critical_text F t)
              (printed F decimal_ℤ min) (printed F decimal_ℤ max) perfdata (decimal_ℤ-ne-nil value)
              (decimal_ℤ-IsField value) u
              (fields-IsField (warning_text F t) (critical_text F t) min max w c),
        )
        refl
