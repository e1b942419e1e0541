-- ===== src/Args/Tests.antt =====
-- Some command lines, and the theorems at an input.
use monitoringplug.Base.{
  ℕ, true, false, Option, none, ◌≡◌, refl, arith, Bytes, codes, if◌then◌else◌, Bool,
}
use monitoringplug.Base.Int.{pos}
use monitoringplug.Text.{str_eq, strsep, decimal_ℤ}
use monitoringplug.Check.{is_integer, is_hostaddr}
use monitoringplug.Range.{
  Range, Thresholds, outside, noext, accepted, parse_range_string, check_range, get_status,
}
use monitoringplug.Range.Naturals.{read_digits, whole}
use monitoringplug.Args.{stored, refused, getopt_port, getopt_wc, unspec, getopt_46}
use monitoringplug.Args.Options.{◌>>=◌, getopt_port-decimal_ℤ, getopt_wc_lem}

abbrev local_only : Bytes → Bool
local_only = is_hostaddr (λ s. str_eq s (codes "127.0.0.1")) (λ s. str_eq s (codes "::1"))

port_text : getopt_port (codes "http") ≡ refused (codes "Illegal port number 'http'.")
unfolding getopt_port is_integer
port_text = refl

both_families : getopt_46 true b'6' (getopt_46 true b'4' unspec) ≡ unspec
unfolding getopt_46
both_families = refl

getopt_port-decimal_ℤ_example : getopt_port (decimal_ℤ (pos 8080)) ≡ stored (pos 8080)
getopt_port-decimal_ℤ_example = getopt_port-decimal_ℤ (pos 8080) (omega arith, omega arith)

abbrev to : ℕ → Range ℕ
to n = record {
  start = 0;
  start_infinity = false;
  start_percent = false;
  end = n;
  end_infinity = false;
  end_percent = false;
  alert_on = outside;
}

five : parse_range_string whole noext (codes "5") ≡ (to 5, accepted)
unfolding parse_range_string read_digits strsep
five = refl

nine : parse_range_string whole noext (codes "9") ≡ (to 9, accepted)
unfolding parse_range_string read_digits strsep
nine = refl

getopt_wc_lem_example :
    ((getopt_wc whole noext b'w' (codes "5") none >>= getopt_wc whole noext b'c' (codes "9"))
      ≡ (getopt_wc whole noext b'c' (codes "9") none >>= getopt_wc whole noext b'w' (codes "5")))
    × (t : Option (Thresholds ℕ)) × ((getopt_wc whole noext b'w' (codes "5") none
          >>= getopt_wc whole noext b'c' (codes "9"))
        ≡ stored t)
    × (get_status whole 7 t
        ≡ (if check_range whole 7 (to 9) then 2 else if check_range whole 7 (to 5) then 1 else 0))
getopt_wc_lem_example = getopt_wc_lem whole noext (codes "5") (codes "9") five nine 7

abbrev unset : Thresholds ℕ
unset = record { warning = none; critical = none }
