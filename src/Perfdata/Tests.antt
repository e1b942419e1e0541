-- ===== src/Perfdata/Tests.antt =====
-- A line with a quoted label, and the theorem at an input.
use monitoringplug.Base.{ℕ, true, false, none, some, [], ◌≡◌, refl, codes}
use monitoringplug.Base.Int.{pos, pos_part}
use monitoringplug.Text.{contains, decimal, decimal_ℤ}
use monitoringplug.Range.{Thresholds, outside, str_range}
use monitoringplug.Range.Naturals.{whole}
use monitoringplug.Perfdata.{is_quoted, percent_resolv, perfdata_int2, perfdata_int3}
use monitoringplug.Perfdata.Integer.{perfdata_int2-closed}

abbrev half : Thresholds ℕ
half = record {
  warning = some (record {
    start = 0;
    start_infinity = false;
    start_percent = false;
    end = 2;
    end_infinity = false;
    end_percent = true;
    alert_on = outside;
  });
  critical = none;
}

quoted :
    perfdata_int3 whole pos_part true
      (codes "a b")
      (pos 7)
      (codes "s")
      (some (pos 8))
      none
      none
      (some (pos 9))
      (some (codes "x=1;"))
    ≡ some (codes "x=1; 'a b'=7s;~:8;;;9;")
unfolding perfdata_int3 contains decimal_ℤ decimal str_range
quoted = refl

abbrev resolved : Thresholds ℕ
resolved = record half {
  warning = some (record {
    start = 0;
    start_infinity = false;
    start_percent = false;
    end = 100;
    end_infinity = false;
    end_percent = false;
    alert_on = outside;
  });
}

perfdata_int2-closed_example :
    perfdata_int2 whole pos_part true
      (codes "load")
      (pos 3)
      []
      (some half)
      none
      (some (pos 50))
      none
    ≡ (some (codes "load=3;100;;;50;"), some resolved)
unfolding percent_resolv is_quoted contains decimal_ℤ decimal str_range
perfdata_int2-closed_example =
    perfdata_int2-closed whole pos_part (codes "load") (pos 3) [] (some half) none (some (pos 50))
      none refl tt (refl, (refl, (refl, tt))) tt
