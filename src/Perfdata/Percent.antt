-- ===== src/Perfdata/Percent.antt =====
-- `mp_perfdata_percent_resolv`: what a percentage becomes.
use monitoringplug.Base.{Option, none, some, ◌≡◌, refl, ap}
use monitoringplug.Range.{Doubles, Range, Thresholds}
use monitoringplug.Perfdata.{resolv_range, resolv_option, percent_resolv}

module _ (F : Doubles) where
  open F use {D}

  resolv_option_again :
      (m n : D) (o : Option (Range D))
      → resolv_option F n (resolv_option F m o) ≡ resolv_option F m o
  unfolding resolv_range
  resolv_option_again m n none = refl
  resolv_option_again m n (some r) = refl

  -- Thresholds that were resolved once stay as they are, whatever maximum a second call is given.
  pub percent_resolv_again :
      (m n : D) (t : Option (Thresholds D))
      → percent_resolv F n (percent_resolv F m t) ≡ percent_resolv F m t
  unfolding percent_resolv
  percent_resolv_again m n none = refl
  percent_resolv_again m n (some t) =
      ap some (rw (resolv_option_again m n t.warning, resolv_option_again m n t.critical) refl)
