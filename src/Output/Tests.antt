-- ===== src/Output/Tests.antt =====
-- Output of a check that has reported a few things, and the theorems at an input.
use mathlib.Core.List.{Permᴰ}
use monitoringplug.Base.{true, some, List, [], ◌∷◌, ◌≡◌, refl, codes}
use monitoringplug.Text.{starts_with, decimal}
use monitoringplug.Output.{
  initial, set_ok, set_warning, set_critical, set_okonly, mp_exit, timeout_alarm_handler,
  perfdata_part,
}
use monitoringplug.Output.Severity.{
  is_ok, is_warning, is_critical, Report, report_all, mp_exit-worst, mp_exit-perm,
}
use monitoringplug.Output.Collect.{channel, mp_exit-line}
use monitoringplug.Output.Memory.{Sized, report_all-Sized}

abbrev disk : Report
disk = record { severity = is_warning; text = codes "disk" }

abbrev load : Report
load = record { severity = is_critical; text = codes "load" }

abbrev users : Report
users = record { severity = is_ok; text = codes "users" }

abbrev both : List Report
both = disk ∷ load ∷ users ∷ disk ∷ []

printed :
    (mp_exit (codes "host") (report_all both initial)).stdout
    ≡ codes "CRITICAL - host load Warning: disk, disk OK: users\n"
unfolding mp_exit report_all set_ok set_warning set_critical
printed = refl

okonly_printed :
    (mp_exit (codes "host") (set_okonly (codes "fine") initial)).stdout ≡ codes "OK - host fine\n"
unfolding mp_exit set_okonly
okonly_printed = refl

timed_out :
    timeout_alarm_handler 14 10 14 initial
    ≡ some
        (record { stdout = codes "CRITICAL - Plugin timed out after 10 seconds\n\n"; status = 2 })
unfolding timeout_alarm_handler decimal
timed_out = refl

mp_exit-worst_example :
    ((mp_exit (codes "host") (report_all both initial)).status ≡ 2)
    × (starts_with
          (mp_exit (codes "host") (report_all both initial)).stdout
          (codes "CRITICAL - host")
        ≡ true)
mp_exit-worst_example = mp_exit-worst both (codes "host") initial refl

mp_exit-line_example :
    (mp_exit (codes "host") (
      report_all both
        (record initial { show_perfdata = true; perfdata = some (codes "load=3") }))).stdout
    ≡ codes "CRITICAL - host load Warning: disk, disk OK: users | load=3\n"
unfolding perfdata_part
mp_exit-line_example = mp_exit-line both (codes "host") true (some (codes "load=3"))

mp_exit-perm_example :
    (mp_exit (codes "host") (report_all (disk ∷ load ∷ []) initial)).status
    ≡ (mp_exit (codes "host") (report_all (load ∷ disk ∷ []) initial)).status
mp_exit-perm_example =
    mp_exit-perm (disk ∷ load ∷ []) (load ∷ disk ∷ []) (codes "host") initial refl
      ∣ Permᴰ.swap refl refl ∣₁

report_all-Sized_example : Sized (channel is_warning (report_all both initial)) 2
report_all-Sized_example = report_all-Sized is_warning both
