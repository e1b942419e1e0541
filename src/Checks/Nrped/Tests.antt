-- ===== src/Checks/Nrped/Tests.antt =====
-- Runs of check_nrped.
use monitoringplug.Base.{true, false, none, some, ◌≡◌, refl, codes}
use monitoringplug.Output.{initial, ok, warning, critical}
use monitoringplug.Checks.Nrped.{Touch, check}

abbrev readonly : Touch
readonly = record { open_fails = true; close_fails = true; utime_fails = true }

abbrev writable : Touch
writable = record { open_fails = false; close_fails = false; utime_fails = false }

check-outside :
    check (λ f. writable) none (some (codes "/tmp/f")) initial
    ≡ critical (codes "Executed outside of nrped.") initial
unfolding check
check-outside = refl

check-touched :
    check (λ f. writable) (some (codes "3.2")) (some (codes "/tmp/f")) initial
    ≡ ok (codes "NRPE v3.2") initial
unfolding check
check-touched = refl

check-readonly :
    check (λ f. readonly) (some (codes "3.2")) (some (codes "/tmp/f")) initial
    ≡ warning (codes "NRPE v3.2 - open '/tmp/f' failed") initial
unfolding check
check-readonly = refl
