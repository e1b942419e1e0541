-- ===== src/Checks/Dummy/Tests.antt =====
-- Runs of check_dummy.
use monitoringplug.Base.{[], ◌∷◌, ◌≡◌, refl, codes}
use monitoringplug.Output.{initial, warning, critical}
use monitoringplug.Getopt.{completed, fault}
use monitoringplug.Checks.Dummy.{check}

check-2 :
    check (λ s. s) (codes "check_dummy") (codes "2" ∷ codes "down" ∷ []) initial
    ≡ completed (warning (codes "2 down") initial)
unfolding check
check-2 = refl

check-number :
    check (λ s. s) (codes "7") (codes "2" ∷ codes "down" ∷ []) initial
    ≡ completed (critical (codes "down") initial)
unfolding check
check-number = refl

check-empty : check (λ s. s) (codes "check_dummy") [] initial ≡ fault
unfolding check
check-empty = refl
