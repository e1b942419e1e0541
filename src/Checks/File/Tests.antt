-- ===== src/Checks/File/Tests.antt =====
-- A file, and the theorems at an input.
use monitoringplug.Base.{false, arith, ℕ, true, none, some, List, [], ◌∷◌, ◌≡◌, refl, codes}
use monitoringplug.Base.Int.{pos, pos_part}
use monitoringplug.Text.{contains}
use monitoringplug.Output.{Exit, initial}
use monitoringplug.Range.Naturals.{whole}
use monitoringplug.Getopt.{completed, left, Program}
use monitoringplug.Checks.File.{
  Stat, Settings, no_settings, has, lacks, illegal_access, check_access, check, process_arguments,
  is_id,
}
use monitoringplug.Checks.File.Access.{Rule, user, everyone, reading, writing, check_access-rules}
use monitoringplug.Checks.File.ExitStatus.{check-reports}
use monitoringplug.Checks.File.Required.{file, access, events_of, process_arguments-choices}

abbrev program : Program
program = record {
  progname = codes "check_file";
  progusage = codes "-f";
  help = [];
  revision = [];
  eopt = λ o es. es;
}

-- u+rwo-w
abbrev rules : List Rule
rules = record { subjects = everyone ∷ []; asks = lacks; permissions = writing ∷ [] } ∷ []

abbrev first_rule : Rule
first_rule = record { subjects = user ∷ []; asks = has; permissions = reading ∷ writing ∷ [] }

check_access-rules_example :
    check_access initial (codes "u+rwo-w?") 420
    ≡ left (illegal_access initial (codes "u+rwo-w?") 420)
check_access-rules_example =
    check_access-rules initial (codes "u+rwo-w?") 420 first_rule rules (some (b'?', []))
      (unfold contains in refl) refl

abbrev zone : Settings ℕ
zone = record (no_settings {D = ℕ}) {
  filename = some (codes "zone");
  ownername = some (codes "named");
  accessstring = some (codes "u+rwo-w");
}

abbrev zone_stat : Stat
zone_stat = record { st_mode = 420; st_uid = 0; st_gid = 0; st_mtime = 100; st_size = 5 }

check-reports_example :
    (e : Exit) × (check whole pos_part
        (λ name. some zone_stat)
        200
        (λ name. some 25)
        (λ name. none)
        zone
        initial
      ≡ completed e)
    × (e.status ≡ 2)
unfolding is_id
check-reports_example =
    check-reports whole pos_part (λ name. some zone_stat) 200 (λ name. some 25) (λ name. none)
      initial zone (codes "zone") zone_stat true refl refl refl
      (λ q. check_access-rules q (codes "u+rwo-w") 420 first_rule rules none tt refl)

process_arguments-choices_example :
    process_arguments whole pos_part program 4
      (events_of (file (codes "a") ∷ access (codes "u+r") ∷ file (codes "b") ∷ []))
      (record { verbose = 0; timeout = pos 10; show_perfdata = false })
    ≡ completed (
      record { verbose = 0; timeout = pos 10; show_perfdata = false },
      record (no_settings {D = ℕ}) {
        filename = some (codes "b");
        accessstring = some (codes "u+r");
      },
    )
process_arguments-choices_example =
    process_arguments-choices whole pos_part program 4
      (file (codes "a") ∷ access (codes "u+r") ∷ file (codes "b") ∷ [])
      (record { verbose = 0; timeout = pos 10; show_perfdata = false }) (omega arith)
