-- ===== src/Checks/Multipath/Tests.antt =====
-- A run of check_multipath.
use monitoringplug.Base.{List, [], ◌∷◌, Bytes, arith, true, some, ◌≡◌, refl, codes}
use monitoringplug.Base.Int.{pos}
use monitoringplug.Output.{initial, critical}
use monitoringplug.Text.{decimal}
use monitoringplug.Getopt.{Program, completed}
use monitoringplug.Text.Lines.{file_of}
use monitoringplug.Checks.Multipath.{includes, judge, check}
use monitoringplug.Checks.Multipath.Paths.{failed_in, judge-lines}

abbrev multipath : Program
multipath = record {
  progname = codes "check_multipath";
  progusage = codes "";
  help = codes "";
  revision = codes "";
  eopt = λ o es. es;
}

check-failed :
    check multipath true 1000 true
      (some (codes "sda\n sdb failed\nsdc failed failed\n"))
      (pos 0)
      initial
    ≡ completed (critical (codes "2 paths failed") initial)
unfolding check
check-failed = refl

abbrev printed : List Bytes
printed = codes "sda" ∷ codes " sdb failed" ∷ []

judge-lines_example :
    judge (some (file_of printed)) (pos 0) initial
    ≡ completed (critical (codes "1 paths failed") initial)
unfolding failed_in includes critical decimal
judge-lines_example = judge-lines printed initial (ground arith)
