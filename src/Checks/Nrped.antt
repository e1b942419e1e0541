-- ===== src/Checks/Nrped.antt =====
-- base/check_nrped.c: whether the check runs under nrped, which sets a variable of the environment. What
-- `open`, `close` and `utime` say of the file to touch is a parameter, true where they fail with -1.
mod Tests
use monitoringplug.Base.{ℕ, Bool, Option, none, some, List, ◌++◌, Bytes, codes, ◌==◌, if◌then◌else◌}
use monitoringplug.Output.{Plugin, Exit, ok, warning, critical}
use monitoringplug.Getopt.{Outcome, Program, Globals, Event, completed, process_options}

-- The three calls on the file, in their order.
pub record Touch : Type 0 where
  pub open_fails : Bool
  pub close_fails : Bool
  pub utime_fails : Bool

-- "NRPE v%s - … '%s' failed"
abbrev failed : Bytes → Bytes → Bytes → Bytes
failed version call filename =
    codes "NRPE v"
    ++ (version ++ (codes " - " ++ (call ++ (codes " '" ++ (filename ++ codes "' failed")))))

-- `if (filename)` and behind it
unfoldable touch : (Bytes → Touch) → Bytes → Option Bytes → Plugin → Exit
unfolding ok warning
touch calls version none p = ok (codes "NRPE v" ++ version) p
touch calls version (some filename) p =
    if (calls filename).open_fails
    then warning (failed version (codes "open") filename) p
    else if (calls filename).close_fails
    then warning (failed version (codes "close") filename) p
    else if (calls filename).utime_fails
    then warning (failed version (codes "utime") filename) p
    else ok (codes "NRPE v" ++ version) p

-- `main` behind `process_arguments`, with `getenv("NRPE_PROGRAMVERSION")`
unfoldable pub check : (Bytes → Touch) → Option Bytes → Option Bytes → Plugin → Exit
unfolding touch critical
check calls none filename p = critical (codes "Executed outside of nrped.") p
check calls (some version) filename p = touch calls version filename p

-- the loop of `process_arguments`, for `filename`
unfoldable process_arguments :
    Program → ℕ → List Event → Globals → Option Bytes → Outcome (Globals × Option Bytes)
unfolding process_options
process_arguments g =
    process_options g (λ e filename. completed (if e.option == b'T' then e.optarg else filename))
