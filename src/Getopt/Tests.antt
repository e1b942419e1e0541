-- ===== src/Getopt/Tests.antt =====
-- A few command lines, and the theorem at an input.
use monitoringplug.Base.{
  ℕ, Option, true, false, none, some, List, [], ◌∷◌, ◌++◌, Bytes, ◌≡◌, refl, codes, arith,
}
use monitoringplug.Base.Int.{pos}
use monitoringplug.Text.{strtol}
use monitoringplug.Utils.{to_int}
use monitoringplug.Getopt.{
  Outcome, completed, left, Program, Globals, Event, longopt_eopt, process_options,
}
use monitoringplug.Getopt.Loop.{Comes, ended, plain, extended, handle_all, process_options-events}

-- the one section of the file: `perfdata=`
abbrev section : Option Bytes → List Event → List Event
section optarg es = record { option = 0; optarg = none } ∷ es

abbrev program : Program
program = record {
  progname = codes "check";
  progusage = codes "[-H]";
  help = codes "help\n";
  revision = codes "check v1\n";
  eopt = section;
}

abbrev quiet : Globals
quiet = record { verbose = 0; timeout = pos 10; show_perfdata = false }

-- a check that keeps its options
abbrev collect : Event → List ℕ → Outcome (List ℕ)
collect e os = completed (os ++ e.option ∷ [])

abbrev flag : ℕ → Event
flag option = record { option = option; optarg = none }

abbrev seconds : Event
seconds = record { option = b't'; optarg = some (codes "30") }

abbrev line : List Event
line = flag b'v' ∷ flag longopt_eopt ∷ flag b'x' ∷ seconds ∷ flag b'y' ∷ []

abbrev coming : List Event
coming = flag b'v' ∷ flag longopt_eopt ∷ flag 0 ∷ flag b'x' ∷ seconds ∷ flag b'y' ∷ []

taken :
    process_options program collect 7 line quiet []
    ≡ completed
        (record { verbose = 1; timeout = pos 30; show_perfdata = true }, 0 ∷ b'x' ∷ b'y' ∷ [])
unfolding process_options strtol to_int
taken = refl

version_first :
    process_options program collect 2 (flag b'V' ∷ line) quiet []
    ≡ left (record { stdout = codes "check v1\n"; status = 0 })
unfolding process_options
version_first = refl

line-Comes : Comes section line coming
line-Comes = plain refl (extended refl (plain refl (plain refl (plain refl (plain refl ended)))))

process_options-events_example :
    process_options program collect 7 line quiet [] ≡ handle_all program collect coming (quiet, [])
process_options-events_example =
    process_options-events program collect 7 line coming quiet [] line-Comes (omega arith)
