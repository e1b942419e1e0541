-- ===== src/Checks/Bonding/Tests.antt =====
-- Two bonds, and the theorems at an input.
use monitoringplug.Base.{
  true, false, Option, none, some, [], ◌∷◌, ◌≡◌, refl, arith, Bytes, codes, if◌then◌else◌,
}
use monitoringplug.Text.{str_eq}
use monitoringplug.Text.Lines.{file_of}
use monitoringplug.Output.{Exit, initial}
use monitoringplug.Getopt.{completed}
use monitoringplug.Checks.Bonding.{parse_bond, check}
use monitoringplug.Checks.Bonding.Lines.{
  Bond, other, entry, lines_of, bond_items, info_of, IsQuiet, parse_bond-written,
}
use monitoringplug.Checks.Bonding.Status.{View, missing, is_up, check-level}

-- as tests/testdata/bonding/bond1, with the second slave down
abbrev bond1 : Bond
bond1 = record {
  version = codes "v3.7.1 (April 27, 2011)";
  behind_version = other [] ∷ [];
  mode = codes "fault-tolerance (active-backup)";
  behind_mode =
      entry (codes "Primary Slave") (codes "None")
      ∷ entry (codes "Currently Active Slave") (codes "eth2")
      ∷ [];
  up = true;
  more =
      entry (codes "MII Polling Interval (ms)") (codes "100")
      ∷ entry (codes "Up Delay (ms)") (codes "0")
      ∷ entry (codes "Down Delay (ms)") (codes "0")
      ∷ other []
      ∷ [];
  sections =
      record {
        interface = codes "eth3";
        up = true;
        more = entry (codes "Speed") (codes "1000 Mbps") ∷ other [] ∷ [];
      }
      ∷ record { interface = codes "eth2"; up = false; more = [] }
      ∷ [];
}

abbrev written : Bytes
written = file_of (lines_of (bond_items bond1))

bond1-IsQuiet : IsQuiet bond1
unfolding str_eq
bond1-IsQuiet = record {
  behind_version = ground arith;
  behind_mode = ground arith;
  more = ground arith;
  sections = ground arith;
}

parse_bond-written_example : parse_bond (some written) ≡ completed (some (info_of bond1))
parse_bond-written_example = parse_bond-written bond1 (ground arith) bond1-IsQuiet

abbrev files : Bytes → Option Bytes
files name = if str_eq name (codes "/proc/net/bonding/bond1") then some written else none

abbrev views : Bytes × View
views = (codes "bond1", is_up (codes "eth3", true) ((codes "eth2", false) ∷ []))

check-level_example :
    (e : Exit) × (check files (λ s. s) (λ d. none) none (codes "bond1" ∷ codes "bond2" ∷ []) initial
      ≡ completed e)
    × (e.status ≡ 2)
unfolding str_eq
check-level_example =
    check-level files (λ s. s) initial (codes "/proc/net/bonding") (λ d. none) none views
      ((codes "bond2", missing) ∷ []) refl
      (
        (some (info_of bond1), parse_bond-written_example, (refl, refl, omega arith)),
        omega arith,
        ((none, (unfold parse_bond in refl), tt), omega arith, tt),
      )
