-- ===== src/Checks/Clustat/Tests.antt =====
-- A group on the second of two nodes, and the theorem at an input.
use monitoringplug.Base.{true, false, none, some, List, [], ◌∷◌, ◌≡◌, refl, arith, codes}
use monitoringplug.Base.Int.{pos}
use monitoringplug.Text.{str_eq, decimal_ℤ}
use monitoringplug.Utils.{to_int, strcat_comma}
use monitoringplug.Output.{initial}
use monitoringplug.Range.Naturals.{whole}
use monitoringplug.Base.Int.{pos_part}
use monitoringplug.Getopt.{completed}
use monitoringplug.Rhcs.{Group, Clustat}
use monitoringplug.Rhcs.Conf.{Member, Configuration, no_conf, restart}
use monitoringplug.Checks.Clustat.{member_name, node_name, judge_members}
use monitoringplug.Checks.Clustat.Place.{judge_members-placed}
use monitoringplug.Checks.Clustat.Leaving.{check}

abbrev web : Group
web = record { name = some (codes "web"); state = pos 112; owner = some 1; last = none }

abbrev cluster : Clustat
cluster = record {
  name = some (codes "c1");
  id = pos 7;
  local = some 0;
  node =
      record { name = some (codes "a"); state = 1; rgmanager = 1; id = 1 }
      ∷ record { name = some (codes "b"); state = 1; rgmanager = 1; id = 2 }
      ∷ [];
  group = web ∷ [];
}

abbrev members : List Member
members = record { node = some 0; priority = 1 } ∷ record { node = some 1; priority = 2 } ∷ []

abbrev conf : Configuration
conf = record no_conf {
  node =
      record { name = some (codes "a"); id = 1; votes = 1 }
      ∷ record { name = some (codes "b"); id = 2; votes = 1 }
      ∷ [];
  fodomain =
      some (record {
        name = some (codes "d");
        failback = true;
        ordered = true;
        restricted = false;
        node = members;
      })
      ∷ [];
  service =
      record {
        name = some (codes "web");
        fodomain = some 0;
        recovery = restart;
        autostart = true;
        exclusive = false;
      }
      ∷ [];
}

missing_here :
    check whole pos_part cluster conf initial
    ≡ completed (record { stdout = codes "WARNING - c1(7) on a: Missing web\n"; status = 1 })
unfolding check str_eq to_int strcat_comma decimal_ℤ
missing_here = refl

judge_members-placed_example :
    judge_members cluster conf
      (some (codes "a"))
      web
      true
      members
      (record { missing = none; foreign = none })
    ≡ completed (record { missing = some (codes "web"); foreign = none })
unfolding str_eq strcat_comma node_name member_name
judge_members-placed_example =
    judge_members-placed cluster conf (codes "a") web true (record { node = some 0; priority = 1 })
      (record { node = some 1; priority = 2 } ∷ []) ((codes "a", 1) ∷ (codes "b", 2) ∷ [])
      (some (codes "b")) (record { missing = none; foreign = none }) refl
      ((refl, refl, omega arith), ((refl, refl, omega arith), tt))
