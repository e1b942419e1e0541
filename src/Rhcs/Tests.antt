-- ===== src/Rhcs/Tests.antt =====
-- A small cluster, and the theorem at an input.
use monitoringplug.Base.{none, some, List, [], ◌∷◌, ◌≡◌, refl, Bytes, codes}
use monitoringplug.Base.Int.{pos}
use monitoringplug.Text.{str_eq, strsep, strtol, strtol_16}
use monitoringplug.Utils.{to_int}
use monitoringplug.Getopt.{completed, fault}
use monitoringplug.Rhcs.{Event, start, stop, no_clustat, no_group, parse_clustat, group_attribute}
use monitoringplug.Rhcs.Conf.{no_conf, parse_conf}
use monitoringplug.Rhcs.Owner.{known, Others, group_attribute-owner}

abbrev printed : List Event
printed =
    start (codes "cluster") ((codes "name", codes "c1") ∷ (codes "id", codes "7") ∷ [])
    ∷ start (codes "node") (
        (codes "name", codes "a")
        ∷ (codes "local", codes "1")
        ∷ (codes "rgmanager", codes "1")
        ∷ (codes "nodeid", codes "0x0a")
        ∷ [])
    ∷ stop (codes "node")
    ∷ start (codes "node") ((codes "name", codes "b") ∷ [])
    ∷ start (codes "group") (
        (codes "name", codes "service:web")
        ∷ (codes "state", codes "112")
        ∷ (codes "owner", codes "b")
        ∷ [])
    ∷ []

small :
    parse_clustat printed no_clustat
    ≡ completed (record {
      name = some (codes "c1");
      id = pos 7;
      local = some 0;
      node =
          record { name = some (codes "a"); state = 0; rgmanager = 1; id = 10 }
          ∷ record { name = some (codes "b"); state = 0; rgmanager = 0; id = 0 }
          ∷ [];
      group =
          record { name = some (codes "web"); state = pos 112; owner = some 1; last = none } ∷ [];
    })
unfolding parse_clustat str_eq strtol strtol_16 strsep to_int
small = refl

-- a member outside a domain
stray : parse_conf (start (codes "failoverdomainnode") [] ∷ []) no_conf ≡ fault
unfolding parse_conf str_eq
stray = refl

abbrev nodes : List Bytes
nodes = codes "a" ∷ codes "b" ∷ []

group_attribute-owner_example :
    (group_attribute (known nodes) (codes "owner") (codes "b") no_group
      ≡ completed (record no_group { owner = some 1 }))
    × (Others (codes "b") (codes "a" ∷ [])
        → group_attribute (known (codes "a" ∷ [])) (codes "owner") (codes "b") no_group
          ≡ completed no_group)
group_attribute-owner_example = group_attribute-owner (codes "b") (codes "a" ∷ []) [] no_group tt
