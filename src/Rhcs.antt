-- ===== src/Rhcs.antt =====
-- lib/rhcs_utils.c: what the handlers of the XML parser make of the elements of `clustat -x`; `Conf` has
-- those of cluster.conf. Expat is a parameter: its calls are the events, an element with its attributes. A
-- pointer to a node or to a domain is its place in the list; a null pointer is `none`.
pub mod Conf
pub mod Owner
mod Tests
use monitoringplug.Base.{
  ℕ, zero, suc, ◌+◌, ◌-◌, ◌%◌, ◌^◌, Bool, true, false, ◌&&◌, Option, none, some, List, [], ◌∷◌,
  ◌++◌, Bytes, codes, length, ◌==◌, if◌then◌else◌,
}
use monitoringplug.Base.Int.{ℤ, pos, negsuc}
use monitoringplug.Text.{str_eq, strsep, strtol, strtol_16}
use monitoringplug.Utils.{to_int}
use monitoringplug.Getopt.{Outcome, completed, left, fault, ◌>>=◌}

-- the low bits of a number, as an unsigned type of w bits keeps them
unfoldable pub low_bits : ℕ → ℤ → ℕ
low_bits w (pos n) = n % 2 ^ w
low_bits w (negsuc n) = 2 ^ w - 1 - n % 2 ^ w

abbrev pub Attributes : Type 0
Attributes = List (Bytes × Bytes)

abbrev pub number : Bytes → ℤ
number v = (strtol v).0

-- `rhcs_clustat_node`, `rhcs_clustat_group` and `rhcs_clustat`
pub record Node : Type 0 where
  pub name : Option Bytes
  pub state : ℕ
  pub rgmanager : ℕ
  pub id : ℕ

pub record Group : Type 0 where
  pub name : Option Bytes
  pub state : ℤ
  pub owner : Option ℕ
  pub last : Option ℕ

pub record Clustat : Type 0 where
  pub name : Option Bytes
  pub id : ℤ
  pub local : Option ℕ
  pub node : List Node
  pub group : List Group

-- after the `calloc`
abbrev pub no_clustat : Clustat
no_clustat = record { name = none; id = pos 0; local = none; node = []; group = [] }

abbrev pub no_node : Node
no_node = record { name = none; state = 0; rgmanager = 0; id = 0 }

abbrev pub no_group : Group
no_group = record { name = none; state = pos 0; owner = none; last = none }

-- `for(i=0; i < nodes; i++) if (strcmp(*v, node[i]->name) == 0) …`, on the names, from a place on; the
-- last one that fits is taken
unfoldable pub find_name : Bytes → List (Option Bytes) → ℕ → Option ℕ → Outcome (Option ℕ)
unfolding str_eq
find_name v [] i found = completed found
find_name v (none ∷ names) i found = fault
find_name v (some name ∷ names) i found =
    find_name v names (suc i) (if str_eq v name then some i else found)

abbrev pub node_names : List Node → List (Option Bytes)
node_names [] = []
node_names (n ∷ ns) = n.name ∷ node_names ns

-- the attributes one by one
unfoldable pub cluster_attributes : Attributes → Clustat → Clustat
unfolding str_eq strtol to_int
cluster_attributes [] c = c
cluster_attributes ((k, v) ∷ atts) c = cluster_attributes atts (
    if str_eq k (codes "name")
    then record c { name = some v }
    else if str_eq k (codes "id")
    then record c { id = to_int (number v) }
    else c)

-- the attributes of a node, and whether one of them says that it is the local one
unfoldable pub node_attributes : Attributes → Node × Bool → Node × Bool
unfolding str_eq strtol strtol_16 low_bits
node_attributes [] n = n
node_attributes ((k, v) ∷ atts) (n, is_local) = node_attributes atts (
  (if str_eq k (codes "name")
      then record n { name = some v }
      else if str_eq k (codes "state")
      then record n { state = low_bits 16 (number v) }
      else if str_eq k (codes "rgmanager")
      then record n { rgmanager = low_bits 16 (number v) }
      else if str_eq k (codes "nodeid")
      then record n { id = low_bits 16 (strtol_16 v) }
      else n),
  (if str_eq k (codes "local") && str_eq v (codes "1") then true else is_local),
)

abbrev pub is_colon : ℕ → Bool
is_colon c = c == b':'

-- `strsep(&name, ":")` leaves what stands behind the colon, or a null pointer
unfoldable pub group_name : Bytes → Option Bytes
unfolding strsep
group_name v = (strsep is_colon v).1

unfoldable pub group_attribute : List (Option Bytes) → Bytes → Bytes → Group → Outcome Group
unfolding str_eq strtol to_int find_name group_name
group_attribute names k v g =
    if str_eq k (codes "name")
    then completed (record g { name = group_name v })
    else if str_eq k (codes "state")
    then completed (record g { state = to_int (number v) })
    else if str_eq k (codes "owner")
    then find_name v names 0 none >>= (λ owner. completed (record g { owner = owner }))
    else if str_eq k (codes "last_owner")
    then find_name v names 0 g.last >>= (λ last. completed (record g { last = last }))
    else completed g

unfoldable pub group_attributes : List (Option Bytes) → Attributes → Group → Outcome Group
unfolding group_attribute
group_attributes names [] g = completed g
group_attributes names ((k, v) ∷ atts) g =
    group_attribute names k v g >>= group_attributes names atts

unfoldable pub clustat_start : Bytes → Attributes → Clustat → Outcome Clustat
unfolding str_eq cluster_attributes node_attributes group_attributes
clustat_start name atts c =
    if str_eq name (codes "cluster")
    then completed (cluster_attributes atts c)
    else if str_eq name (codes "node")
    then (let (n, is_local) = node_attributes atts (no_node, false) in
        completed (record c {
          node = c.node ++ n ∷ [];
          local = if is_local then some (length c.node) else c.local;
        }))
    else if str_eq name (codes "group")
    then group_attributes (node_names c.node) atts no_group
      >>= (λ g. completed (record c { group = c.group ++ g ∷ [] }))
    else completed c

-- A call of the parser: the start of an element with its attributes, or its end.
pub data Event : Type 0 where
  start : Bytes → Attributes → Event
  stop : Bytes → Event

-- the calls in order; `rhcs_clustat_stopElement` does nothing
unfoldable pub parse_clustat : List Event → Clustat → Outcome Clustat
unfolding clustat_start
parse_clustat [] c = completed c
parse_clustat (start name atts ∷ es) c = clustat_start name atts c >>= parse_clustat es
parse_clustat (stop name ∷ es) c = parse_clustat es c
