-- ===== src/Checks/Clustat.antt =====
-- rhcs/check_clustat.c: where the services of a cluster run. What `clustat` and cluster.conf say is
-- taken as `Rhcs` has read it; an empty list is a null pointer, and reading through it a fault.
mod Tests
pub mod Place
pub mod Leaving
use monitoringplug.Base.{
  ℕ, zero, suc, ◌+◌, ◌-◌, ◌%◌, ◌^◌, Bool, true, false, not, ◌&&◌, ◌||◌, Option, none, some, List,
  [], ◌∷◌, ◌++◌, Bytes, codes, length, get_elem?, ltb, ◌==◌, if◌then◌else◌,
}
use monitoringplug.Base.Int.{ℤ, pos, negsuc, ltb_ℤ, eqb_ℤ}
use monitoringplug.Text.{str_eq, decimal_ℤ}
use monitoringplug.Utils.{strcat_comma, to_int}
use monitoringplug.Range.{Doubles}
use monitoringplug.Perfdata.{perfdata_int}
use monitoringplug.Output.{Plugin, Exit, ok, warning, critical}
use monitoringplug.Getopt.{Outcome, completed, left, fault, ◌>>=◌}
use monitoringplug.Rhcs.{low_bits, Node, Group, Clustat}
use monitoringplug.Rhcs.Conf.{ConfNode, Member, Domain, Service, Configuration}

-- a pointer that is read
abbrev pub deref {ℓ} : {A : Type ℓ} → Option A → Outcome A
deref none = fault
deref (some a) = completed a

-- the counters for the performance data
pub record Counts : Type 0 where
  pub total : ℕ
  pub on_local : ℕ
  pub stopped : ℕ
  pub started : ℕ
  pub failed : ℕ

abbrev pub no_counts : Counts
no_counts = record { total = 0; on_local = 0; stopped = 0; started = 0; failed = 0 }

-- two pointers into the list of nodes
abbrev pub same : Option ℕ → Option ℕ → Bool
same none none = true
same (some i) (some j) = i == j
same _ _ = false

-- `switch ((*groups)->state)`
unfoldable pub count_state : ℤ → Counts → Counts
count_state state c =
    if eqb_ℤ state (pos 110)
      || (eqb_ℤ state (pos 111) || (eqb_ℤ state (pos 113) || eqb_ℤ state (pos 119)))
    then record c { stopped = c.stopped + 1 }
    else if eqb_ℤ state (pos 112)
    then record c { started = c.started + 1 }
    else record c { failed = c.failed + 1 }

unfoldable pub count_group : Option ℕ → Group → Counts → Counts
unfolding count_state
count_group local g c = count_state g.state (record c {
  total = c.total + 1;
  on_local = if same g.owner local then c.on_local + 1 else c.on_local;
})

-- The service with a group's name, as the loop over the services finds it.
unfoldable pub find_service : Option Bytes → List Service → Outcome (Option Service)
unfolding str_eq
find_service name [] = completed none
find_service name (s ∷ ss) = do
  service ← deref s.name
  group ← deref name
  if str_eq service group then completed (some s) else find_service name ss

abbrev pub int_max : ℤ
int_max = pos (2 ^ 31 - 1)

-- `localprio`, `ownerprio` and `bestprio`
pub record Priorities : Type 0 where
  pub localprio : ℤ
  pub ownerprio : ℤ
  pub bestprio : ℤ

abbrev pub no_priorities : Priorities
no_priorities = record { localprio = int_max; ownerprio = int_max; bestprio = int_max }

-- an unsigned priority as an `int`
abbrev pub as_int : ℕ → ℤ
as_int n = to_int (pos n)

-- one member, by its name, that of the local node, and that of the owner if there is one; the unsigned
-- priority is compared with the best as an unsigned number
unfoldable pub rank_member : Bytes → Option Bytes → Bytes → ℕ → Priorities → Priorities
unfolding str_eq to_int low_bits
rank_member local owner name priority r = record {
  localprio = if str_eq name local then as_int priority else r.localprio;
  ownerprio = elim owner [
    | none ↦ r.ownerprio
    | some o ↦ if str_eq name o then as_int priority else r.ownerprio
  ];
  bestprio = if ltb priority (low_bits 32 r.bestprio) then as_int priority else r.bestprio;
}

-- the name of a member's node
unfoldable pub member_name : List ConfNode → Member → Outcome Bytes
member_name nodes m = do place ← deref m.node; node ← deref (get_elem? nodes place); deref node.name

-- `for(; *fodomnode != NULL ; fodomnode++)`
unfoldable pub rank_members :
    List ConfNode → Bytes → Option Bytes → List Member → Priorities → Outcome Priorities
unfolding member_name rank_member
rank_members nodes local owner [] r = completed r
rank_members nodes local owner (m ∷ ms) r = do
  name ← member_name nodes m
  rank_members nodes local owner ms (rank_member local owner name m.priority r)

-- `missing` and `foreign`
pub record Misplaced : Type 0 where
  pub missing : Option Bytes
  pub foreign : Option Bytes

-- the two tests behind the loop; a name is added if it is no null pointer
unfoldable pub place_group : Option ℕ → Group → Bool → Priorities → Misplaced → Misplaced
unfolding strcat_comma
place_group local g autostart r m =
    let owned = same g.owner local in
    let unowned = same g.owner none in
    let gone : Bool =
      (not owned && ltb_ℤ r.localprio r.ownerprio)
      || (unowned && (eqb_ℤ r.localprio r.bestprio && autostart)) in
    record {
      foreign =
          if owned && ltb_ℤ r.bestprio r.localprio
          then strcat_comma m.foreign g.name
          else m.foreign;
      missing = if gone then strcat_comma m.missing g.name else m.missing;
    }

-- the name of the node at a place
unfoldable pub node_name : List Node → Option ℕ → Outcome (Option Bytes)
node_name nodes none = completed none
node_name nodes (some i) =
    deref (get_elem? nodes i) >>= (λ n. deref n.name >>= (λ name. completed (some name)))

-- the domain of a service that was found
unfoldable pub domain_of : Configuration → Service → Outcome Domain
domain_of conf s = do
  place ← deref s.fodomain
  entry ← deref (get_elem? conf.fodomain place)
  deref entry

-- a group with a domain of members; the names of the local node and of the owner are read for each
unfoldable pub judge_members :
    Clustat
    → Configuration
    → Option Bytes
    → Group
    → Bool
    → List Member
    → Misplaced
    → Outcome Misplaced
unfolding node_name rank_members place_group
judge_members clustat conf local g autostart [] m = completed m
judge_members clustat conf local g autostart (x ∷ xs) m = do
  local_name ← deref local
  owner ← node_name clustat.node g.owner
  ranks ← rank_members conf.node local_name owner (x ∷ xs) no_priorities
  completed (place_group clustat.local g autostart ranks m)

unfoldable pub judge_service :
    Clustat → Configuration → Option Bytes → Group → Option Service → Misplaced → Outcome Misplaced
unfolding domain_of judge_members
judge_service clustat conf local g none m = completed m
judge_service clustat conf local g (some s) m = do
  domain ← domain_of conf s
  judge_members clustat conf local g s.autostart domain.node m

-- the list of services, which is a null pointer if there are none
abbrev pub services_of : Configuration → Outcome (List Service)
services_of conf = elim conf.service [ [] ↦ fault | s ∷ ss ↦ completed (s ∷ ss) ]

-- the body of the loop over the groups, without the counters
unfoldable pub judge_group :
    Clustat → Configuration → Option Bytes → Group → Misplaced → Outcome Misplaced
unfolding find_service judge_service
judge_group clustat conf local g m = do
  services ← services_of conf
  service ← find_service g.name services
  judge_service clustat conf local g service m

unfoldable pub judge_groups :
    Clustat
    → Configuration
    → Option Bytes
    → List Group
    → Counts × Misplaced
    → Outcome (Counts × Misplaced)
unfolding judge_group count_group
judge_groups clustat conf local [] q = completed q
judge_groups clustat conf local (g ∷ gs) (c, m) = do
  next ← judge_group clustat conf local g m
  judge_groups clustat conf local gs (count_group clustat.local g c, next)
