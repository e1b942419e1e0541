-- ===== src/Rhcs/Conf.antt =====
-- lib/rhcs_utils.c: what the handlers of the XML parser make of the elements of cluster.conf.
use monitoringplug.Base.{
  ℕ, Bool, false, Option, none, some, List, [], ◌∷◌, ◌++◌, Bytes, codes, if◌then◌else◌,
}
use monitoringplug.Text.{str_eq, strtol}
use monitoringplug.Getopt.{Outcome, completed, fault, ◌>>=◌}
use monitoringplug.Rhcs.{low_bits, Attributes, number, find_name, Event, start, stop}

-- `rhcs_conf_node`, `rhcs_conf_fodom_node`, `rhcs_conf_fodom`, `rhcs_conf_service` and `rhcs_conf`
pub record ConfNode : Type 0 where
  pub name : Option Bytes
  pub id : ℕ
  pub votes : ℕ

pub record Member : Type 0 where
  pub node : Option ℕ
  pub priority : ℕ

pub record Domain : Type 0 where
  pub name : Option Bytes
  pub failback : Bool
  pub ordered : Bool
  pub restricted : Bool
  pub node : List Member

pub data Recovery : Type 0 where
  restart relocate : Recovery

pub record Service : Type 0 where
  pub name : Option Bytes
  pub fodomain : Option ℕ
  pub recovery : Recovery
  pub autostart : Bool
  pub exclusive : Bool

-- `fodomain[0]` to `fodomain[fodomains-1]`, and `fodomain[fodomains]`, to which members are added
pub record Configuration : Type 0 where
  pub name : Option Bytes
  pub alias : Option Bytes
  pub version : ℕ
  pub node : List ConfNode
  pub fodomain : List (Option Domain)
  pub current : Option Domain
  pub service : List Service

abbrev pub no_conf : Configuration
no_conf = record {
  name = none;
  alias = none;
  version = 0;
  node = [];
  fodomain = [];
  current = none;
  service = [];
}

abbrev pub conf_names : List ConfNode → List (Option Bytes)
conf_names [] = []
conf_names (n ∷ ns) = n.name ∷ conf_names ns

unfoldable pub conf_attributes : Attributes → Configuration → Configuration
unfolding str_eq strtol low_bits
conf_attributes [] c = c
conf_attributes ((k, v) ∷ atts) c = conf_attributes atts (
    if str_eq k (codes "name")
    then record c { name = some v }
    else if str_eq k (codes "alias")
    then record c { alias = some v }
    else if str_eq k (codes "config_version")
    then record c { version = low_bits 32 (number v) }
    else c)

unfoldable pub clusternode_attributes : Attributes → ConfNode → ConfNode
unfolding str_eq strtol low_bits
clusternode_attributes [] n = n
clusternode_attributes ((k, v) ∷ atts) n = clusternode_attributes atts (
    if str_eq k (codes "name")
    then record n { name = some v }
    else if str_eq k (codes "nodeid")
    then record n { id = low_bits 32 (number v) }
    else if str_eq k (codes "votes")
    then record n { votes = low_bits 32 (number v) }
    else n)

unfoldable pub domain_attributes : Attributes → Domain → Domain
unfolding str_eq
domain_attributes [] d = d
domain_attributes ((k, v) ∷ atts) d = domain_attributes atts (
    if str_eq k (codes "name")
    then record d { name = some v }
    else if str_eq k (codes "nofailback")
    then record d { failback = str_eq v (codes "0") }
    else if str_eq k (codes "ordered")
    then record d { ordered = str_eq v (codes "1") }
    else if str_eq k (codes "restricted")
    then record d { restricted = str_eq v (codes "1") }
    else d)

unfoldable pub member_attributes : List (Option Bytes) → Attributes → Member → Outcome Member
unfolding str_eq strtol low_bits find_name
member_attributes names [] m = completed m
member_attributes names ((k, v) ∷ atts) m = do
  next ←
      (if str_eq k (codes "name")
        then find_name v names 0 m.node >>= (λ node. completed (record m { node = node }))
        else if str_eq k (codes "priority")
        then completed (record m { priority = low_bits 32 (number v) })
        else completed m)
  member_attributes names atts next

abbrev pub domain_names : List (Option Domain) → List (Option Bytes)
domain_names [] = []
domain_names (none ∷ ds) = none ∷ domain_names ds
domain_names (some d ∷ ds) = d.name ∷ domain_names ds

abbrev pub recovery_of : Bytes → Recovery → Recovery
recovery_of v r =
    if str_eq v (codes "relocate")
    then relocate
    else if str_eq v (codes "restart")
    then restart
    else r

unfoldable pub service_attributes : List (Option Bytes) → Attributes → Service → Outcome Service
unfolding str_eq find_name
service_attributes names [] s = completed s
service_attributes names ((k, v) ∷ atts) s = do
  next ←
      (if str_eq k (codes "name")
        then completed (record s { name = some v })
        else if str_eq k (codes "domain")
        then find_name v names 0 s.fodomain >>= (λ d. completed (record s { fodomain = d }))
        else if str_eq k (codes "autostart")
        then completed (record s { autostart = str_eq v (codes "1") })
        else if str_eq k (codes "exclusive")
        then completed (record s { exclusive = str_eq v (codes "1") })
        else if str_eq k (codes "recovery")
        then completed (record s { recovery = recovery_of v s.recovery })
        else completed s)
  service_attributes names atts next

abbrev pub no_domain : Domain
no_domain = record { name = none; failback = false; ordered = false; restricted = false; node = [] }

abbrev pub no_service : Service
no_service = record {
  name = none;
  fodomain = none;
  recovery = restart;
  autostart = false;
  exclusive = false;
}

unfoldable pub conf_start : Bytes → Attributes → Configuration → Outcome Configuration
unfolding str_eq conf_attributes clusternode_attributes domain_attributes member_attributes
    service_attributes
conf_start name atts c =
    if str_eq name (codes "cluster")
    then completed (conf_attributes atts c)
    else if str_eq name (codes "clusternode")
    then completed (record c {
      node = c.node ++ clusternode_attributes atts (record { name = none; id = 0; votes = 0 }) ∷ [];
    })
    else if str_eq name (codes "failoverdomain")
    then completed (record c { current = some (domain_attributes atts no_domain) })
    else if str_eq name (codes "failoverdomainnode")
    then elim c.current [
      | none ↦ fault
      | some d ↦
          member_attributes (conf_names c.node) atts (record { node = none; priority = 0 })
          >>= (λ m. completed (record c { current = some (record d { node = d.node ++ m ∷ [] }) }))
    ]
    else if str_eq name (codes "service")
    then service_attributes (domain_names c.fodomain) atts no_service
      >>= (λ s. completed (record c { service = c.service ++ s ∷ [] }))
    else completed c

-- `fodomains++`
unfoldable pub conf_stop : Bytes → Configuration → Configuration
unfolding str_eq
conf_stop name c =
    if str_eq name (codes "failoverdomain")
    then record c { fodomain = c.fodomain ++ c.current ∷ []; current = none }
    else c

unfoldable pub parse_conf : List Event → Configuration → Outcome Configuration
unfolding conf_start conf_stop
parse_conf [] c = completed c
parse_conf (start name atts ∷ es) c = conf_start name atts c >>= parse_conf es
parse_conf (stop name ∷ es) c = parse_conf es (conf_stop name c)
