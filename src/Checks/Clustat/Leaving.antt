-- ===== src/Checks/Clustat/Leaving.antt =====
-- rhcs/check_clustat.c: `main`, from the local node to the exit.
use monitoringplug.Base.{
  ℕ, ◌+◌, not, Option, none, some, List, [], ◌∷◌, ◌++◌, Bytes, codes, length, get_elem?, ◌==◌,
  if◌then◌else◌,
}
use monitoringplug.Base.Int.{ℤ, pos}
use monitoringplug.Text.{decimal_ℤ}
use monitoringplug.Range.{Doubles}
use monitoringplug.Perfdata.{perfdata_int}
use monitoringplug.Output.{Plugin, Exit, ok, warning, critical}
use monitoringplug.Getopt.{Outcome, completed, left, fault, ◌>>=◌}
use monitoringplug.Rhcs.{Node, Group, Clustat}
use monitoringplug.Rhcs.Conf.{Configuration}
use monitoringplug.Checks.Clustat.{deref, Counts, no_counts, Misplaced, judge_groups}

abbrev pub or_null : Option Bytes → Bytes
or_null none = codes "(null)"
or_null (some s) = s

-- "%s(%d) on %s"
abbrev pub where_text : Clustat → Option Bytes → Bytes
where_text clustat local =
    or_null clustat.name ++ (b'(' ∷ (decimal_ℤ clustat.id ++ (codes ") on " ++ or_null local)))

-- the last four tests
unfoldable pub leave : Clustat → Option Bytes → Misplaced → Plugin → Exit
unfolding ok warning
leave clustat local m p =
    let place = where_text clustat local in
    elim m.foreign [
      | none ↦ elim m.missing [
        | none ↦ ok place p
        | some missing ↦ warning (place ++ (codes ": Missing " ++ missing)) p
      ]
      | some foreign ↦ elim m.missing [
        | none ↦ warning (place ++ (codes ": Foreign " ++ foreign)) p
        | some missing ↦
            warning (place ++ (codes ": Missing " ++ (missing ++ (codes "  Foreign " ++ foreign))))
              p
      ]
    ]

-- the counters of the nodes
abbrev pub online : List Node → ℕ
online [] = 0
online (n ∷ ns) = (if n.rgmanager == 1 then 1 else 0) + online ns

abbrev pub not_running : Clustat → Node → Plugin → Exit
not_running clustat local p =
    critical
      (or_null clustat.name
        ++ (codes " [" ++ (or_null local.name ++ codes "] rgmanager not running!")))
      p

module _ (F : Doubles) (of_long : ℤ → F.D) where
  abbrev pub counted : Bytes → ℕ → Plugin → Plugin
  counted label n p = record p {
    perfdata = (perfdata_int F of_long p.show_perfdata label (pos n) [] none p.perfdata).0;
  }

  -- `if (mp_showperfdata)`
  unfoldable pub measure : Clustat → Counts → Plugin → Plugin
  unfolding perfdata_int
  measure clustat c p =
      if not p.show_perfdata
      then p
      else counted (codes "nodes_online") (online clustat.node) (
          counted (codes "nodes_total") (length clustat.node) (
            counted (codes "services_failed") c.failed (
              counted (codes "services_started") c.started (
                counted (codes "services_stopped") c.stopped (
                  counted (codes "services_local") c.on_local
                    (counted (codes "services_total") c.total p))))))

  -- the list of groups, which is a null pointer if there are none
  abbrev pub groups_of : Clustat → Outcome (List Group)
  groups_of clustat = elim clustat.group [ [] ↦ fault | g ∷ gs ↦ completed (g ∷ gs) ]

  -- `main` behind the reading of the two files
  unfoldable pub check : Clustat → Configuration → Plugin → Outcome Exit
  unfolding judge_groups measure leave critical
  check clustat conf p = do
    place ← deref clustat.local
    local ← deref (get_elem? clustat.node place)
    if not (local.rgmanager == 1) then left (not_running clustat local p) else (do
      groups ← groups_of clustat
      judged ←
          judge_groups clustat conf local.name groups
            (no_counts, record { missing = none; foreign = none })
      completed (leave clustat local.name judged.1 (measure clustat judged.0 p)))
