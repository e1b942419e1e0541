-- ===== src/Checks/File/ExitStatus.antt =====
-- The exit of the file check as that of the reports it makes.
use monitoringplug.Base.{
  ℕ, Bool, true, false, Option, none, some, List, [], ◌∷◌, ◌++◌, ◌≡◌, refl, sym, ap, ◌∙◌, arith,
  Bytes, codes, ◌==◌, if◌then◌else◌,
}
use monitoringplug.Base.Int.{ℤ, pos}
use monitoringplug.Check.{is_integer}
use monitoringplug.Range.{Doubles, Thresholds, get_status}
use monitoringplug.Output.{Plugin, Exit, set_okonly, set_critical, mp_exit, critical}
use monitoringplug.Output.Severity.{
  is_warning, is_critical, Report, report_all, worst, level_of, IsLevel, mp_exit-worst,
}
use monitoringplug.Getopt.{Outcome, completed, left, ◌>>=◌, with_arg}
use monitoringplug.Checks.File.{
  Stat, Settings, difference, is_id, report_status, check_range_of, critical_unless, check_access,
  check_owner, check_group, check_permissions, check_stat, check,
}

module _ (F : Doubles) (of_long : ℤ → F.D) (lstat : Bytes → Option Stat) (now : ℕ)
    (getpwnam getgrnam : Bytes → Option ℕ) (p : Plugin) where
  -- The specification: what each test reports.
  abbrev pub status_report : Bytes → ℕ → List Report
  status_report what status =
      if status == 1
      then record { severity = is_warning; text = what ++ codes " warning" } ∷ []
      else if status == 2
      then record { severity = is_critical; text = what ++ codes " critical" } ∷ []
      else []

  abbrev pub range_report : Bytes → ℤ → Option (Thresholds F.D) → List Report
  range_report what value none = []
  range_report what value (some t) = status_report what (get_status F (of_long value) (some t))

  abbrev pub critical_report : Bool → Bytes → List Report
  critical_report true text = []
  critical_report false text = record { severity = is_critical; text = text } ∷ []

  abbrev pub owner_text : Bytes → Bytes
  owner_text name = if is_integer (some name) then codes "owner critcal" else codes "owner critical"

  abbrev pub owner_report : Stat → Option Bytes → List Report
  owner_report stat none = []
  owner_report stat (some name) =
      critical_report (is_id getpwnam stat.st_uid name) (owner_text name)

  abbrev pub group_report : Stat → Option Bytes → List Report
  group_report stat none = []
  group_report stat (some name) =
      critical_report (is_id getgrnam stat.st_gid name) (codes "group critical")

  abbrev pub reports : Settings F.D → Stat → Bool → List Report
  reports s stat passed =
      range_report (codes "age") (difference now stat.st_mtime) s.age_thresholds
      ++ (range_report (codes "size") (pos stat.st_size) s.size_thresholds
          ++ (owner_report stat s.ownername
              ++ (group_report stat s.groupname
                  ++ critical_report passed (codes "access critical"))))

  report_all-append :
      (rs ss : List Report) (q : Plugin) → report_all (rs ++ ss) q ≡ report_all ss (report_all rs q)
  unfolding report_all
  report_all-append [] ss q = refl
  report_all-append (r ∷ rs) ss q = report_all-append rs ss _

  report_all-five :
      (ls bs cs ds es : List Report) (q : Plugin)
      → report_all (ls ++ (bs ++ (cs ++ (ds ++ es)))) q
        ≡ report_all es (report_all ds (report_all cs (report_all bs (report_all ls q))))
  report_all-five ls bs cs ds es q =
      report_all-append ls _ q
      ∙ report_all-append bs _ (report_all ls q)
      ∙ report_all-append cs _ (report_all bs (report_all ls q))
      ∙ report_all-append ds es (report_all cs (report_all bs (report_all ls q)))

  report_status-report :
      (what : Bytes) (status : ℕ) (q : Plugin)
      → report_status what status q ≡ report_all (status_report what status) q
  unfolding report_status report_all
  report_status-report what status q = ground arith

  range-report :
      (what : Bytes) (value : ℤ) (t : Option (Thresholds F.D)) (q : Plugin)
      → check_range_of F of_long what value t q ≡ report_all (range_report what value t) q
  unfolding check_range_of
  range-report what value none q = unfold report_all in refl
  range-report what value (some t) q =
      report_status-report what (get_status F (of_long value) (some t)) q

  critical_unless-report :
      (b : Bool) (text : Bytes) (q : Plugin)
      → critical_unless b text q ≡ report_all (critical_report b text) q
  unfolding report_all
  critical_unless-report true text q = refl
  critical_unless-report false text q = refl

  critical_unless-report_if :
      (b : Bool) (text : Bytes) (q : Plugin)
      → (if b then q else set_critical text q) ≡ report_all (critical_report b text) q
  unfolding report_all
  critical_unless-report_if true text q = refl
  critical_unless-report_if false text q = refl

  owner-report :
      (stat : Stat) (name : Option Bytes) (q : Plugin)
      → check_owner F of_long lstat now getpwnam getgrnam stat name q
        ≡ report_all (owner_report stat name) q
  unfolding check_owner report_all
  owner-report stat none q = refl
  owner-report stat (some name) q =
      critical_unless-report_if (is_id getpwnam stat.st_uid name) (owner_text name) q

  group-report :
      (stat : Stat) (name : Option Bytes) (q : Plugin)
      → check_group F of_long lstat now getpwnam getgrnam stat name q
        ≡ report_all (group_report stat name) q
  unfolding check_group
  group-report stat none q = unfold report_all in refl
  group-report stat (some name) q = critical_unless-report (is_id getgrnam stat.st_gid name) _ q

  -- What the access string comes to, if there is one and it is legal.
  abbrev pub Passes : Option Bytes → Stat → Bool → Type 0
  Passes none stat passed = passed ≡ true
  Passes (some a) stat passed = (q : Plugin) → check_access q a stat.st_mode ≡ completed passed

  permissions-report :
      (stat : Stat) (a : Option Bytes) (passed : Bool) (q : Plugin)
      → Passes a stat passed
      → check_permissions F of_long lstat now getpwnam getgrnam stat a q
        ≡ completed (report_all (critical_report passed (codes "access critical")) q)
  unfolding check_permissions report_all
  permissions-report stat none true q h = refl
  permissions-report stat none false q h = cc
  permissions-report stat (some a) passed q h =
      rw (h q) (ap completed (critical_unless-report passed _ q))

  check_stat-reports :
      (s : Settings F.D) (stat : Stat) (passed : Bool) (q : Plugin)
      → Passes s.accessstring stat passed
      → check_stat F of_long lstat now getpwnam getgrnam s stat q
        ≡ completed (report_all (reports s stat passed) q)
  unfolding check_stat
  check_stat-reports s stat passed q h =
      let A = range_report (codes "age") (difference now stat.st_mtime) s.age_thresholds in
      let S = range_report (codes "size") (pos stat.st_size) s.size_thresholds in
      let O = owner_report stat s.ownername in
      let G = group_report stat s.groupname in
      let P = critical_report passed (codes "access critical") in
      let permitted = check_permissions F of_long lstat now getpwnam getgrnam stat s.accessstring in
      let grouped = check_group F of_long lstat now getpwnam getgrnam stat s.groupname in
      let owned = check_owner F of_long lstat now getpwnam getgrnam stat s.ownername in
      let sized = check_range_of F of_long (codes "size") (pos stat.st_size) s.size_thresholds in
      let q1 = report_all A q in
      let q2 = report_all S q1 in
      let q3 = report_all O q2 in
      ap (λ r. permitted (grouped (owned (sized r))))
        (range-report (codes "age") (difference now stat.st_mtime) s.age_thresholds q)
      ∙ ap (λ r. permitted (grouped (owned r)))
          (range-report (codes "size") (pos stat.st_size) s.size_thresholds q1)
      ∙ ap (λ r. permitted (grouped r)) (owner-report stat s.ownername q2)
      ∙ ap permitted (group-report stat s.groupname q3)
      ∙ permissions-report stat s.accessstring passed (report_all G q3) h
      ∙ ap completed (sym (report_all-five A S O G P q))

  set_okonly-status :
      (msg text : Bytes) (q : Plugin)
      → (mp_exit msg (set_okonly text q)).status ≡ (mp_exit msg q).status
  unfolding mp_exit set_okonly
  set_okonly-status msg text q = ground arith

  -- the parts of `check`, behind each test
  abbrev leave : Bytes → Plugin → Outcome Exit
  leave filename q =
      completed (mp_exit (filename ++ codes ": ") (set_okonly (codes "Everithing ok.") q))

  abbrev after_lstat : Settings F.D → Bytes → Option Stat → Outcome Exit
  after_lstat s filename o = elim o [
    | none ↦ left (critical (codes "Stat '" ++ (filename ++ codes "' failed.")) p)
    | some stat ↦ check_stat F of_long lstat now getpwnam getgrnam s stat p >>= leave filename
  ]

  abbrev after_name : Settings F.D → Bytes → Outcome Exit
  after_name s filename = after_lstat s filename (lstat filename)

  -- For a file that is there and an access string that is missing or legal, the file check completes with
  -- the worst status of: 1 or 2 by the thresholds for the age and for the size, 2 for an owner, a group
  -- or permissions that are not as asked, 0 otherwise.
  pub check-reports :
      (s : Settings F.D) (filename : Bytes) (stat : Stat) (passed : Bool)
      → IsLevel p.state
      → s.filename ≡ some filename
      → lstat filename ≡ some stat
      → Passes s.accessstring stat passed
      → (e : Exit) × (check F of_long lstat now getpwnam getgrnam s p ≡ completed e)
        × (e.status ≡ worst (level_of p.state) (reports s stat passed))
  unfolding check
  check-reports s filename stat passed k name there h =
      let rs = reports s stat passed in
      let msg = filename ++ codes ": " in
      let q = report_all rs p in
      (
        mp_exit msg (set_okonly (codes "Everithing ok.") q),
        ap (λ o. with_arg o (after_name s)) name
            ∙ ap (after_lstat s filename) there
            ∙ ap (λ o. o >>= leave filename) (check_stat-reports s stat passed p h),
        set_okonly-status msg (codes "Everithing ok.") q ∙ (mp_exit-worst rs msg p k).0,
      )
