-- ===== src/Checks/File.antt =====
-- base/check_file.c: age, size, owner, group and permissions of a file. `lstat`, `time`, `getpwnam` and
-- `getgrnam` are parameters; a file's type and permissions are one number, as `st_mode` has them. What
-- `-v` prints is left out.
mod Tests
pub mod Access
pub mod ExitStatus
pub mod Required
use Prim.Native.Nat.{bit_and, bit_or}
use monitoringplug.Base.{
  ℕ, zero, suc, ◌-◌, ◌%◌, ◌^◌, Bool, true, false, not, ◌&&◌, ◌||◌, Option, none, some, List, [],
  ◌∷◌, ◌++◌, Bytes, codes, leb, ◌==◌, if◌then◌else◌,
}
use monitoringplug.Base.Int.{ℤ, pos, negsuc}
use monitoringplug.Text.{strtol}
use monitoringplug.Check.{is_integer}
use monitoringplug.Range.{
  Doubles, Thresholds, Status, accepted, error, bisi, time, get_status, set_warning_range,
  set_critical_range,
}
use monitoringplug.Output.{
  Plugin, Exit, set_okonly, set_warning, set_critical, mp_exit, critical, unknown,
}
use monitoringplug.Getopt.{
  Outcome, completed, left, fault, ◌>>=◌, Program, Globals, Event, with_arg, use_error,
  process_options, take_thresholds, start,
}

pub record Stat : Type 0 where
  pub st_mode : ℕ
  pub st_uid : ℕ
  pub st_gid : ℕ
  pub st_mtime : ℕ
  pub st_size : ℕ

-- `mask_function`: -1, 0 and 1
pub data MaskFunction : Type 0 where
  lacks equals has : MaskFunction

-- `state == 1`, and the masks
pub record Clause : Type 0 where
  pub permissions : Bool
  pub subject_mask : ℕ
  pub mask_function : MaskFunction
  pub access_mask : ℕ

abbrev pub no_clause : Clause
no_clause = record {
  permissions = false;
  subject_mask = 0;
  mask_function = equals;
  access_mask = 0;
}

-- the test at the end of a clause, whether `check_access` goes on
unfoldable pub passes : ℕ → MaskFunction → ℕ → ℕ → Bool
passes fmode lacks subject access = bit_and fmode (bit_and access subject) == 0
passes fmode equals subject access = bit_and fmode subject == bit_and access subject
passes fmode has subject access = bit_and fmode (bit_and access subject) == bit_and access subject

abbrev pub passes_clause : ℕ → Clause → Bool
passes_clause fmode a = passes fmode a.mask_function a.subject_mask a.access_mask

abbrev pub is_rwx : ℕ → Bool
is_rwx c = c == b'r' || c == b'w' || c == b'x'

-- `S_IRWXU`, `S_IRWXG` and `S_IRWXO`
abbrev pub all_user : ℕ
all_user = 448

abbrev pub all_group : ℕ
all_group = 56

abbrev pub all_other : ℕ
all_other = 7

-- `if (state == 0)`; `none` is an illegal character
unfoldable pub open_clause : ℕ → Clause → Option Clause
open_clause c a =
    if a.permissions
    then some a
    else if c == b'u'
    then some (record a { subject_mask = bit_or a.subject_mask all_user })
    else if c == b'g'
    then some (record a { subject_mask = bit_or a.subject_mask all_group })
    else if c == b'o'
    then some (record a { subject_mask = bit_or a.subject_mask all_other })
    else if c == b'-'
    then some (record a { mask_function = lacks; permissions = true })
    else if c == b'+'
    then some (record a { mask_function = has; permissions = true })
    else if c == b'='
    then some (record a { mask_function = equals; permissions = true })
    else none

-- the bits of r, w and x for all three, `S_IRUSR | S_IRGRP | S_IROTH` and so on
abbrev pub access_bits : ℕ → ℕ
access_bits c = if c == b'r' then 292 else if c == b'w' then 146 else 73

-- `if (state == 1)`
unfoldable pub permit : ℕ → Clause → Clause
permit c a =
    if a.permissions && is_rwx c
    then record a { access_mask = bit_or a.access_mask (access_bits c) }
    else a

module _ (p : Plugin) (accessstring : Bytes) (fmode : ℕ) where
  abbrev pub illegal_access : Exit
  illegal_access = unknown (codes "Illegal access string: " ++ accessstring) p

  -- one character: `none` where `check_access` returns -1
  unfoldable pub access_step : ℕ → Clause → Outcome (Option Clause)
  unfolding passes open_clause permit unknown
  access_step c a =
      let ended = a.permissions && not (is_rwx c) in
      if ended && not (passes_clause fmode a)
      then completed none
      else elim (open_clause c (if ended then no_clause else a)) [
        | none ↦ left illegal_access
        | some b ↦ completed (some (permit c b))
      ]

  unfoldable pub access_loop : Bytes → Clause → Outcome Bool
  unfolding access_step passes
  access_loop [] a = completed (passes_clause fmode a)
  access_loop (c ∷ s) a = do
    next ← access_step c a
    elim next [ none ↦ completed false | some b ↦ access_loop s b ]

  -- `check_access(fmode) == 0`
  unfoldable pub check_access : Outcome Bool
  unfolding access_loop
  check_access = access_loop accessstring no_clause

-- the difference of two times
abbrev pub difference : ℕ → ℕ → ℤ
difference a b = if leb b a then pos (a - b) else negsuc (b - a - 1)

-- `(int)` of a number, compared with an unsigned id: its low 32 bits
unfoldable pub id_of : ℤ → ℕ
id_of (pos n) = n % 2 ^ 32
id_of (negsuc n) = 2 ^ 32 - 1 - n % 2 ^ 32

-- whether an owner or a group is the one asked for, by number or by name
unfoldable pub is_id : (Bytes → Option ℕ) → ℕ → Bytes → Bool
unfolding is_integer strtol id_of
is_id resolve id name =
    if is_integer (some name)
    then id == id_of (strtol name).0
    else elim (resolve name) [ none ↦ false | some found ↦ id == found ]

-- the options: what `process_arguments` sets
pub record Settings (D : Type 0) : Type 0 where
  pub filename : Option Bytes
  pub ownername : Option Bytes
  pub groupname : Option Bytes
  pub accessstring : Option Bytes
  pub age_thresholds : Option (Thresholds D)
  pub size_thresholds : Option (Thresholds D)

abbrev pub no_settings : {D : Type 0} → Settings D
no_settings = record {
  filename = none;
  ownername = none;
  groupname = none;
  accessstring = none;
  age_thresholds = none;
  size_thresholds = none;
}

-- `switch (status)`
unfoldable pub report_status : Bytes → ℕ → Plugin → Plugin
unfolding set_warning set_critical
report_status what status p =
    if status == 1
    then set_warning (what ++ codes " warning") p
    else if status == 2
    then set_critical (what ++ codes " critical") p
    else p

module _ (F : Doubles) (of_long : ℤ → F.D) where
  unfoldable pub check_range_of : Bytes → ℤ → Option (Thresholds F.D) → Plugin → Plugin
  unfolding report_status get_status
  check_range_of what value none p = p
  check_range_of what value (some t) p =
      report_status what (get_status F (of_long value) (some t)) p

  -- `switch (c)`
  abbrev pub or_illegal :
      Program → Bytes → Bytes → Thresholds F.D × Status → Outcome (Option (Thresholds F.D))
  or_illegal g option optarg (t, accepted) = completed (some t)
  or_illegal g option optarg (t, error) = left (
      use_error g (codes "Illegal " ++ (option ++ (codes " argument '" ++ (optarg ++ codes "'.")))))

  unfoldable pub take_option : Program → Event → Settings F.D → Outcome (Settings F.D)
  unfolding set_warning_range set_critical_range
  take_option g e s =
      if e.option == b'f'
      then completed (record s { filename = e.optarg })
      else if e.option == b'o'
      then completed (record s { ownername = e.optarg })
      else if e.option == b'g'
      then completed (record s { groupname = e.optarg })
      else if e.option == b'a'
      then completed (record s { accessstring = e.optarg })
      else if e.option == b'W'
      then with_arg e.optarg (λ optarg.
        or_illegal g (codes "-W") optarg (set_warning_range F bisi optarg s.size_thresholds)
        >>= (λ t. completed (record s { size_thresholds = t })))
      else if e.option == b'C'
      then with_arg e.optarg (λ optarg.
        or_illegal g (codes "-C") optarg (set_critical_range F bisi optarg s.size_thresholds)
        >>= (λ t. completed (record s { size_thresholds = t })))
      else completed s

  -- the body of the loop
  unfoldable pub handle_option : Program → Event → Settings F.D → Outcome (Settings F.D)
  unfolding take_thresholds take_option
  handle_option g e s = do
    age ← take_thresholds g F time e s.age_thresholds
    take_option g e (record s { age_thresholds = age })

  unfoldable pub require_filename :
      Program → Globals × Settings F.D → Outcome (Globals × Settings F.D)
  require_filename g (t, s) = elim s.filename [
    | none ↦ left (use_error g (codes "Filename is mandatory."))
    | some filename ↦ completed (t, s)
  ]

  unfoldable pub process_arguments :
      Program → ℕ → List Event → Globals → Outcome (Globals × Settings F.D)
  unfolding process_options handle_option require_filename
  process_arguments g fuel es t =
      process_options g (handle_option g) fuel es t no_settings >>= require_filename g

-- `if (!ok) set_critical(msg)`
abbrev pub critical_unless : Bool → Bytes → Plugin → Plugin
critical_unless true msg p = p
critical_unless false msg p = set_critical msg p

module _ (F : Doubles) (of_long : ℤ → F.D) (lstat : Bytes → Option Stat) (now : ℕ)
    (getpwnam getgrnam : Bytes → Option ℕ) where
  unfoldable pub check_owner : Stat → Option Bytes → Plugin → Plugin
  unfolding is_id set_critical
  check_owner stat none p = p
  check_owner stat (some name) p =
      if is_id getpwnam stat.st_uid name
      then p
      else set_critical
          (if is_integer (some name) then codes "owner critcal" else codes "owner critical") p

  unfoldable pub check_group : Stat → Option Bytes → Plugin → Plugin
  unfolding is_id set_critical
  check_group stat none p = p
  check_group stat (some name) p =
      critical_unless (is_id getgrnam stat.st_gid name) (codes "group critical") p

  unfoldable pub check_permissions : Stat → Option Bytes → Plugin → Outcome Plugin
  unfolding check_access set_critical
  check_permissions stat none p = completed p
  check_permissions stat (some accessstring) p = do
    passed ← check_access p accessstring stat.st_mode
    completed (critical_unless passed (codes "access critical") p)

  -- the tests of `main`, in order
  unfoldable pub check_stat : Settings F.D → Stat → Plugin → Outcome Plugin
  unfolding check_range_of check_owner check_group check_permissions
  check_stat s stat p =
      let aged =
        check_range_of F of_long (codes "age") (difference now stat.st_mtime) s.age_thresholds p in
      let sized =
        check_range_of F of_long (codes "size") (pos stat.st_size) s.size_thresholds aged in
      let owned = check_owner stat s.ownername sized in
      check_permissions stat s.accessstring (check_group stat s.groupname owned)

  -- `main` behind `process_arguments`; a filename is there
  unfoldable pub check : Settings F.D → Plugin → Outcome Exit
  unfolding check_stat set_okonly mp_exit critical
  check s p = with_arg s.filename (λ filename. elim (lstat filename) [
    | none ↦ left (critical (codes "Stat '" ++ (filename ++ codes "' failed.")) p)
    | some stat ↦ check_stat s stat p >>= (λ q.
        completed (mp_exit (filename ++ codes ": ") (set_okonly (codes "Everithing ok.") q)))
  ])

  unfoldable pub main : Program → Bool → ℕ → List Event → Globals → Plugin → Outcome Exit
  unfolding start process_arguments check
  main g trapped fuel es t p = start trapped p (process_arguments F of_long g fuel es t) check
