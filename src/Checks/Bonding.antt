-- ===== src/Checks/Bonding.antt =====
-- base/check_bonding.c: the state of network bonds, from the files of the kernel. `mp_malloc` leaves the
-- fields of `bonding_info` indeterminate; a field that nothing has set is `none`, and reading it a fault.
-- `vprintf` is a parameter: what the output is as a format with no arguments. `readdir` and `fopen`
-- are parameters as well.
mod Tests
pub mod Lines
pub mod Status
use monitoringplug.Base.{
  ℕ, zero, suc, ◌+◌, ◌-◌, ◌%◌, ◌^◌, Bool, true, false, Option, none, some, List, [], ◌∷◌, ◌++◌,
  Bytes, codes, length, take, drop, ltb, ◌==◌, if◌then◌else◌,
}
use monitoringplug.Text.{str_eq, starts_with, strsep, fgets_upto}
use monitoringplug.Utils.{strcat_comma, array_push}
use monitoringplug.Output.{
  Plugin, Exit, ok, warning, critical, unknown, state_ok, state_warning, state_critical,
}
use monitoringplug.Getopt.{
  Outcome, completed, left, fault, ◌>>=◌, Program, Globals, Event, with_arg, process_options,
}

pub record Slave : Type 0 where
  pub interface : Bytes
  pub mii_status : Option Bool

pub record Info : Type 0 where
  pub version : Option Bytes
  pub mode : Option Bytes
  pub mii_status : Option Bool
  pub slave : List Slave

-- after the `malloc`
abbrev pub fresh : Info
fresh = record { version = none; mode = none; mii_status = none; slave = [] }

abbrev pub is_colon : ℕ → Bool
is_colon c = c == b':'

-- `value++; value[strlen(value)-1] = '\0';`, where `none` is a step past the end of the text
unfoldable pub value_of : Bytes → Option Bytes
value_of [] = none
value_of (c ∷ value) = some (take (length value - 1) value)

-- `info->slave[count-1]->mii_status = up`
unfoldable pub set_last : Bool → List Slave → List Slave
set_last up [] = []
set_last up (s ∷ []) = record s { mii_status = some up } ∷ []
set_last up (s ∷ t ∷ ss) = s ∷ set_last up (t ∷ ss)

unfoldable pub set_mii : Bool → Info → Info
unfolding set_last
set_mii up i = elim i.slave [
  | [] ↦ record i { mii_status = some up }
  | s ∷ ss ↦ record i { slave = set_last up (s ∷ ss) }
]

unfoldable pub assign : Bytes → Bytes → Info → Info
unfolding str_eq set_mii
assign key value i =
    if str_eq key (codes "Ethernet Channel Bonding Driver")
    then record i { version = some value }
    else if str_eq key (codes "Bonding Mode")
    then record i { mode = some value }
    else if str_eq key (codes "MII Status")
    then set_mii (str_eq value (codes "up")) i
    else if str_eq key (codes "Slave Interface")
    then record i { slave = i.slave ++ record { interface = value; mii_status = none } ∷ [] }
    else i

-- one line, as `fgets` has read it
unfoldable pub parse_line : Bytes → Info → Option Info
unfolding strsep value_of assign
parse_line line i =
    let (key, rest) = strsep is_colon line in
    elim rest [
      | none ↦ some i
      | some behind ↦ elim (value_of behind) [
        | none ↦ none
        | some value ↦ some (assign key value i)
      ]
    ]

-- `while (fgets(buffer, 256, input) != NULL)`, on fuel
unfoldable pub parse_loop : ℕ → Bytes → Info → Option Info
unfolding fgets_upto parse_line
parse_loop zero input i = none
parse_loop (suc fuel) [] i = some i
parse_loop (suc fuel) (c ∷ input) i =
    let (line, rest) = fgets_upto 255 (c ∷ input) in
    elim (parse_line line i) [ none ↦ none | some j ↦ parse_loop fuel rest j ]

-- `parseBond`: a null pointer where the file is missing; every line takes a byte of the file
unfoldable pub parse_bond : Option Bytes → Outcome (Option Info)
unfolding parse_loop
parse_bond none = completed none
parse_bond (some input) = elim (parse_loop (length input + 1) input fresh) [
  | none ↦ fault
  | some info ↦ completed (some info)
]

-- `%s` of a text that may be null
abbrev pub printed : Option Bytes → Bytes
printed none = codes "(null)"
printed (some s) = s

-- an indeterminate value is a fault
abbrev pub determined {ℓ} : {A : Type ℓ} → Option A → Outcome A
determined none = fault
determined (some a) = completed a

-- the loop over the slaves: `up` and `down`
unfoldable pub by_status :
    List Slave → Option Bytes × Option Bytes → Outcome (Option Bytes × Option Bytes)
unfolding strcat_comma
by_status [] names = completed names
by_status (s ∷ ss) (up, down) = do
  slave_up ← determined s.mii_status
  by_status ss (
      if slave_up
      then (strcat_comma up (some s.interface), down)
      else (up, strcat_comma down (some s.interface)))

-- `info->slaves`, an `unsigned short` that is set with the first slave
unfoldable pub slaves : List Slave → Outcome (List Slave)
slaves [] = fault
slaves (s ∷ ss) = completed (take (length (s ∷ ss) % 2 ^ 16) (s ∷ ss))

-- `mp_snprintf(buf, 64, ...)`
unfoldable pub snprintf_64 : Plugin → Bytes → Outcome Bytes
unfolding critical
snprintf_64 p text =
    if ltb (length text) 64 then completed text else left (critical (codes "snprintf failed!") p)

-- `status == STATE_OK ? STATE_WARNING : status`
abbrev pub degrade : ℕ → ℕ
degrade status = if status == 0 then 1 else status

-- a bond that is up, with the names `up` and `down`
unfoldable pub report_up : Plugin → Bytes → Option Bytes × Option Bytes → ℕ → Outcome (Bytes × ℕ)
unfolding snprintf_64
report_up p bond (up, none) status = do
  buf ← snprintf_64 p (bond ++ (codes " up (" ++ (printed up ++ codes ")")))
  completed (buf, status)
report_up p bond (up, some down) status = do
  buf ←
      snprintf_64 p
        (bond ++ (codes " up (" ++ (printed up ++ (codes ", down: " ++ (down ++ codes ")")))))
  completed (buf, degrade status)

unfoldable pub report_info : Plugin → Bytes → Info → Bool → ℕ → Outcome (Bytes × ℕ)
unfolding snprintf_64 slaves by_status report_up
report_info p bond info true status = do
  named ← slaves info.slave
  names ← by_status named (none, none)
  report_up p bond names status
report_info p bond info false status = do
  mode ← determined info.mode
  buf ← snprintf_64 p (bond ++ (codes " down (" ++ (mode ++ codes ")")))
  completed (buf, 2)

-- one bond of the loop: the text for it, and the status
unfoldable pub report : Plugin → Bytes → Option Info → ℕ → Outcome (Bytes × ℕ)
unfolding snprintf_64 report_info
report p bond none status = do buf ← snprintf_64 p (bond ++ codes " not found"); completed (buf, 2)
report p bond (some info) status = do
  mii_status ← determined info.mii_status
  report_info p bond info mii_status status

abbrev pub bonding_dir_of : Option Bytes → Bytes
bonding_dir_of none = codes "/proc/net/bonding"
bonding_dir_of (some bonding_dir) = bonding_dir

module _ (fopen : Bytes → Option Bytes) (vprintf : Bytes → Bytes) where
  -- the loop over the bonds, with `output` and `status`
  unfoldable pub check_bonds :
      Plugin → Bytes → List Bytes → Option Bytes → ℕ → Outcome (Option Bytes × ℕ)
  unfolding parse_bond report strcat_comma
  check_bonds p bonding_dir [] output status = completed (output, status)
  check_bonds p bonding_dir (bond ∷ bonds) output status = do
    info ← parse_bond (fopen (bonding_dir ++ b'/' ∷ bond))
    reported ← report p bond info status
    check_bonds p bonding_dir bonds (strcat_comma output (some reported.0)) reported.1

  -- the `switch` at the end
  unfoldable pub leave : Plugin → Option Bytes × ℕ → Outcome Exit
  unfolding ok warning critical unknown
  leave p (none, status) = fault
  leave p (some output, status) =
      if status == 0
      then completed (ok (vprintf output) p)
      else if status == 1
      then completed (warning (vprintf output) p)
      else if status == 2
      then completed (critical (vprintf output) p)
      else if status == 3
      then completed (unknown (vprintf output) p)
      else completed (critical (codes "You should never reach this point.") p)

  -- the names in the directory that begin with "bond"
  unfoldable pub read_bonds : List Bytes → List Bytes → List Bytes
  unfolding starts_with array_push
  read_bonds [] bonds = bonds
  read_bonds (entry ∷ entries) bonds =
      read_bonds entries
        (if starts_with entry (codes "bond") then array_push bonds (some entry) else bonds)

  -- `main` behind `process_arguments`, for the variable PROC_BONDING_DIR and the bonds asked for
  unfoldable pub check :
      (Bytes → Option (List Bytes)) → Option Bytes → List Bytes → Plugin → Outcome Exit
  unfolding read_bonds check_bonds leave critical
  check readdir variable bonds p =
      let bonding_dir = bonding_dir_of variable in
      elim bonds [
        | bond ∷ more ↦ check_bonds p bonding_dir (bond ∷ more) none 0 >>= leave p
        | [] ↦ elim (readdir bonding_dir) [
          | none ↦ left (critical (codes "Can't open '" ++ (bonding_dir ++ codes "'")) p)
          | some entries ↦ check_bonds p bonding_dir (read_bonds entries []) none 0 >>= leave p
        ]
      ]

-- the `switch` of `process_arguments`
unfoldable pub take_bond : Event → List Bytes → Outcome (List Bytes)
unfolding array_push
take_bond e bonds =
    if e.option == b'b'
    then with_arg e.optarg (λ optarg. completed (array_push bonds (some optarg)))
    else completed bonds

unfoldable pub process_arguments :
    Program → ℕ → List Event → Globals → List Bytes → Outcome (Globals × List Bytes)
unfolding process_options take_bond
process_arguments g = process_options g take_bond
