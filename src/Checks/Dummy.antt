-- ===== src/Checks/Dummy.antt =====
-- dummy/check_dummy.c: a check that comes to what its arguments say. `operands` are the arguments from
-- `optind` on. `vprintf` is a parameter: what the output is as a format with no arguments. What `-v`
-- prints is left out.
pub mod Message
mod Tests
use monitoringplug.Base.{
  ℕ, Option, none, some, List, [], ◌∷◌, ◌++◌, ◌-◌, Bytes, codes, length, take, ltb, ◌==◌,
  if◌then◌else◌,
}
use monitoringplug.Base.Int.{ℤ, pos, negsuc}
use monitoringplug.Text.{strtol}
use monitoringplug.Utils.{to_int}
use monitoringplug.Check.{is_integer}
use monitoringplug.Output.{Plugin, Exit, ok, warning, critical, unknown}
use monitoringplug.Getopt.{Outcome, completed, fault, Program, Globals, Event, process_options}

-- `r`, and the operands that are left: the test reads `argv[0]`, as `c` is 0
unfoldable pub state_of : Bytes → List Bytes → ℤ × List Bytes
unfolding is_integer strtol to_int
state_of program [] = (pos 1, [])
state_of program (operand ∷ operands) =
    if is_integer (some program)
    then (to_int (strtol program).0, operands)
    else (pos 1, operand ∷ operands)

-- `if (r < 0 || r > 4) r = 2;`
unfoldable pub in_range : ℤ → ℕ
in_range (pos r) = if ltb 4 r then 2 else r
in_range (negsuc r) = 2

-- what the loop copies into the block
unfoldable pub copied : List Bytes → Bytes
copied [] = []
copied (operand ∷ operands) = operand ++ b' ' ∷ copied operands

-- `msgc--; *msgc = '\0';`, where `none` is a write before the block
unfoldable pub message : List Bytes → Option Bytes
unfolding copied
message operands =
    let msg = copied operands in if length msg == 0 then none else some (take (length msg - 1) msg)

module _ (vprintf : Bytes → Bytes) where
  -- the `switch`
  unfoldable pub leave : ℕ → Bytes → Plugin → Exit
  unfolding ok warning critical unknown
  leave r msg p =
      if r == 0
      then ok (vprintf msg) p
      else if r == 1
      then warning (vprintf msg) p
      else if r == 2
      then critical (vprintf msg) p
      else if r == 3
      then unknown (vprintf msg) p
      else if r == 4
      then unknown (vprintf msg) p
      else critical (codes "You should never reach this point.") p

  unfoldable pub leave_if_written : ℕ → Option Bytes → Plugin → Outcome Exit
  unfolding leave
  leave_if_written r none p = fault
  leave_if_written r (some msg) p = completed (leave r msg p)

  -- `main` behind `process_arguments`
  unfoldable pub check : Bytes → List Bytes → Plugin → Outcome Exit
  unfolding state_of in_range message leave_if_written
  check program operands p =
      let (r, rest) = state_of program operands in leave_if_written (in_range r) (message rest) p

-- the loop of `process_arguments`, whose body is empty
unfoldable pub process_arguments : Program → ℕ → List Event → Globals → Outcome (Globals × Unit {0})
unfolding process_options
process_arguments g fuel es s = process_options g (λ e u. completed u) fuel es s tt
