-- ===== src/Getopt.antt =====
-- lib/mp_getopt.c: the options that every program has. What `getopt_long` returns, call by call, is a
-- list of events, an option with its argument, up to the -1. `mp_eopt` puts arguments in front of those to
-- come, so `g.eopt` makes new events of its argument and of the events to come; it may come to `--eopt`
-- again, so the loop runs on fuel. `process_arguments` is the loop that every check has around `mp_getopt`,
-- for the check's own options a parameter.
pub mod Bind
pub mod Loop
mod Tests
use monitoringplug.Base.{
  ℕ, zero, suc, ◌+◌, Bool, true, false, ◌||◌, codes, Option, none, some, List, [], ◌∷◌, Bytes, ◌==◌,
  if◌then◌else◌,
}
use monitoringplug.Base.Int.{ℤ, pos}
use monitoringplug.Text.{strtol}
use monitoringplug.Utils.{to_int}
use monitoringplug.Range.{Doubles, Thresholds, Multiplier}
use monitoringplug.Output.{Plugin, Exit, usage, critical}
use monitoringplug.Args.{Result, stored, refused, getopt_wc}

-- What a part of a program comes to: its value, an exit, or a fault, which is a read that C does not
-- define, or a loop that has not ended when its fuel is used up.
pub data Outcome {ℓ} (A : Type ℓ) : Type ℓ where
  completed : A → Outcome A
  left : Exit → Outcome A
  fault : Outcome A

infixl 10 ◌>>=◌
abbrev pub ◌>>=◌ {ℓ κ} : {A : Type ℓ} {B : Type κ} → Outcome A → (A → Outcome B) → Outcome B
completed a >>= f = f a
left e >>= f = left e
fault >>= f = fault

-- an option that `getopt_long` returns, with its argument
pub record Event : Type 0 where
  pub option : ℕ
  pub optarg : Option Bytes

-- `progname`, `progusage`, what `print_help` and `print_revision` print, and the events to come after
-- `mp_eopt`, given its argument and the events to come before
pub record Program : Type 0 where
  pub progname : Bytes
  pub progusage : Bytes
  pub help : Bytes
  pub revision : Bytes
  pub eopt : Option Bytes → List Event → List Event

-- `mp_verbose`, `mp_timeout` and `mp_showperfdata`
pub record Globals : Type 0 where
  pub verbose : ℕ
  pub timeout : ℤ
  pub show_perfdata : Bool

-- What `mp_getopt` returns: -1, or an option for the caller, with what is left to come.
pub data Returned : Type 0 where
  no_more : Globals → Returned
  for_caller : Event → List Event → Globals → Returned

-- an argument that is read, where a null pointer is a fault
abbrev pub with_arg {ℓ} : {A : Type ℓ} → Option Bytes → (Bytes → Outcome A) → Outcome A
with_arg none f = fault
with_arg (some optarg) f = f optarg

-- `MP_LONGOPT_EOPT`
abbrev pub longopt_eopt : ℕ
longopt_eopt = 128

-- For `--perfdata` `getopt_long` sets `mp_showperfdata` and returns 0.
unfoldable pub set_flag : Event → Globals → Globals
set_flag e s = if e.option == 0 then record s { show_perfdata = true } else s

module _ (g : Program) where
  -- `usage(...)` of the program
  abbrev pub use_error : Bytes → Exit
  use_error msg = usage g.progname g.progusage msg

  abbrev pub or_leave {ℓ} : {A : Type ℓ} → Result A → Outcome A
  or_leave (stored a) = completed a
  or_leave (refused msg) = left (use_error msg)

  abbrev pub leave_with : Bytes → Outcome Returned
  leave_with text = left (record { stdout = text; status = 0 })

  -- the `while (1)` of `mp_getopt`, on fuel
  unfoldable pub mp_getopt : ℕ → List Event → Globals → Outcome Returned
  unfolding usage set_flag
  mp_getopt zero es s = fault
  mp_getopt (suc fuel) [] s = completed (no_more s)
  mp_getopt (suc fuel) (e ∷ es) s =
      let verbosely = mp_getopt fuel es (record s { verbose = s.verbose + 1 }) in
      let extended = mp_getopt fuel (g.eopt e.optarg es) s in
      let timed =
        λ (optarg : Bytes). mp_getopt fuel es (record s { timeout = to_int (strtol optarg).0 }) in
      if e.option == b'?'
      then left (use_error [])
      else if e.option == b'h'
      then leave_with g.help
      else if e.option == b'V'
      then leave_with g.revision
      else if e.option == b'v'
      then verbosely
      else if e.option == longopt_eopt
      then extended
      else if e.option == b't'
      then with_arg e.optarg timed
      else completed (for_caller e es (set_flag e s))

  module _ {A : Type 0} (handle : Event → A → Outcome A) where
    -- `while (1) { c = mp_getopt(...); if (c == -1 || c == EOF) break; ... }`, on fuel
    unfoldable pub process_options : ℕ → List Event → Globals → A → Outcome (Globals × A)
    unfolding mp_getopt
    process_options zero es s a = fault
    process_options (suc fuel) es s a = do
      returned ← mp_getopt (suc fuel) es s
      elim returned [
        | no_more t ↦ completed (t, a)
        | for_caller e rest t ↦ handle e a >>= process_options fuel rest t
      ]

  -- `getopt_wc`, or with `time` `getopt_wc_time`, which reads the argument of -w and -c only
  module _ (F : Doubles) where
    unfoldable pub take_thresholds :
        Multiplier → Event → Option (Thresholds F.D) → Outcome (Option (Thresholds F.D))
    unfolding getopt_wc
    take_thresholds m e t =
        if e.option == b'w' || e.option == b'c'
        then with_arg e.optarg (λ optarg. or_leave (getopt_wc F m e.option optarg t))
        else completed t

-- How every `main` begins: the signal handler, the arguments, and then the check.
unfoldable pub start {ℓ} :
    {A : Type ℓ}
    → Bool
    → Plugin
    → Outcome (Globals × A)
    → (A → Plugin → Outcome Exit)
    → Outcome Exit
unfolding critical
start false p arguments check = left (critical (codes "Setup SIGALRM trap failed!") p)
start true p arguments check =
    arguments
    >>= (λ q. check q.1 (record p { show_perfdata = p.show_perfdata || q.0.show_perfdata }))
