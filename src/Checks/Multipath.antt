-- ===== src/Checks/Multipath.antt =====
-- base/check_multipath.c: the paths that `multipath -l` calls failed. What the program prints and its
-- result are parameters, as are the user ids and whether `setuid(0)` succeeds. What `-v` prints is left
-- out.
pub mod Paths
mod Tests
use monitoringplug.Base.{
  ℕ, zero, suc, ◌+◌, Bool, true, false, ◌||◌, ◌&&◌, not, Option, none, some, [], ◌∷◌, ◌++◌, Bytes,
  codes, length, List, ltb, ◌==◌, if◌then◌else◌,
}
use monitoringplug.Base.Int.{ℤ, pos}
use monitoringplug.Text.{starts_with, fgets_upto, decimal, decimal_ℤ}
use monitoringplug.Output.{Plugin, Exit, ok, warning, critical, unknown, noneroot_die}
use monitoringplug.Getopt.{
  Outcome, completed, left, fault, ◌>>=◌, Program, Globals, Event, process_options,
}

-- `strstr(s, needle) != NULL`
unfoldable pub includes : Bytes → Bytes → Bool
unfolding starts_with
includes [] needle = starts_with [] needle
includes (c ∷ s) needle = starts_with (c ∷ s) needle || includes s needle

-- `while (fgets(line, sizeof line, fp) != NULL)` with `lines` and `failed`, on fuel
unfoldable pub read_loop : ℕ → Bytes → ℕ × ℕ → Option (ℕ × ℕ)
unfolding fgets_upto includes
read_loop zero input counts = none
read_loop (suc fuel) [] counts = some counts
read_loop (suc fuel) (c ∷ input) (lines, failed) =
    let (line, rest) = fgets_upto 127 (c ∷ input) in
    read_loop fuel rest (lines + 1, if includes line (codes "failed") then failed + 1 else failed)

-- `mp_subprocess_close` and behind it
unfoldable pub leave : ℤ → ℕ × ℕ → Plugin → Exit
unfolding ok warning critical decimal decimal_ℤ
leave (pos zero) (lines, failed) p =
    if lines == 0
    then warning (codes "No paths defined") p
    else if ltb 0 failed
    then critical (decimal failed ++ codes " paths failed") p
    else ok (codes "Multipath") p
leave r counts p = critical (codes "Executing multipath failed! (" ++ (decimal_ℤ r ++ codes ")")) p

-- what the program printed, if it could be read: every line takes a byte of it
unfoldable pub judge : Option Bytes → ℤ → Plugin → Outcome Exit
unfolding read_loop leave unknown
judge none r p = left (unknown (codes "Can't exec multipath") p)
judge (some input) r p = elim (read_loop (length input + 1) input (0, 0)) [
  | none ↦ fault
  | some counts ↦ completed (leave r counts p)
]

module _ (g : Program) where
  -- `main` behind `process_arguments`, with the effective user and whether `setuid(0)` returns 0
  unfoldable pub check : Bool → ℕ → Bool → Option Bytes → ℤ → Plugin → Outcome Exit
  unfolding judge noneroot_die unknown
  check true user becomes_root output r p = judge output r p
  check false user becomes_root output r p = elim (noneroot_die g.progname g.progusage user) [
    | some e ↦ left e
    | none ↦ if not becomes_root then left (unknown (codes "setuid failed") p) else judge output r p
  ]

  -- the loop of `process_arguments`, for `nonroot`
  unfoldable pub process_arguments : ℕ → List Event → Globals → Bool → Outcome (Globals × Bool)
  unfolding process_options
  process_arguments =
      process_options g (λ e nonroot. completed (if e.option == b'n' then true else nonroot))
