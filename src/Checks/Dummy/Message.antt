-- ===== src/Checks/Dummy/Message.antt =====
-- The message of check_dummy, and what it says for a program whose name is no number.
use monitoringplug.Base.{
  false, none, some, List, [], ◌∷◌, ◌++◌, append_assoc, ◌-◌, ◌≡◌, refl, sym, ap, ◌∙◌, arith, Bytes,
  length, length-append, take, take-without_last, ◌==◌, if◌then◌else◌,
}
use monitoringplug.Base.Int.{ℤ, pos}
use monitoringplug.Text.{strtol}
use monitoringplug.Utils.{to_int}
use monitoringplug.Check.{is_integer}
use monitoringplug.Output.{Plugin, warning}
use monitoringplug.Getopt.{completed}
use monitoringplug.Checks.Dummy.{in_range, copied, message, leave_if_written, check}

-- The operands with a blank between each two.
unfoldable pub joined : Bytes → List Bytes → Bytes
joined operand [] = operand
joined operand (next ∷ more) = operand ++ b' ' ∷ joined next more

copied-joined :
    (operand : Bytes) (more : List Bytes)
    → copied (operand ∷ more) ≡ joined operand more ++ b' ' ∷ []
unfolding copied joined
copied-joined operand [] = refl
copied-joined operand (next ∷ more) =
    ap (λ s. operand ++ b' ' ∷ s) (copied-joined next more)
    ∙ sym (append_assoc operand (b' ' ∷ joined next more) (b' ' ∷ []))

-- The message is the operands with a blank between each two.
pub message-joined :
    (operand : Bytes) (more : List Bytes) → message (operand ∷ more) ≡ some (joined operand more)
unfolding message
message-joined operand more =
    ap (λ msg. if length msg == 0 then none else some (take (length msg - 1) msg))
      (copied-joined operand more)
    ∙ ap
        (λ b.
          if b
          then none
          else some (
              take (length (joined operand more ++ b' ' ∷ []) - 1)
                (joined operand more ++ b' ' ∷ [])))
        {y = false} (ground (arith, length-append (joined operand more) (b' ' ∷ [])))
    ∙ ap some (take-without_last (joined operand more) b' ')

-- Where the program's name is no number, the check comes to WARNING with all operands, the state asked
-- for among them.
pub check-warning :
    (vprintf : Bytes → Bytes) (program operand : Bytes) (more : List Bytes) (p : Plugin)
    → is_integer (some program) ≡ false
    → check vprintf program (operand ∷ more) p
      ≡ completed (warning (vprintf (joined operand more)) p)
unfolding check
check-warning vprintf program operand more p h =
    ap (λ (q : ℤ × List Bytes). leave_if_written vprintf (in_range q.0) (message q.1) p)
      (ap (λ b. if b then (to_int (strtol program).0, more) else (pos 1, operand ∷ more)) h)
    ∙ ap (λ m. leave_if_written vprintf 1 m p) (message-joined operand more)
