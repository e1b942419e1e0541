-- ===== src/Template/Capacity.antt =====
-- The output block always holds the output and its NUL.
use monitoringplug.Base.{
  ℕ, zero, suc, ◌+◌, ◌*◌, ◌≤◌, Option, none, some, List, [], ◌∷◌, ◌≡◌, inl, inr, arith, Bytes,
  length, length-append, ltb, Bool-cases, Option-cases,
}
use monitoringplug.Base.Int.{ℤ}
use monitoringplug.Template.{
  Conditional, Template, grow, resize, append, template_if, template_switch_int, else_at, case_at,
  end_at, Command, put, open_if, flip, open_switch, when, close, step, run,
}

abbrev pub Fits : Template → Type 0
Fits t = length t.output + 1 ≤ t.output_len

-- Enough rounds give the block its size.
le-grow : (fuel need len : ℕ) → need ≤ len + fuel * 64 → need ≤ grow fuel need len
unfolding grow
le-grow zero need len h = omega arith
le-grow (suc fuel) need len h = elim (Bool-cases (ltb len need)) [
  | inl e ↦ rw e (le-grow fuel need (len + 64) (omega arith))
  | inr e ↦ rw e (ground arith)
]

le-resize : (need len : ℕ) → need ≤ resize need len
unfolding resize
le-resize need len = elim (Bool-cases (ltb len need)) [
  | inl e ↦ rw e (omega (arith, le-grow need need len))
  | inr e ↦ rw e (ground arith)
]

append-Fits : (s : Option Bytes) (t : Template) → Fits t → Fits (append s t)
unfolding append
append-Fits none t h = h
append-Fits (some s) t h = elim (Bool-cases t.disable) [
  | inl e ↦ rw e h
  | inr e ↦ rw e (
      omega
        (arith, le-resize (length t.output + length s + 1) t.output_len, length-append t.output s))
]

abbrev StillFits : Option Template → Type 0
StillFits none = Unit
StillFits (some t) = Fits t

else_at-Fits : (cs : List Conditional) (t : Template) → Fits t → StillFits (else_at cs t)
unfolding else_at
else_at-Fits [] t h = tt
else_at-Fits (c ∷ cs) t h = ground arith

case_at-Fits : (i : ℤ) (cs : List Conditional) (t : Template) → Fits t → StillFits (case_at i cs t)
unfolding case_at
case_at-Fits i [] t h = tt
case_at-Fits i (c ∷ cs) t h = ground arith

end_at-Fits : (cs : List Conditional) (t : Template) → Fits t → StillFits (end_at cs t)
unfolding end_at
end_at-Fits [] t h = tt
end_at-Fits (c ∷ cs) t h = ground arith

step-Fits : (c : Command) (t : Template) → Fits t → StillFits (step c t)
unfolding step
step-Fits (put s) t h = append-Fits s t h
step-Fits (open_if e) t h = unfold template_if in ground arith
step-Fits flip t h = else_at-Fits t.conditionals t h
step-Fits (open_switch i) t h = unfold template_switch_int in ground arith
step-Fits (when i) t h = case_at-Fits i t.conditionals t h
step-Fits close t h = end_at-Fits t.conditionals t h

-- Whatever calls are made, in whatever order, the output and its NUL stay inside the block, if they
-- did before; every call that does not fault leaves them so.
pub run-Fits :
    (cmds : List Command) (t : Template) {u : Template} → Fits t → run cmds t ≡ some u → Fits u
unfolding run
run-Fits [] t h e = ground arith
run-Fits (c ∷ cmds) t {u} h e = elim (Option-cases (step c t)) [
  | inl f ↦ cc (rw f at e)
  | inr (v, f) ↦ run-Fits cmds v (rw f at (step-Fits c t h)) (rw f at e)
]
