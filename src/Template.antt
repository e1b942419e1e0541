-- ===== src/Template.antt =====
-- lib/mp_template.c: the machine behind notification templates, and `mp_template_urlencode`. The
-- parser of lib/mp_template_yacc.y calls one function for each construct that it has read; a
-- `Command` is such a call. `none` is a fault: a read through a null `mp_template_conditionals`.
pub mod Tree
pub mod Runs
pub mod Meaning
pub mod Capacity
pub mod Urlencode
mod Tests
use monitoringplug.Base.{
  ℕ, zero, suc, ◌+◌, ◌-◌, Bool, true, false, not, ◌||◌, Option, none, some, List, [], ◌∷◌, ◌++◌,
  Bytes, length, ltb, if◌then◌else◌,
}
use monitoringplug.Base.Int.{ℤ, pos, eqb_ℤ}

-- `struct mp_template_conditional_list`, without the link; every conditional holds an `int`
pub record Conditional : Type 0 where
  pub deep : ℕ
  pub ival : ℤ

-- The globals. `mp_template_output_pos` is the length of the output.
pub record Template : Type 0 where
  pub disable : Bool
  pub output : Bytes
  pub output_len : ℕ
  pub conditionals : List Conditional

abbrev pub memblock : ℕ
memblock = 64

-- "Init out buffer"
abbrev pub start : Template
start = record { disable = false; output = []; output_len = memblock; conditionals = [] }

-- `while (mp_template_output_len < need) mp_template_output_len += memblock;`, on fuel
unfoldable pub grow : ℕ → ℕ → ℕ → ℕ
grow zero need len = len
grow (suc fuel) need len =
    let more = grow fuel need (len + memblock) in if ltb len need then more else len

-- "Resize out buffer"; `need` rounds are enough, as each adds a block
unfoldable pub resize : ℕ → ℕ → ℕ
unfolding grow
resize need len = if ltb len need then grow need need len + memblock else len

unfoldable pub append : Option Bytes → Template → Template
unfolding resize
append none t = t
append (some s) t = if t.disable then t else record t {
  output = t.output ++ s;
  output_len = resize (length t.output + length s + 1) t.output_len;
}

abbrev pub is_zero : ℤ → Bool
is_zero i = eqb_ℤ i (pos 0)

-- `mp_template_conditionals->deep += 1`
abbrev pub deepen : List Conditional → Option (List Conditional)
deepen [] = none
deepen (c ∷ cs) = some (record c { deep = c.deep + 1 } ∷ cs)

abbrev pub with_conditionals : Template → Option (List Conditional) → Option Template
with_conditionals t none = none
with_conditionals t (some cs) = some (record t { conditionals = cs })

unfoldable pub template_if : ℤ → Template → Option Template
template_if expr t =
    if t.disable
    then with_conditionals t (deepen t.conditionals)
    else some (record t {
      conditionals = record { deep = 0; ival = expr } ∷ t.conditionals;
      disable = is_zero expr;
    })

unfoldable pub template_switch_int : ℤ → Template → Option Template
template_switch_int i t =
    if t.disable
    then with_conditionals t (deepen t.conditionals)
    else some
        (record t { conditionals = record { deep = 0; ival = i } ∷ t.conditionals; disable = true })

-- `template_else`, `template_case_int` and `template_end`, on the list of conditionals
unfoldable pub else_at : List Conditional → Template → Option Template
else_at [] t = none
else_at (c ∷ cs) t = some (if ltb 0 c.deep then t else record t { disable = not (is_zero c.ival) })

unfoldable pub case_at : ℤ → List Conditional → Template → Option Template
case_at i [] t = none
case_at i (c ∷ cs) t =
    some (if ltb 0 c.deep then t else record t { disable = not (eqb_ℤ c.ival i) })

unfoldable pub end_at : List Conditional → Template → Option Template
end_at [] t = none
end_at (c ∷ cs) t = some (
    if ltb 0 c.deep
    then record t { conditionals = record c { deep = c.deep - 1 } ∷ cs }
    else record t { conditionals = cs; disable = false })

abbrev pub template_else : Template → Option Template
template_else t = else_at t.conditionals t

abbrev pub template_case_int : ℤ → Template → Option Template
template_case_int i t = case_at i t.conditionals t

abbrev pub template_end : Template → Option Template
template_end t = end_at t.conditionals t

pub data Command : Type 0 where
  put : Option Bytes → Command
  open_if : ℤ → Command
  flip : Command
  open_switch : ℤ → Command
  when : ℤ → Command
  close : Command

unfoldable pub step : Command → Template → Option Template
unfolding append template_if template_switch_int else_at case_at end_at
step (put s) t = some (append s t)
step (open_if e) t = template_if e t
step flip t = template_else t
step (open_switch i) t = template_switch_int i t
step (when i) t = template_case_int i t
step close t = template_end t

infixl 5 ◌>>=◌
abbrev pub ◌>>=◌ : Option Template → (Template → Option Template) → Option Template
none >>= f = none
some t >>= f = f t

-- The calls in order.
unfoldable pub run : List Command → Template → Option Template
run [] t = some t
run (c ∷ cs) t = step c t >>= run cs
