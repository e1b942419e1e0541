-- ===== src/Template/Tree.antt =====
-- What lib/mp_template_yacc.y can read, and the calls that its actions make. An expression stands for
-- its value: a condition is the `int` that `bexpr` yields, a text what `sexpr` yields (`none` for an
-- unset variable).
use monitoringplug.Base.{Option, none, some, List, [], ◌∷◌, ◌++◌, Bytes, if◌then◌else◌}
use monitoringplug.Base.Int.{ℤ, eqb_ℤ}
use monitoringplug.Template.{Command, put, open_if, flip, open_switch, when, close, is_zero}

mutual
  -- `block`, for `IF` and `UNLESS` with and without `ELSE`, and for `SWITCH`
  pub data Node : Type 0 where
    text : Option Bytes → Node
    branch : ℤ → Nodes → Node
    branch_else : ℤ → Nodes → Nodes → Node
    switch : ℤ → Cases → Node

  -- `blocks`
  pub data Nodes : Type 0 where
    none_left : Nodes
    also : Node → Nodes → Nodes

  -- `switch_cases`
  pub data Cases : Type 0 where
    no_case : Cases
    a_case : ℤ → Nodes → Cases → Cases

-- The calls made while a tree is read, from left to right.
unfoldable mutual
  pub commands : Node → List Command
  commands (text s) = put s ∷ []
  commands (branch e b) = open_if e ∷ (commands_of b ++ close ∷ [])
  commands (branch_else e b d) = open_if e ∷ (commands_of b ++ flip ∷ (commands_of d ++ close ∷ []))
  commands (switch i c) = open_switch i ∷ (case_commands c ++ close ∷ [])

  pub commands_of : Nodes → List Command
  commands_of none_left = []
  commands_of (also n ns) = commands n ++ commands_of ns

  pub case_commands : Cases → List Command
  case_commands no_case = []
  case_commands (a_case i b c) = when i ∷ (commands_of b ++ case_commands c)

abbrev pub text_of : Option Bytes → Bytes
text_of none = []
text_of (some s) = s

-- The specification: the text that a tree stands for. A switch yields every case of its value.
abbrev mutual
  pub render : Node → Bytes
  render (text s) = text_of s
  render (branch e b) = if is_zero e then [] else render_of b
  render (branch_else e b d) = if is_zero e then render_of d else render_of b
  render (switch i c) = render_cases i c

  pub render_of : Nodes → Bytes
  render_of none_left = []
  render_of (also n ns) = render n ++ render_of ns

  pub render_cases : ℤ → Cases → Bytes
  render_cases i no_case = []
  render_cases i (a_case j b c) = (if eqb_ℤ i j then render_of b else []) ++ render_cases i c
