-- ===== src/Template/Tests.antt =====
-- A template with a conditional and a switch, and the theorems at an input.
use monitoringplug.Base.{true, false, some, [], ◌∷◌, ◌≡◌, refl, arith, Bytes, String, codes}
use monitoringplug.Base.Int.{pos}
use monitoringplug.Template.{Template, start, put, step, run}
use monitoringplug.Template.Tree.{
  text, branch, branch_else, switch, Nodes, none_left, also, no_case, a_case, commands_of,
  render_of,
}
use monitoringplug.Template.Meaning.{run-render}
use monitoringplug.Template.Capacity.{Fits, run-Fits}
use monitoringplug.Template.Urlencode.{template_urlencode}
use monitoringplug.Template.Urlencode.Decode.{decode, decode-template_urlencode}

abbrev words : String → Nodes
words s = also (text (some (codes s))) none_left

-- `[% IF 0 %]a[% IF 1 %]b[% END %][% ELSE %]c[% SWITCH 2 %][% CASE 1 %]d[% CASE 2 %]e[% END %][% END %]f`
abbrev page : Nodes
page =
    also
      (branch_else (pos 0)
        (also (text (some (codes "a"))) (also (branch (pos 1) (words "b")) none_left))
        (also (text (some (codes "c"))) (
          also (switch (pos 2) (a_case (pos 1) (words "d") (a_case (pos 2) (words "e") no_case)))
            none_left)))
      (words "f")

page_text : render_of page ≡ codes "cef"
page_text = refl

run-render_example :
    (t : Template) × (run (commands_of page) start ≡ some t)
    × (t.output ≡ codes "cef")
    × (t.disable ≡ false)
    × (t.conditionals ≡ [])
run-render_example = run-render page

-- inside `[% IF 0 %]`
abbrev off : Template
off = record start { disable = true; conditionals = record { deep = 0; ival = pos 0 } ∷ [] }

run-Fits_example : Fits (record start { output = codes "abc" })
unfolding run step
run-Fits_example = run-Fits (put (some (codes "abc")) ∷ []) start (omega arith) refl

decode-template_urlencode_example :
    (e : Bytes) × (template_urlencode (some (codes "a b")) ≡ some e) × (decode e ≡ codes "a b")
decode-template_urlencode_example =
    decode-template_urlencode (codes "a b") (omega arith, (omega arith, (omega arith, tt)))
