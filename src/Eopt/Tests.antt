-- ===== src/Eopt/Tests.antt =====
-- A file with two sections, and the theorem at an input.
use monitoringplug.Base.{
  Option, none, some, List, [], ◌∷◌, ◌≡◌, refl, arith, Bytes, codes, if◌then◌else◌,
}
use monitoringplug.Text.{str_eq, strsep}
use monitoringplug.Eopt.{rtrim, option_of, Reader, read, read_file, eopt, merged, unchanged, fault}
use monitoringplug.Text.Lines.{file_of}
use monitoringplug.Eopt.Items.{Item, heading, entry, comment, lines_of, read_file-items}

abbrev config : Bytes
config = codes "# hosts\n[web]\nhostname=example\nv=\n[dns]\nport=53\n"

abbrev files : Bytes → Option Bytes
files name = if str_eq name (codes "my.ini") then some config else none

given :
    eopt files
      (codes "web")
      2
      (codes "check" ∷ codes "-E" ∷ codes "-t" ∷ [])
      (some (codes "@my.ini"))
    ≡ merged (
        codes "check"
        ∷ codes "-E"
        ∷ codes "--hostname"
        ∷ codes "example"
        ∷ codes "-v"
        ∷ codes "-t"
        ∷ [])
unfolding eopt str_eq
given = refl

no_file :
    eopt files (codes "web") 2 (codes "check" ∷ codes "--eopt" ∷ codes "web" ∷ []) none ≡ unchanged
unfolding eopt str_eq strsep
no_file = refl

no_value :
    eopt
      (λ name. some (codes "[web]\nverbose\n"))
      (codes "web")
      1
      (codes "check" ∷ [])
      (some (codes "web"))
    ≡ fault
unfolding eopt str_eq strsep
no_value = refl

abbrev items : List Item
items =
    comment (codes " a")
    ∷ heading (codes "web")
    ∷ entry (codes "v") (codes "2")
    ∷ heading (codes "dns")
    ∷ entry (codes "p") (codes "5")
    ∷ []

read_file-items_example :
    (q : Reader) × (read_file (codes "web") (file_of (lines_of items)) ≡ read q)
    × (q.new_argv ≡ codes "-v" ∷ codes "2" ∷ [])
unfolding rtrim option_of str_eq
read_file-items_example = read_file-items (codes "web") items (
  ((omega arith, (refl, (refl, (refl, tt)))), tt),
  (
    ((omega arith, (refl, (refl, (refl, (refl, (refl, tt)))))), tt),
    (
      ((omega arith, (refl, (refl, (refl, tt)))), (ground arith, (refl, tt), refl, refl, refl)),
      (
        ((omega arith, (refl, (refl, (refl, (refl, (refl, tt)))))), tt),
        (
          ((omega arith, (refl, (refl, (refl, tt)))), (ground arith, (refl, tt), refl, refl, refl)),
          tt,
        ),
      ),
    ),
  ),
)
