-- ===== src/Eopt/Items.antt =====
-- The arguments that `mp_eopt` takes from a file of sections.
use monitoringplug.Base.{
  ℕ, zero, suc, ◌+◌, ◌<◌, Bool, true, false, not, Option, none, some, List, [], ◌∷◌, ◌++◌,
  append-nil, append_assoc, ◌≡◌, ◌≢◌, refl, sym, ap, ◌∙◌, arith, Bytes, length, length-append, take,
  take-append, ltb, ◌==◌, All, if◌then◌else◌,
}
use monitoringplug.Text.{head, str_eq, strsep, is_space}
use monitoringplug.Text.Lines.{file_of, IsLine, length-file_of}
use monitoringplug.Text.Laws.{strsep-some}
use monitoringplug.Eopt.{
  rtrim, ends_bracket, without_last, Reader, option_of, arguments, is_equals, is_comment,
  handle_line, read, read_lines, read_file,
}
use monitoringplug.Eopt.Lines.{read_lines-line}

-- A line of a file: a section's name in brackets, a key with a value behind `=`, or a comment.
pub data Item : Type 0 where
  heading : Bytes → Item
  entry : Bytes → Bytes → Item
  comment : Bytes → Item

abbrev pub line_of : Item → Bytes
line_of (heading name) = b'[' ∷ (name ++ b']' ∷ [])
line_of (entry key value) = key ++ b'=' ∷ value
line_of (comment s) = b'#' ∷ s

abbrev pub lines_of : List Item → List Bytes
lines_of [] = []
lines_of (i ∷ is) = line_of i ∷ lines_of is

-- A key that makes the line neither a comment nor a section, and a line with no blanks at its end.
abbrev pub IsEntry : Bytes → Bytes → Type 0
IsEntry key value =
    (key ≢ [])
    × All (λ c. is_equals c ≡ false) key
    × (is_comment key ≡ false)
    × ((head key == b'[') ≡ false)
    × (rtrim (key ++ b'=' ∷ value) ≡ key ++ b'=' ∷ value)

abbrev pub IsRight : Item → Type 0
IsRight (heading name) = Unit
IsRight (entry key value) = IsEntry key value
IsRight (comment s) = Unit

abbrev pub IsItem : Item → Type 0
IsItem i = IsLine (line_of i) × IsRight i

-- The specification: the option, and the value if it is not empty, of each entry in the sections of the
-- name looked for.
abbrev pub entry_args : Bytes → Bytes → List Bytes
entry_args key [] = option_of key ∷ []
entry_args key (c ∷ value) = option_of key ∷ (c ∷ value) ∷ []

abbrev pub args_of : Bytes → Bool → List Item → List Bytes
args_of section current [] = []
args_of section current (heading name ∷ is) = args_of section (str_eq section name) is
args_of section current (entry key value ∷ is) =
    (if current then entry_args key value else []) ++ args_of section current is
args_of section current (comment s ∷ is) = args_of section current is

rtrim-bracket : (s : Bytes) → rtrim (s ++ b']' ∷ []) ≡ s ++ b']' ∷ []
unfolding rtrim is_space
rtrim-bracket [] = refl
rtrim-bracket (c ∷ []) = refl
rtrim-bracket (c ∷ d ∷ s) = rw (rtrim, rtrim-bracket (d ∷ s)) refl

ends_bracket-append : (s : Bytes) → ends_bracket (s ++ b']' ∷ []) ≡ true
unfolding ends_bracket
ends_bracket-append [] = refl
ends_bracket-append (c ∷ []) = refl
ends_bracket-append (c ∷ d ∷ s) = ends_bracket-append (d ∷ s)

without_last-append : (s : Bytes) (c : ℕ) → without_last (s ++ c ∷ []) ≡ s
without_last-append s c =
    ap (λ n. take n (s ++ c ∷ [])) (omega (arith, length-append s (c ∷ [])))
    ∙ take-append s (c ∷ [])

handle_heading :
    (section name : Bytes) (r : Reader)
    → handle_line section (rtrim (line_of (heading name))) r
      ≡ some (record r { current = str_eq section name })
unfolding handle_line
handle_heading section name r =
    let long : ltb (length (b'[' ∷ (name ++ b']' ∷ []))) 2 ≡ false =
      ground (arith, length-append name (b']' ∷ [])) in
    rw
      (
        rtrim-bracket (b'[' ∷ name),
        long,
        ends_bracket-append (b'[' ∷ name),
        without_last-append (b'[' ∷ name) b']',
      )
      refl

entry_arguments :
    (key value : Bytes)
    → All (λ c. is_equals c ≡ false) key
    → arguments (strsep is_equals (key ++ b'=' ∷ value)) ≡ some (entry_args key value)
unfolding arguments
entry_arguments key [] h = rw (strsep-some is_equals key b'=' [] h refl) refl
entry_arguments key (c ∷ value) h = rw (strsep-some is_equals key b'=' (c ∷ value) h refl) refl

abbrev with_args : Bytes → Bytes → Reader → Reader
with_args key value r = record r {
  new_argv = r.new_argv ++ (if r.current then entry_args key value else []);
}

-- the last branch of `handle_line`
abbrev take_args : Reader → Option (List Bytes) → Option Reader
take_args r o =
    if not r.current
    then some r
    else elim o [ none ↦ none | some args ↦ some (record r { new_argv = r.new_argv ++ args }) ]

handle_line-take_args :
    (section line : Bytes) (r : Reader)
    → ltb (length line) 2 ≡ false
    → is_comment line ≡ false
    → (head line == b'[') ≡ false
    → handle_line section line r ≡ take_args r (arguments (strsep is_equals line))
unfolding handle_line
handle_line-take_args section line r long no_comment no_section =
    rw (long, no_comment, no_section) refl

take_args-with_args :
    (key value : Bytes) (r : Reader)
    → take_args r (some (entry_args key value)) ≡ some (with_args key value r)
take_args-with_args key value r = by_flag r.current
  where
    by_flag :
        (b : Bool)
        → (if not b
            then some r
            else some (record r { new_argv = r.new_argv ++ entry_args key value }))
          ≡ some (record r { new_argv = r.new_argv ++ (if b then entry_args key value else []) })
    by_flag true = refl
    by_flag false = ap (λ a. some (record r { new_argv = a })) (sym (append-nil r.new_argv))

handle_entry :
    (section key value : Bytes) (r : Reader)
    → IsEntry key value
    → handle_line section (rtrim (line_of (entry key value))) r ≡ some (with_args key value r)
handle_entry section [] value r h = absurd (h.0 refl)
handle_entry section (c ∷ key) value r (ne, plain, no_comment, no_section, kept) =
    ap (λ l. handle_line section l r) kept
    ∙ handle_line-take_args section ((c ∷ key) ++ b'=' ∷ value) r
        (ground (arith, length-append key (b'=' ∷ value))) no_comment no_section
    ∙ ap (take_args r) (entry_arguments (c ∷ key) value plain)
    ∙ take_args-with_args (c ∷ key) value r

handle_comment :
    (section s : Bytes) (r : Reader) → handle_line section (rtrim (line_of (comment s))) r ≡ some r
unfolding handle_line rtrim is_space
handle_comment section s r = after (rtrim s)
  where
    after :
        (t : Bytes)
        → handle_line section (elim t [ [] ↦ b'#' ∷ [] | d ∷ u ↦ b'#' ∷ d ∷ u ]) r ≡ some r
    after [] = refl
    after (d ∷ u) = ground arith

handled : Bytes → Item → Reader → Reader
handled section (heading name) r = record r { current = str_eq section name }
handled section (entry key value) r = with_args key value r
handled section (comment s) r = r

handle_item :
    (section : Bytes) (i : Item) (r : Reader)
    → IsItem i
    → handle_line section (rtrim (line_of i)) r ≡ some (handled section i r)
unfolding handled
handle_item section (heading name) r h = handle_heading section name r
handle_item section (entry key value) r h = handle_entry section key value r h.1
handle_item section (comment s) r h = handle_comment section s r

handled-args :
    (section : Bytes) (i : Item) (is : List Item) (r : Reader)
    → (handled section i r).new_argv ++ args_of section (handled section i r).current is
      ≡ r.new_argv ++ args_of section r.current (i ∷ is)
unfolding handled
handled-args section (heading name) is r = refl
handled-args section (entry key value) is r =
    append_assoc r.new_argv (if r.current then entry_args key value else [])
      (args_of section r.current is)
handled-args section (comment s) is r = refl

read_lines-items :
    (fuel : ℕ) (section : Bytes) (is : List Item) (r : Reader)
    → All IsItem is
    → length is < fuel
    → (q : Reader) × (read_lines fuel section (file_of (lines_of is)) r ≡ read q)
      × (q.new_argv ≡ r.new_argv ++ args_of section r.current is)
read_lines-items zero section is r h b = absurd (omega arith)
read_lines-items (suc fuel) section [] r h b =
    (r, unfold read_lines in refl, sym (append-nil r.new_argv))
read_lines-items (suc fuel) section (i ∷ is) r (h, hs) b =
    let (q, reads, args) =
      read_lines-items fuel section is (handled section i r) hs (omega arith) in
    (
      q,
      read_lines-line fuel section (line_of i) (file_of (lines_of is)) r h.0
            (handle_item section i r h)
          ∙ reads,
      args ∙ handled-args section i is r,
    )

length-lines_of : (is : List Item) → length (lines_of is) ≡ length is
length-lines_of [] = refl
length-lines_of (i ∷ is) = ap suc (length-lines_of is)

-- A file of lines that fit the buffer, each a section's name in brackets, an entry or a comment, is read
-- to its end, and yields the arguments of the entries in the sections of the name looked for, in order.
pub read_file-items :
    (section : Bytes) (is : List Item)
    → All IsItem is
    → (q : Reader) × (read_file section (file_of (lines_of is)) ≡ read q)
      × (q.new_argv ≡ args_of section false is)
read_file-items section is h =
    read_lines-items (length (file_of (lines_of is)) + 1) section is
      (record { current = false; new_argv = [] }) h
      (omega (arith, length-file_of (lines_of is), length-lines_of is))
