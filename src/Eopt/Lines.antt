-- ===== src/Eopt/Lines.antt =====
-- The lines of a file, one by one.
use monitoringplug.Base.{
  ℕ, suc, true, not, none, some, [], ◌∷◌, ◌++◌, ◌≡◌, refl, ap, ◌∙◌, Bytes, if◌then◌else◌,
}
use monitoringplug.Text.{is_space}
use monitoringplug.Text.Lines.{IsLine, fgets_upto-line}
use monitoringplug.Eopt.{
  is_complete, rtrim, Reader, handle_line, Reading, broken, too_long, read_lines,
}

is_complete-line : (l : Bytes) → is_complete (l ++ b'\n' ∷ []) ≡ true
unfolding is_complete
is_complete-line [] = refl
is_complete-line (c ∷ []) = refl
is_complete-line (c ∷ d ∷ l) = is_complete-line (d ∷ l)

rtrim-line : (l : Bytes) → rtrim (l ++ b'\n' ∷ []) ≡ rtrim l
unfolding rtrim is_space
rtrim-line [] = refl
rtrim-line (c ∷ l) = rw (rtrim, rtrim-line l) refl

-- one round of the loop, on what `fgets` has read
abbrev round : ℕ → Bytes → Reader → Bytes × Bytes → Reading
round fuel section r (line, rest) =
    if not (is_complete line) then too_long else elim (handle_line section (rtrim line) r) [
      | none ↦ broken
      | some s ↦ read_lines fuel section rest s
    ]

round-line :
    (fuel : ℕ) (section l rest : Bytes) (r : Reader) {s : Reader}
    → handle_line section (rtrim l) r ≡ some s
    → round fuel section r (l ++ b'\n' ∷ [], rest) ≡ read_lines fuel section rest s
round-line fuel section l rest r e = rw (is_complete-line l, rtrim-line l, e) refl

pub read_lines-line :
    (fuel : ℕ) (section l rest : Bytes) (r : Reader) {s : Reader}
    → IsLine l
    → handle_line section (rtrim l) r ≡ some s
    → read_lines (suc fuel) section (l ++ b'\n' ∷ rest) r ≡ read_lines fuel section rest s
unfolding read_lines
read_lines-line fuel section [] rest r (b, h) e =
    ap (round fuel section r) (fgets_upto-line 255 [] rest b h)
    ∙ round-line fuel section [] rest r e
read_lines-line fuel section (c ∷ l) rest r (b, h) e =
    ap (round fuel section r) (fgets_upto-line 255 (c ∷ l) rest b h)
    ∙ round-line fuel section (c ∷ l) rest r e
