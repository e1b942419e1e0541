-- ===== src/Checks/Sockets/Table.antt =====
-- The tables of sockets: the count of the lines with a port.
use monitoringplug.Base.{
  ℕ, zero, suc, ◌+◌, ◌*◌, ◌/◌, ◌%◌, ◌^◌, ◌<◌, Bool, true, false, Option, none, some, List, [], ◌∷◌,
  ◌++◌, append_assoc, ◌≡◌, refl, ap, ◌∙◌, arith, Bytes, length, ◌==◌, All, if◌then◌else◌,
}
use monitoringplug.Base.Int.{ℤ, pos, ltb_ℤ, eqb_ℤ}
use monitoringplug.Text.{
  strsep, is_space, hex_digit, hex_byte, hex_value, hex_digits_value, without_prefix, strtol_16,
  strtol_16_signed, clamp_long,
}
use monitoringplug.Text.Laws.{strsep-some}
use monitoringplug.Text.Lines.{file_of, IsLine, fgets_upto-line, length-file_of}
use monitoringplug.Output.{Plugin}
use monitoringplug.Getopt.{Outcome, completed}
use monitoringplug.Checks.Sockets.{
  is_colon, is_blank, port_field, counts_line, count_loop, determined, count_lines,
}

-- `%04X` of a port
abbrev pub print_port : ℕ → Bytes
print_port port = hex_byte (port / 256) ++ hex_byte (port % 256)

-- A row: number and address, port, and the rest.
pub record Row : Type 0 where
  pub number : Bytes
  pub address : Bytes
  pub port : ℕ
  pub more : Bytes

abbrev pub print_row : Row → Bytes
print_row r = r.number ++ b':' ∷ (r.address ++ b':' ∷ (print_port r.port ++ b' ' ∷ r.more))

abbrev pub print_rows : List Row → List Bytes
print_rows [] = []
print_rows (r ∷ rs) = print_row r ∷ print_rows rs

abbrev pub IsRow : Row → Type 0
IsRow r =
    IsLine (print_row r)
    × All (λ c. is_colon c ≡ false) r.number
    × All (λ c. is_colon c ≡ false) r.address
    × (r.port < 65536)

-- The specification: the rows with the port.
abbrev pub with_port : ℕ → List Row → ℕ
with_port port [] = 0
with_port port (r ∷ rs) = (if port == r.port then 1 else 0) + with_port port rs

-- a hexadecimal digit is no blank, sign or prefix
hex_digit-value : (d : ℕ) → d < 16 → hex_value (hex_digit d) ≡ some d
unfolding hex_value hex_digit
hex_digit-value d h = ground arith

abbrev IsPlain : ℕ → Type 0
IsPlain c =
    (is_space c ≡ false)
    × ((c == b'-') ≡ false)
    × ((c == b'+') ≡ false)
    × ((c == b'x') ≡ false)
    × ((c == b'X') ≡ false)
    × (is_blank c ≡ false)

hex_digit-IsPlain : (d : ℕ) → d < 16 → IsPlain (hex_digit d)
unfolding hex_digit is_space
hex_digit-IsPlain d h = ground arith

strtol_16-plain :
    (c : ℕ) (s : Bytes)
    → IsPlain c
    → strtol_16 (c ∷ s) ≡ (clamp_long false (hex_digits_value 0 (without_prefix (c ∷ s)))).0
unfolding strtol_16 strtol_16_signed
strtol_16-plain c s (space, minus, plus, x, X, blank) = rw (space, minus, plus) refl

without_prefix-plain :
    (a b c : ℕ) (s : Bytes) → IsPlain b → without_prefix (a ∷ b ∷ c ∷ s) ≡ a ∷ b ∷ c ∷ s
unfolding without_prefix
without_prefix-plain a b c s (space, minus, plus, x, X, blank) = ground arith

hex_digits_value-digit :
    (n d : ℕ) (s : Bytes)
    → d < 16
    → hex_digits_value n (hex_digit d ∷ s) ≡ hex_digits_value (n * 16 + d) s
unfolding hex_digits_value
hex_digits_value-digit n d s h =
    ap (λ v. elim v [ none ↦ n | some e ↦ hex_digits_value (n * 16 + e) s ]) (hex_digit-value d h)

clamp_long-small : (n : ℕ) → n < 2 ^ 63 → (clamp_long false n).0 ≡ pos n
unfolding clamp_long
clamp_long-small n h = ground arith

four_digits :
    (a b c d : ℕ)
    → a < 16
    → b < 16
    → c < 16
    → d < 16
    → strtol_16 (hex_digit a ∷ hex_digit b ∷ hex_digit c ∷ hex_digit d ∷ [])
      ≡ pos (((a * 16 + b) * 16 + c) * 16 + d)
four_digits a b c d ha hb hc hd =
    let tail = hex_digit c ∷ hex_digit d ∷ [] in
    let value : ℕ = ((a * 16 + b) * 16 + c) * 16 + d in
    let read : hex_digits_value 0 (hex_digit a ∷ hex_digit b ∷ tail) ≡ value =
      hex_digits_value-digit 0 a (hex_digit b ∷ tail) ha
      ∙ hex_digits_value-digit (0 * 16 + a) b tail hb
      ∙ hex_digits_value-digit ((0 * 16 + a) * 16 + b) c (hex_digit d ∷ []) hc
      ∙ hex_digits_value-digit (((0 * 16 + a) * 16 + b) * 16 + c) d [] hd
      ∙ unfold hex_digits_value in omega arith in
    strtol_16-plain (hex_digit a) (hex_digit b ∷ tail) (hex_digit-IsPlain a ha)
    ∙ ap (λ s. (clamp_long false (hex_digits_value 0 s)).0)
        (without_prefix-plain (hex_digit a) (hex_digit b) (hex_digit c) (hex_digit d ∷ [])
          (hex_digit-IsPlain b hb))
    ∙ ap (λ n. (clamp_long false n).0) read
    ∙ clamp_long-small value (omega arith)

strtol_16-print_port : (n : ℕ) → n < 65536 → strtol_16 (print_port n) ≡ pos n
unfolding hex_byte
strtol_16-print_port n h =
    four_digits (n / 256 / 16) (n / 256 % 16) (n % 256 / 16) (n % 256 % 16) (omega arith)
      (omega arith) (omega arith) (omega arith)
    ∙ ap pos {y = n} (omega arith)

print_port-plain : (n : ℕ) → n < 65536 → All (λ c. is_blank c ≡ false) (print_port n)
unfolding hex_byte
print_port-plain n h =
    let blank = λ (d : ℕ) (b : d < 16). (hex_digit-IsPlain d b).5 in
    (
      blank (n / 256 / 16) (omega arith),
      (
        blank (n / 256 % 16) (omega arith),
        (blank (n % 256 / 16) (omega arith), (blank (n % 256 % 16) (omega arith), tt)),
      ),
    )

-- `port_field` behind the first and the second call of `strsep`
abbrev third_of : Bytes × Option Bytes → Option Bytes
third_of (token, rest) = elim rest [ none ↦ none | some third ↦ some (strsep is_blank third).0 ]

abbrev second_of : Bytes × Option Bytes → Option Bytes
second_of (token, rest) = elim rest [
  | none ↦ none
  | some second ↦ third_of (strsep is_colon second)
]

-- the fields of a row with its newline
port_field-row :
    (r : Row) → IsRow r → port_field (print_row r ++ b'\n' ∷ []) ≡ some (print_port r.port)
unfolding port_field
port_field-row r (line, number, address, small) =
    let behind = print_port r.port ++ b' ' ∷ (r.more ++ b'\n' ∷ []) in
    let spread : print_row r ++ b'\n' ∷ [] ≡ r.number ++ b':' ∷ (r.address ++ b':' ∷ behind) =
      simp append_assoc in
    ap (λ l. second_of (strsep is_colon l)) spread
    ∙ ap second_of (strsep-some is_colon r.number b':' (r.address ++ b':' ∷ behind) number refl)
    ∙ ap third_of (strsep-some is_colon r.address b':' behind address refl)
    ∙ ap (λ q. some q.0)
        (strsep-some is_blank (print_port r.port) b' ' (r.more ++ b'\n' ∷ [])
          (print_port-plain r.port small) refl)

abbrev read_port : ℕ → Option Bytes → Option Bool
read_port port o = elim o [ none ↦ none | some c ↦ some (eqb_ℤ (pos port) (strtol_16 c)) ]

counts_line-row :
    (port : ℕ) (r : Row)
    → 0 < port
    → IsRow r
    → counts_line (pos port) (print_row r ++ b'\n' ∷ []) ≡ some (port == r.port)
unfolding counts_line
counts_line-row port r h row =
    let positive : ltb_ℤ (pos 0) (pos port) ≡ true = ground arith in
    let same : eqb_ℤ (pos port) (pos r.port) ≡ (port == r.port) = ground arith in
    ap (λ b. if b then read_port port (port_field (print_row r ++ b'\n' ∷ [])) else some true)
      positive
    ∙ ap (read_port port) (port_field-row r row)
    ∙ ap (λ n. some (eqb_ℤ (pos port) n)) (strtol_16-print_port r.port row.3)
    ∙ ap some same

abbrev round : ℕ → ℤ → ℕ → Bytes × Bytes → Option ℕ
round fuel port count (line, rest) = elim (counts_line port line) [
  | none ↦ none
  | some counted ↦ count_loop fuel port rest (if counted then count + 1 else count)
]

count_loop-line :
    (fuel : ℕ) (port : ℤ) (l rest : Bytes) (count : ℕ)
    → IsLine l
    → count_loop (suc fuel) port (l ++ b'\n' ∷ rest) count
      ≡ round fuel port count (l ++ b'\n' ∷ [], rest)
unfolding count_loop
count_loop-line fuel port [] rest count (b, h) =
    ap (round fuel port count) (fgets_upto-line 255 [] rest b h)
count_loop-line fuel port (c ∷ l) rest count (b, h) =
    ap (round fuel port count) (fgets_upto-line 255 (c ∷ l) rest b h)

count_loop-rows :
    (fuel port : ℕ) (rs : List Row) (count : ℕ)
    → 0 < port
    → All IsRow rs
    → length rs < fuel
    → count_loop fuel (pos port) (file_of (print_rows rs)) count ≡ some (count + with_port port rs)
count_loop-rows zero port rs count h k b = absurd (omega arith)
count_loop-rows (suc fuel) port [] count h k b = unfold count_loop in ap some (omega arith)
count_loop-rows (suc fuel) port (r ∷ rs) count h (row, rows) b =
    count_loop-line fuel (pos port) (print_row r) (file_of (print_rows rs)) count row.0
    ∙ rw (round, counts_line-row port r h row)
        (count_loop-rows fuel port rs (if port == r.port then count + 1 else count) h rows
            (omega arith)
          ∙ ap some (ground arith))

length-print_rows : (rs : List Row) → length (print_rows rs) ≡ length rs
length-print_rows [] = refl
length-print_rows (r ∷ rs) = ap suc (length-print_rows rs)

-- `count_lines` behind the first line
abbrev count_behind : ℕ → Bytes × Bytes → Outcome ℕ
count_behind port (line, rest) = determined (count_loop (length rest + 1) (pos port) rest 0)

count_loop-table :
    (port : ℕ) (rs : List Row)
    → 0 < port
    → All IsRow rs
    → count_loop (length (file_of (print_rows rs)) + 1) (pos port) (file_of (print_rows rs)) 0
      ≡ some (with_port port rs)
count_loop-table port rs h rows =
    count_loop-rows (length (file_of (print_rows rs)) + 1) port rs 0 h rows
      (omega (arith, length-file_of (print_rows rs), length-print_rows rs))
    ∙ ap some (omega arith)

-- Of a table with a heading line and rows that fit the buffer, `countSocket` counts, for a port above 0,
-- the rows that print this port behind the second colon.
pub count_lines-rows :
    (p : Plugin) (filename heading : Bytes) (port : ℕ) (rs : List Row)
    → 0 < port
    → IsLine heading
    → All IsRow rs
    → count_lines p filename (pos port) (file_of (heading ∷ print_rows rs))
      ≡ completed (with_port port rs)
unfolding count_lines
count_lines-rows p filename [] port rs h line rows =
    ap (count_behind port) (fgets_upto-line 255 [] (file_of (print_rows rs)) line.0 line.1)
    ∙ ap determined (count_loop-table port rs h rows)
count_lines-rows p filename (c ∷ l) port rs h line rows =
    ap (count_behind port) (fgets_upto-line 255 (c ∷ l) (file_of (print_rows rs)) line.0 line.1)
    ∙ ap determined (count_loop-table port rs h rows)
