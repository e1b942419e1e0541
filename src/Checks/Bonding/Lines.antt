-- ===== src/Checks/Bonding/Lines.antt =====
-- The files of bonds: what the parser finds in a file that is written for a bond.
use monitoringplug.Base.{
  ℕ, zero, suc, ◌+◌, ◌<◌, Bool, true, false, Option, none, some, List, [], ◌∷◌, ◌++◌, append-nil,
  append_assoc, ◌≡◌, refl, sym, ap, ◌∙◌, arith, Bytes, codes, length, take-without_last, All,
  All-append,
}
use monitoringplug.Text.{str_eq}
use monitoringplug.Text.Laws.{strsep-some, strsep-none}
use monitoringplug.Text.Lines.{file_of, IsLine, fgets_upto-line, length-file_of}
use monitoringplug.Getopt.{Outcome, completed, fault}
use monitoringplug.Checks.Bonding.{
  Slave, Info, fresh, is_colon, value_of, set_last, set_mii, assign, parse_line, parse_loop,
  parse_bond,
}

-- A line of a file: a key with its value, a key with nothing behind its colon, or a line with no colon.
pub data Item : Type 0 where
  entry : Bytes → Bytes → Item
  bare : Bytes → Item
  other : Bytes → Item

abbrev pub line_of : Item → Bytes
line_of (entry key value) = key ++ b':' ∷ b' ' ∷ value
line_of (bare key) = key ++ b':' ∷ []
line_of (other s) = s

abbrev pub lines_of : List Item → List Bytes
lines_of [] = []
lines_of (i ∷ is) = line_of i ∷ lines_of is

abbrev pub HasKey : Item → Type 0
HasKey (entry key value) = All (λ c. is_colon c ≡ false) key
HasKey (bare key) = All (λ c. is_colon c ≡ false) key
HasKey (other s) = All (λ c. is_colon c ≡ false) s

abbrev pub IsItem : Item → Type 0
IsItem i = IsLine (line_of i) × HasKey i

-- The specification: the assignments of the entries in order.
abbrev pub assign_item : Item → Info → Info
assign_item (entry key value) i = assign key value i
assign_item (bare key) i = assign key [] i
assign_item (other s) i = i

abbrev pub assign_all : List Item → Info → Info
assign_all [] i = i
assign_all (x ∷ xs) i = assign_all xs (assign_item x i)

-- what `parse_line` does behind `strsep`
abbrev take_value : Info → Bytes × Option Bytes → Option Info
take_value i (key, rest) = elim rest [
  | none ↦ some i
  | some behind ↦ elim (value_of behind) [ none ↦ none | some value ↦ some (assign key value i) ]
]

parse_line-item :
    (x : Item) (i : Info)
    → HasKey x
    → parse_line (line_of x ++ b'\n' ∷ []) i ≡ some (assign_item x i)
unfolding parse_line value_of
parse_line-item (entry key value) i h =
    ap (λ l. parse_line l i) (append_assoc key (b':' ∷ b' ' ∷ value) (b'\n' ∷ []))
    ∙ ap (take_value i) (strsep-some is_colon key b':' (b' ' ∷ (value ++ b'\n' ∷ [])) h refl)
    ∙ ap (λ v. some (assign key v i)) (take-without_last value b'\n')
parse_line-item (bare key) i h =
    ap (λ l. parse_line l i) (append_assoc key (b':' ∷ []) (b'\n' ∷ []))
    ∙ ap (take_value i) (strsep-some is_colon key b':' (b'\n' ∷ []) h refl)
parse_line-item (other s) i h = ap (take_value i) (
    strsep-none is_colon (s ++ b'\n' ∷ [])
      (All-append (λ c. is_colon c ≡ false) s (b'\n' ∷ []) h (refl, tt)))

abbrev round : ℕ → Info → Bytes × Bytes → Option Info
round fuel i (line, rest) = elim (parse_line line i) [
  | none ↦ none
  | some j ↦ parse_loop fuel rest j
]

parse_loop-line :
    (fuel : ℕ) (l rest : Bytes) (i : Info)
    → IsLine l
    → parse_loop (suc fuel) (l ++ b'\n' ∷ rest) i ≡ round fuel i (l ++ b'\n' ∷ [], rest)
unfolding parse_loop
parse_loop-line fuel [] rest i (b, h) = ap (round fuel i) (fgets_upto-line 255 [] rest b h)
parse_loop-line fuel (c ∷ l) rest i (b, h) =
    ap (round fuel i) (fgets_upto-line 255 (c ∷ l) rest b h)

parse_loop-items :
    (fuel : ℕ) (xs : List Item) (i : Info)
    → All IsItem xs
    → length xs < fuel
    → parse_loop fuel (file_of (lines_of xs)) i ≡ some (assign_all xs i)
parse_loop-items zero xs i h b = absurd (omega arith)
parse_loop-items (suc fuel) [] i h b = unfold parse_loop in refl
parse_loop-items (suc fuel) (x ∷ xs) i ((line, key), hs) b =
    parse_loop-line fuel (line_of x) (file_of (lines_of xs)) i line
    ∙ rw (round, parse_line-item x i key)
        (parse_loop-items fuel xs (assign_item x i) hs (omega arith))

length-lines_of : (xs : List Item) → length (lines_of xs) ≡ length xs
length-lines_of [] = refl
length-lines_of (x ∷ xs) = ap suc (length-lines_of xs)

abbrev to_outcome : Option Info → Outcome (Option Info)
to_outcome o = elim o [ none ↦ fault | some info ↦ completed (some info) ]

-- A file of lines that fit the buffer is read to its end, and yields the assignments of its entries.
parse_bond-items :
    (xs : List Item)
    → All IsItem xs
    → parse_bond (some (file_of (lines_of xs))) ≡ completed (some (assign_all xs fresh))
unfolding parse_bond
parse_bond-items xs h = ap to_outcome (
    parse_loop-items (length (file_of (lines_of xs)) + 1) xs fresh h
      (omega (arith, length-file_of (lines_of xs), length-lines_of xs)))

-- A bond: the driver's version, the mode, the status, the slaves, each with its status, and the other lines
-- that stand behind each of these.
pub record Section : Type 0 where
  pub interface : Bytes
  pub up : Bool
  pub more : List Item

pub record Bond : Type 0 where
  pub version : Bytes
  pub behind_version : List Item
  pub mode : Bytes
  pub behind_mode : List Item
  pub up : Bool
  pub more : List Item
  pub sections : List Section

abbrev pub status_text : Bool → Bytes
status_text true = codes "up"
status_text false = codes "down"

abbrev pub section_items : List Section → List Item
section_items [] = []
section_items (s ∷ ss) =
    entry (codes "Slave Interface") s.interface
    ∷ entry (codes "MII Status") (status_text s.up)
    ∷ (s.more ++ section_items ss)

abbrev pub bond_items : Bond → List Item
bond_items b =
    entry (codes "Ethernet Channel Bonding Driver") b.version
    ∷ (b.behind_version
        ++ entry (codes "Bonding Mode") b.mode
          ∷ (b.behind_mode
              ++ entry (codes "MII Status") (status_text b.up)
                ∷ (b.more ++ section_items b.sections)))

-- Not one of the four keys.
abbrev pub IsNoise : Item → Type 0
IsNoise (entry key value) =
    (str_eq key (codes "Ethernet Channel Bonding Driver") ≡ false)
    × (str_eq key (codes "Bonding Mode") ≡ false)
    × (str_eq key (codes "MII Status") ≡ false)
    × (str_eq key (codes "Slave Interface") ≡ false)
IsNoise (bare key) =
    (str_eq key (codes "Ethernet Channel Bonding Driver") ≡ false)
    × (str_eq key (codes "Bonding Mode") ≡ false)
    × (str_eq key (codes "MII Status") ≡ false)
    × (str_eq key (codes "Slave Interface") ≡ false)
IsNoise (other s) = Unit

abbrev pub slave_of : Section → Slave
slave_of s = record { interface = s.interface; mii_status = some s.up }

abbrev pub slaves_of : List Section → List Slave
slaves_of [] = []
slaves_of (s ∷ ss) = slave_of s ∷ slaves_of ss

abbrev pub info_of : Bond → Info
info_of b = record {
  version = some b.version;
  mode = some b.mode;
  mii_status = some b.up;
  slave = slaves_of b.sections;
}

assign_all-append :
    (xs ys : List Item) (i : Info) → assign_all (xs ++ ys) i ≡ assign_all ys (assign_all xs i)
assign_all-append [] ys i = refl
assign_all-append (x ∷ xs) ys i = assign_all-append xs ys (assign_item x i)

assign-noise : (x : Item) (i : Info) → IsNoise x → assign_item x i ≡ i
unfolding assign
assign-noise (entry key value) i (a, b, c, d) = rw (a, b, c, d) refl
assign-noise (bare key) i (a, b, c, d) = rw (a, b, c, d) refl
assign-noise (other s) i h = refl

assign_all-noise : (xs : List Item) (i : Info) → All IsNoise xs → assign_all xs i ≡ i
assign_all-noise [] i h = refl
assign_all-noise (x ∷ xs) i (h, hs) =
    ap (assign_all xs) (assign-noise x i h) ∙ assign_all-noise xs i hs

set_last-append :
    (up : Bool) (ss : List Slave) (s : Slave)
    → set_last up (ss ++ s ∷ []) ≡ ss ++ record s { mii_status = some up } ∷ []
unfolding set_last
set_last-append up [] s = refl
set_last-append up (t ∷ []) s = refl
set_last-append up (t ∷ u ∷ ss) s = ap (◌∷◌ t) (set_last-append up (u ∷ ss) s)

set_mii-append :
    (up : Bool) (i : Info) (ss : List Slave) (s : Slave)
    → set_mii up (record i { slave = ss ++ s ∷ [] })
      ≡ record i { slave = ss ++ record s { mii_status = some up } ∷ [] }
unfolding set_mii
set_mii-append up i [] s = ap (λ l. record i { slave = l }) (set_last-append up [] s)
set_mii-append up i (t ∷ ss) s = ap (λ l. record i { slave = l }) (set_last-append up (t ∷ ss) s)

str_eq-status_text : (up : Bool) → str_eq (status_text up) (codes "up") ≡ up
unfolding str_eq
str_eq-status_text true = refl
str_eq-status_text false = refl

assign-mii : (up : Bool) (i : Info) → assign (codes "MII Status") (status_text up) i ≡ set_mii up i
unfolding assign str_eq
assign-mii up i = ap (λ b. set_mii b i) (str_eq-status_text up)

assign-slave :
    (interface : Bytes) (i : Info)
    → assign (codes "Slave Interface") interface i
      ≡ record i { slave = i.slave ++ record { interface = interface; mii_status = none } ∷ [] }
unfolding assign str_eq
assign-slave interface i = refl

assign-section :
    (s : Section) (i : Info)
    → assign
        (codes "MII Status")
        (status_text s.up)
        (assign (codes "Slave Interface") s.interface i)
      ≡ record i { slave = i.slave ++ slave_of s ∷ [] }
assign-section s i =
    assign-mii s.up (assign (codes "Slave Interface") s.interface i)
    ∙ ap (set_mii s.up) (assign-slave s.interface i)
    ∙ set_mii-append s.up i i.slave (record { interface = s.interface; mii_status = none })

assign_all-sections :
    (ss : List Section) (i : Info)
    → All (λ s. All IsNoise s.more) ss
    → assign_all (section_items ss) i ≡ record i { slave = i.slave ++ slaves_of ss }
assign_all-sections [] i h = ap (λ l. record i { slave = l }) (sym (append-nil i.slave))
assign_all-sections (s ∷ ss) i (h, hs) =
    let added = record i { slave = i.slave ++ slave_of s ∷ [] } in
    ap (λ j. assign_all (s.more ++ section_items ss) j) (assign-section s i)
    ∙ assign_all-append s.more (section_items ss) added
    ∙ ap (assign_all (section_items ss)) (assign_all-noise s.more added h)
    ∙ assign_all-sections ss added hs
    ∙ ap (λ l. record i { slave = l }) (append_assoc i.slave (slave_of s ∷ []) (slaves_of ss))

abbrev header : Bond → Info
header b = record {
  version = some b.version;
  mode = some b.mode;
  mii_status = some b.up;
  slave = [];
}

-- Lines of no meaning in front of others.
skip-noise :
    (xs ys : List Item) (i : Info) → All IsNoise xs → assign_all (xs ++ ys) i ≡ assign_all ys i
skip-noise xs ys i h = assign_all-append xs ys i ∙ ap (assign_all ys) (assign_all-noise xs i h)

abbrev versioned : Bond → Info
versioned b = assign (codes "Ethernet Channel Bonding Driver") b.version fresh

abbrev with_mode : Bond → Info
with_mode b = assign (codes "Bonding Mode") b.mode (versioned b)

set_mii-header : (b : Bond) → set_mii b.up (with_mode b) ≡ header b
unfolding assign str_eq set_mii
set_mii-header b = refl

-- The other lines say nothing of the bond: none has one of the four keys.
pub record IsQuiet (b : Bond) : Type 0 where
  pub behind_version : All IsNoise b.behind_version
  pub behind_mode : All IsNoise b.behind_mode
  pub more : All IsNoise b.more
  pub sections : All (λ s. All IsNoise s.more) b.sections

assign-header :
    (b : Bond)
    → IsQuiet b
    → assign_all (bond_items b) fresh ≡ assign_all (section_items b.sections) (header b)
assign-header b q =
    let rest = b.more ++ section_items b.sections in
    let status = entry (codes "MII Status") (status_text b.up) ∷ rest in
    skip-noise b.behind_version (entry (codes "Bonding Mode") b.mode ∷ (b.behind_mode ++ status))
      (versioned b) q.behind_version
    ∙ skip-noise b.behind_mode status (with_mode b) q.behind_mode
    ∙ ap (assign_all rest) (assign-mii b.up (with_mode b) ∙ set_mii-header b)
    ∙ skip-noise b.more (section_items b.sections) (header b) q.more

-- What `parseBond` finds in a file written for a bond is that bond: the version, the mode, its status and
-- the slaves in order, each with its own status. The file has the driver's version, the mode and the status
-- in this order, and then each slave with its status in the next line; behind each of these may stand any
-- lines that have none of the four keys. The lines fit the buffer.
pub parse_bond-written :
    (b : Bond)
    → All IsItem (bond_items b)
    → IsQuiet b
    → parse_bond (some (file_of (lines_of (bond_items b)))) ≡ completed (some (info_of b))
parse_bond-written b h q =
    parse_bond-items (bond_items b) h
    ∙ ap (λ i. completed (some i))
        (assign-header b q ∙ assign_all-sections b.sections (header b) q.sections)
