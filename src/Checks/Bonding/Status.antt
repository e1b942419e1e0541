-- ===== src/Checks/Bonding/Status.antt =====
-- The exit status of the bonding check.
use monitoringplug.Base.{
  ℕ, zero, suc, max, ◌^◌, ◌≤◌, ◌<◌, Bool, true, false, Option, none, some, List, [], ◌∷◌, ◌++◌, ◌≡◌,
  refl, sym, ap, append-nil, take-append, ◌∙◌, arith, Bytes, codes, length, take, if◌then◌else◌,
}
use monitoringplug.Utils.{strcat_comma, strcat_with}
use monitoringplug.Utils.Concat.{behind, joined, each, strcat-joined}
use monitoringplug.Output.{Plugin, Exit, ok, warning, critical}
use monitoringplug.Getopt.{Outcome, completed, ◌>>=◌}
use monitoringplug.Checks.Bonding.{
  Slave, Info, printed, by_status, slaves, snprintf_64, report_up, report_info, determined, report,
  check_bonds, parse_bond, leave, check, bonding_dir_of,
}

-- What there is to know of a bond: its file is missing, it is down with a mode, or up with slaves.
pub data View : Type 0 where
  missing : View
  is_down : Bytes → View
  is_up : Bytes × Bool → List (Bytes × Bool) → View

abbrev pub slave_of : Bytes × Bool → Slave
slave_of (interface, up) = record { interface = interface; mii_status = some up }

abbrev pub slaves_of : List (Bytes × Bool) → List Slave
slaves_of [] = []
slaves_of (s ∷ ss) = slave_of s ∷ slaves_of ss

-- The file that `parseBond` has read shows this, and nothing that is looked at is indeterminate.
abbrev pub Shows : Option Info → View → Type 0
Shows none missing = Unit
Shows (some i) (is_down mode) = (i.mii_status ≡ some false) × (i.mode ≡ some mode)
Shows (some i) (is_up s ss) =
    (i.mii_status ≡ some true) × (i.slave ≡ slaves_of (s ∷ ss)) × (length (s ∷ ss) < 2 ^ 16)
Shows _ _ = ⊥

-- The specification: 2 for a bond that is missing or down, 1 for one with a slave that is down.
abbrev pub any_down : List (Bytes × Bool) → Bool
any_down [] = false
any_down ((interface, up) ∷ ss) = if up then any_down ss else true

abbrev pub level : View → ℕ
level missing = 2
level (is_down mode) = 2
level (is_up s ss) = if any_down (s ∷ ss) then 1 else 0

-- the interfaces that are up, or down
abbrev pub named : Bool → List (Bytes × Bool) → List (Option Bytes)
named which [] = []
named true ((interface, up) ∷ ss) = (if up then some interface else none) ∷ named true ss
named false ((interface, up) ∷ ss) = (if up then none else some interface) ∷ named false ss

abbrev pub names : Bool → List (Bytes × Bool) → Option Bytes
names which ss = joined (codes ", ") (named which ss)

abbrev pub up_text : Option Bytes → Option Bytes → Bytes
up_text up none = codes " up (" ++ (printed up ++ codes ")")
up_text up (some down) = codes " up (" ++ (printed up ++ (codes ", down: " ++ (down ++ codes ")")))

abbrev pub text_of : Bytes → View → Bytes
text_of bond missing = bond ++ codes " not found"
text_of bond (is_down mode) = bond ++ (codes " down (" ++ (mode ++ codes ")"))
text_of bond (is_up s ss) = bond ++ up_text (names true (s ∷ ss)) (names false (s ∷ ss))

by_status-each :
    (ss : List (Bytes × Bool)) (up down : Option Bytes)
    → by_status (slaves_of ss) (up, down)
      ≡ completed (each strcat_comma up (named true ss), each strcat_comma down (named false ss))
unfolding by_status strcat_comma strcat_with
by_status-each [] up down = refl
by_status-each ((interface, true) ∷ ss) up down =
    by_status-each ss (strcat_comma up (some interface)) down
by_status-each ((interface, false) ∷ ss) up down =
    by_status-each ss up (strcat_comma down (some interface))

strcat_comma-names :
    (which : Bool) (ss : List (Bytes × Bool))
    → each strcat_comma none (named which ss) ≡ names which ss
strcat_comma-names which ss = let (a, b, c) = strcat-joined (named which ss) in c

by_status-names :
    (ss : List (Bytes × Bool))
    → by_status (slaves_of ss) (none, none) ≡ completed (names true ss, names false ss)
by_status-names ss =
    by_status-each ss none none ∙ rw (strcat_comma-names true ss, strcat_comma-names false ss) refl

snprintf_64-fits : (p : Plugin) (t : Bytes) → length t < 64 → snprintf_64 p t ≡ completed t
unfolding snprintf_64
snprintf_64-fits p t h = ground arith

-- The status after a bond of a level, if it is a status of the loop.
abbrev pub IsStatus : ℕ → Type 0
IsStatus status = status ≤ 2

report_up-level :
    (p : Plugin) (bond : Bytes) (status : ℕ) (up down : Option Bytes)
    → IsStatus status
    → length (bond ++ up_text up down) < 64
    → report_up p bond (up, down) status
      ≡ completed (bond ++ up_text up down, max status (elim down [ none ↦ 0 | some d ↦ 1 ]))
unfolding report_up
report_up-level p bond status up none k h =
    rw (snprintf_64-fits p _ h) (ap (λ n. completed (bond ++ up_text up none, n)) (omega arith))
report_up-level p bond status up (some d) k h =
    rw (snprintf_64-fits p _ h)
      (ap (λ n. completed (bond ++ up_text up (some d), n)) (ground arith))

length-slaves_of : (ss : List (Bytes × Bool)) → length (slaves_of ss) ≡ length ss
length-slaves_of [] = refl
length-slaves_of (s ∷ ss) = ap suc (length-slaves_of ss)

take-all {ℓ} : {A : Type ℓ} (xs : List A) → take (length xs) xs ≡ xs
take-all xs = ap (take (length xs)) (sym (append-nil xs)) ∙ take-append xs []

slaves-slaves_of :
    (s : Bytes × Bool) (ss : List (Bytes × Bool))
    → length (s ∷ ss) < 2 ^ 16
    → slaves (slaves_of (s ∷ ss)) ≡ completed (slaves_of (s ∷ ss))
unfolding slaves
slaves-slaves_of s ss h =
    ap (λ n. completed (take n (slaves_of (s ∷ ss)))) {y = length (slaves_of (s ∷ ss))}
      (omega (arith, length-slaves_of ss))
    ∙ ap completed (take-all (slaves_of (s ∷ ss)))

level_names :
    (ss : List (Bytes × Bool))
    → ◌≡◌ {A = ℕ} (elim (names false ss) [ none ↦ 0 | some d ↦ 1 ]) (if any_down ss then 1 else 0)
level_names [] = refl
level_names ((interface, true) ∷ ss) = level_names ss
level_names ((interface, false) ∷ ss) = refl

max-IsStatus : (status : ℕ) (v : View) → IsStatus status → IsStatus (max status (level v))
max-IsStatus status missing k = omega arith
max-IsStatus status (is_down mode) k = omega arith
max-IsStatus status (is_up s ss) k = ground arith

abbrev report_slaves : Plugin → Bytes → ℕ → List Slave → Outcome (Bytes × ℕ)
report_slaves p bond status ss =
    by_status ss (none, none) >>= (λ both. report_up p bond both status)

report-level :
    (p : Plugin) (bond : Bytes) (info : Option Info) (v : View) (status : ℕ)
    → Shows info v
    → IsStatus status
    → length (text_of bond v) < 64
    → report p bond info status ≡ completed (text_of bond v, max status (level v))
unfolding report report_info
report-level p bond none missing status s k h =
    let two : ◌≡◌ {A = ℕ} 2 (max status 2) = omega arith in
    rw (snprintf_64-fits p _ h) (ap (λ n. completed (text_of bond missing, n)) two)
report-level p bond (some i) missing status s k h = absurd s
report-level p bond none (is_down mode) status s k h = absurd s
report-level p bond none (is_up t ts) status s k h = absurd s
report-level p bond (some i) (is_down mode) status (mii, known) k h =
    let two : ◌≡◌ {A = ℕ} 2 (max status 2) = omega arith in
    rw (mii, known, snprintf_64-fits p _ h)
      (ap (λ n. completed (text_of bond (is_down mode), n)) two)
report-level p bond (some i) (is_up t ts) status (mii, is, few) k h =
    ap (λ m. determined m >>= (λ up. report_info p bond i up status)) mii
    ∙ ap (λ l. slaves l >>= report_slaves p bond status) is
    ∙ ap (λ o. o >>= report_slaves p bond status) (slaves-slaves_of t ts few)
    ∙ ap (λ o. o >>= (λ both. report_up p bond both status)) (by_status-names (t ∷ ts))
    ∙ report_up-level p bond status (names true (t ∷ ts)) (names false (t ∷ ts)) k h
    ∙ ap (λ n. completed (text_of bond (is_up t ts), max status n)) (level_names (t ∷ ts))

-- The specification of the whole: the worst level, at least `base`.
abbrev pub worst : ℕ → List View → ℕ
worst base [] = base
worst base (v ∷ vs) = worst (max base (level v)) vs

-- Bonds, each with what its file shows, and a text that fits the buffer.
abbrev pub Seen : (Bytes → Option Bytes) → Bytes → List (Bytes × View) → Type 0
Seen fopen dir [] = Unit
Seen fopen dir ((bond, v) ∷ bs) =
    ((info : Option Info) × (parse_bond (fopen (dir ++ b'/' ∷ bond)) ≡ completed info)
      × Shows info v)
    × (length (text_of bond v) < 64)
    × Seen fopen dir bs

abbrev pub bonds_of : List (Bytes × View) → List Bytes
bonds_of [] = []
bonds_of ((bond, v) ∷ bs) = bond ∷ bonds_of bs

abbrev pub views_of : List (Bytes × View) → List View
views_of [] = []
views_of ((bond, v) ∷ bs) = v ∷ views_of bs

abbrev pub texts_of : List (Bytes × View) → List (Option Bytes)
texts_of [] = []
texts_of ((bond, v) ∷ bs) = some (text_of bond v) ∷ texts_of bs

module _ (fopen : Bytes → Option Bytes) (vprintf : Bytes → Bytes) (p : Plugin) (dir : Bytes) where
  check_bonds-worst :
      (bs : List (Bytes × View)) (output : Option Bytes) (status : ℕ)
      → Seen fopen dir bs
      → IsStatus status
      → check_bonds fopen vprintf p dir (bonds_of bs) output status
        ≡ completed (each strcat_comma output (texts_of bs), worst status (views_of bs))
  unfolding check_bonds
  check_bonds-worst [] output status h k = refl
  check_bonds-worst ((bond, v) ∷ bs) output status ((info, parsed, shows), fits, hs) k =
      rw (parsed, report-level p bond info v status shows k fits)
        (check_bonds-worst bs (strcat_comma output (some (text_of bond v))) (max status (level v))
          hs (max-IsStatus status v k))

  leave-status :
      (output : Bytes) (status : ℕ)
      → IsStatus status
      → (e : Exit) × (leave fopen vprintf p (some output, status) ≡ completed e)
        × (e.status ≡ status)
  unfolding leave
  leave-status output zero k = (ok (vprintf output) p, refl, unfold ok in refl)
  leave-status output (suc zero) k = (warning (vprintf output) p, refl, unfold warning in refl)
  leave-status output (suc (suc zero)) k =
      (critical (vprintf output) p, refl, unfold critical in refl)
  leave-status output (suc (suc (suc n))) k = absurd (omega arith)

  worst-IsStatus : (base : ℕ) (vs : List View) → IsStatus base → IsStatus (worst base vs)
  worst-IsStatus base [] k = k
  worst-IsStatus base (v ∷ vs) k = worst-IsStatus (max base (level v)) vs (max-IsStatus base v k)

  -- For bonds asked for by name whose files show what they do, and texts that fit the buffer of 64
  -- bytes, the check completes with an exit, whose status is the worst of: 2 for a bond that is missing
  -- or down, 1 for one that is up with a slave that is down, 0 otherwise.
  pub check-level :
      (readdir : Bytes → Option (List Bytes)) (variable : Option Bytes) (b : Bytes × View)
      (bs : List (Bytes × View))
      → dir ≡ bonding_dir_of variable
      → Seen fopen dir (b ∷ bs)
      → (e : Exit) × (check fopen vprintf readdir variable (bonds_of (b ∷ bs)) p ≡ completed e)
        × (e.status ≡ worst 0 (views_of (b ∷ bs)))
  unfolding check
  check-level readdir variable (bond, v) bs d h =
      let (a, c, commas) = strcat-joined (texts_of ((bond, v) ∷ bs)) in
      let output = text_of bond v ++ behind (codes ", ") (texts_of bs) in
      let status = worst 0 (views_of ((bond, v) ∷ bs)) in
      let (e, leaves, known) =
        leave-status output status (worst-IsStatus 0 (views_of ((bond, v) ∷ bs)) (omega arith)) in
      (
        e,
        ap
              (λ dir.
                check_bonds fopen vprintf p dir (bonds_of ((bond, v) ∷ bs)) none 0
                >>= leave fopen vprintf p)
              (sym d)
            ∙ ap (λ o. o >>= leave fopen vprintf p)
                (check_bonds-worst ((bond, v) ∷ bs) none 0 h (omega arith))
            ∙ ap (λ o. leave fopen vprintf p (o, status)) commas
            ∙ leaves,
        known,
      )
