-- ===== src/Checks/File/Access.antt =====
-- Access strings as clauses.
use Prim.Native.Nat.{bit_and, bit_or}
use monitoringplug.Base.{
  ℕ, Bool, true, false, ◌&&◌, Option, none, some, List, [], ◌∷◌, ◌++◌, append-nil, append_assoc,
  subst, ◌≡◌, refl, sym, ap, ◌∙◌, arith, Bytes, codes, ◌==◌, if◌then◌else◌, Bool-cases, inl, inr,
}
use monitoringplug.Text.{contains}
use monitoringplug.Output.{Plugin}
use monitoringplug.Getopt.{Outcome, completed, left}
use monitoringplug.Checks.File.{
  MaskFunction, lacks, equals, has, Clause, no_clause, passes, passes_clause, is_rwx, open_clause,
  permit, illegal_access, access_step, access_loop, check_access,
}

-- The syntax: whose permissions, what is asked of them, and which.
pub data Subject : Type 0 where
  user group everyone : Subject

pub data Permission : Type 0 where
  reading writing executing : Permission

pub record Rule : Type 0 where
  pub subjects : List Subject
  pub asks : MaskFunction
  pub permissions : List Permission

abbrev pub subject_char : Subject → ℕ
subject_char user = b'u'
subject_char group = b'g'
subject_char everyone = b'o'

abbrev pub subject_chars : List Subject → Bytes
subject_chars [] = []
subject_chars (s ∷ ss) = subject_char s ∷ subject_chars ss

abbrev pub permission_char : Permission → ℕ
permission_char reading = b'r'
permission_char writing = b'w'
permission_char executing = b'x'

abbrev pub permission_chars : List Permission → Bytes
permission_chars [] = []
permission_chars (p ∷ ps) = permission_char p ∷ permission_chars ps

abbrev pub asks_char : MaskFunction → ℕ
asks_char lacks = b'-'
asks_char has = b'+'
asks_char equals = b'='

abbrev pub print_rule : Rule → Bytes
print_rule r = subject_chars r.subjects ++ asks_char r.asks ∷ permission_chars r.permissions

abbrev pub print_rules : List Rule → Bytes
print_rules [] = []
print_rules (r ∷ rs) = print_rule r ++ print_rules rs

-- The meaning: of the bits of the permissions for the subjects the mode has none, all, or just those of
-- the subjects' bits.
abbrev pub subject_bits : Subject → ℕ
subject_bits user = 448
subject_bits group = 56
subject_bits everyone = 7

abbrev pub permission_bits : Permission → ℕ
permission_bits reading = 292
permission_bits writing = 146
permission_bits executing = 73

abbrev pub mask_of {ℓ} : {A : Type ℓ} → (A → ℕ) → ℕ → List A → ℕ
mask_of bits mask [] = mask
mask_of bits mask (a ∷ as') = mask_of bits (bit_or mask (bits a)) as'

abbrev pub holds_for : ℕ → ℕ → MaskFunction → ℕ → Bool
holds_for fmode subjects lacks wanted = bit_and fmode wanted == 0
holds_for fmode subjects has wanted = bit_and fmode wanted == wanted
holds_for fmode subjects equals wanted = bit_and fmode subjects == wanted

abbrev pub holds : ℕ → Rule → Bool
holds fmode r =
    let subjects = mask_of subject_bits 0 r.subjects in
    holds_for fmode subjects r.asks (bit_and (mask_of permission_bits 0 r.permissions) subjects)

abbrev pub all_hold : ℕ → List Rule → Bool
all_hold fmode [] = true
all_hold fmode (r ∷ rs) = holds fmode r && all_hold fmode rs

-- A character that no rule has in its place.
abbrev pub IsIllegal : ℕ → Type 0
IsIllegal c = contains c (codes "rwxugo-+=") ≡ false

illegal-none : (c : ℕ) → IsIllegal c → (is_rwx c ≡ false) × (open_clause c no_clause ≡ none)
unfolding contains open_clause
illegal-none c h = ground arith

print_rule-first :
    (ss : List Subject) (f : MaskFunction) (ps : List Permission) (rest : Bytes)
    → (c : ℕ) × (t : Bytes) × ((subject_chars ss ++ asks_char f ∷ permission_chars ps) ++ rest
        ≡ c ∷ t)
      × (is_rwx c ≡ false)
print_rule-first [] lacks ps rest = (b'-', permission_chars ps ++ rest, refl, refl)
print_rule-first [] has ps rest = (b'+', permission_chars ps ++ rest, refl, refl)
print_rule-first [] equals ps rest = (b'=', permission_chars ps ++ rest, refl, refl)
print_rule-first (user ∷ ss) f ps rest = (b'u', _, refl, refl)
print_rule-first (group ∷ ss) f ps rest = (b'g', _, refl, refl)
print_rule-first (everyone ∷ ss) f ps rest = (b'o', _, refl, refl)

if_and {ℓ} :
    {A : Type ℓ} (a b : Bool) (x y : A)
    → (if a then (if b then x else y) else y) ≡ (if a && b then x else y)
if_and true b x y = refl
if_and false b x y = refl

module _ (p : Plugin) (accessstring : Bytes) (fmode : ℕ) where
  abbrev loop : Bytes → Clause → Outcome Bool
  loop = access_loop p accessstring fmode

  -- in the subjects of a rule, and in its permissions
  abbrev before : ℕ → Clause
  before subjects = record no_clause { subject_mask = subjects }

  abbrev within : ℕ → MaskFunction → ℕ → Clause
  within subjects f wanted = record {
    permissions = true;
    subject_mask = subjects;
    mask_function = f;
    access_mask = wanted;
  }

  loop-subjects :
      (ss : List Subject) (rest : Bytes) (m : ℕ)
      → loop (subject_chars ss ++ rest) (before m) ≡ loop rest (before (mask_of subject_bits m ss))
  unfolding access_loop access_step open_clause permit
  loop-subjects [] rest m = refl
  loop-subjects (user ∷ ss) rest m = loop-subjects ss rest (bit_or m 448)
  loop-subjects (group ∷ ss) rest m = loop-subjects ss rest (bit_or m 56)
  loop-subjects (everyone ∷ ss) rest m = loop-subjects ss rest (bit_or m 7)

  loop-asks :
      (f : MaskFunction) (rest : Bytes) (m : ℕ)
      → loop (asks_char f ∷ rest) (before m) ≡ loop rest (within m f 0)
  unfolding access_loop access_step open_clause permit
  loop-asks lacks rest m = refl
  loop-asks has rest m = refl
  loop-asks equals rest m = refl

  loop-permissions :
      (ps : List Permission) (rest : Bytes) (m : ℕ) (f : MaskFunction) (w : ℕ)
      → loop (permission_chars ps ++ rest) (within m f w)
        ≡ loop rest (within m f (mask_of permission_bits w ps))
  unfolding access_loop access_step open_clause permit
  loop-permissions [] rest m f w = refl
  loop-permissions (reading ∷ ps) rest m f w = loop-permissions ps rest m f (bit_or w 292)
  loop-permissions (writing ∷ ps) rest m f w = loop-permissions ps rest m f (bit_or w 146)
  loop-permissions (executing ∷ ps) rest m f w = loop-permissions ps rest m f (bit_or w 73)

  -- a character that ends a rule
  loop-end :
      (c : ℕ) (rest : Bytes) (m : ℕ) (f : MaskFunction) (w : ℕ)
      → is_rwx c ≡ false
      → loop (c ∷ rest) (within m f w) ≡ (
          if passes_clause fmode (within m f w) then loop (c ∷ rest) no_clause else completed false)
  unfolding access_loop access_step open_clause permit
  loop-end c rest m f w k = elim (Bool-cases (passes fmode f m w)) [
    | inl h ↦ rw (k, h) refl
    | inr h ↦ rw (k, h) refl
  ]

  loop-rule :
      (r : Rule) (rest : Bytes)
      → loop (print_rule r ++ rest) no_clause
        ≡ loop rest (
            within
              (mask_of subject_bits 0 r.subjects)
              r.asks
              (mask_of permission_bits 0 r.permissions))
  loop-rule r rest =
      ap (λ s. loop s no_clause)
        (append_assoc (subject_chars r.subjects) (asks_char r.asks ∷ permission_chars r.permissions)
          rest)
      ∙ loop-subjects r.subjects (asks_char r.asks ∷ (permission_chars r.permissions ++ rest)) 0
      ∙ loop-asks r.asks (permission_chars r.permissions ++ rest)
          (mask_of subject_bits 0 r.subjects)
      ∙ loop-permissions r.permissions rest (mask_of subject_bits 0 r.subjects) r.asks 0

  passes-holds :
      (r : Rule)
      → passes fmode r.asks
          (mask_of subject_bits 0 r.subjects)
          (mask_of permission_bits 0 r.permissions)
        ≡ holds fmode r
  passes-holds r = by_asks r.asks
    where
      by_asks :
          (f : MaskFunction)
          → passes fmode f
              (mask_of subject_bits 0 r.subjects)
              (mask_of permission_bits 0 r.permissions)
            ≡ holds_for fmode (mask_of subject_bits 0 r.subjects) f (
                bit_and
                  (mask_of permission_bits 0 r.permissions)
                  (mask_of subject_bits 0 r.subjects))
      by_asks lacks = unfold passes in refl
      by_asks has = unfold passes in refl
      by_asks equals = unfold passes in refl

  -- What stands behind the rules: nothing, or an illegal character.
  abbrev pub at_end : Option (ℕ × Bytes) → Bytes
  at_end none = []
  at_end (some (c, rest)) = c ∷ rest

  abbrev pub IsEnd : Option (ℕ × Bytes) → Type 0
  IsEnd none = Unit
  IsEnd (some (c, rest)) = IsIllegal c

  abbrev pub verdict : Option (ℕ × Bytes) → Outcome Bool
  verdict none = completed true
  verdict (some e) = left (illegal_access p accessstring fmode)

  completed_if : (b : Bool) → completed b ≡ (if b then completed true else completed false)
  completed_if true = refl
  completed_if false = refl

  loop-illegal :
      (c : ℕ) (rest : Bytes)
      → IsIllegal c
      → loop (c ∷ rest) no_clause ≡ left (illegal_access p accessstring fmode)
  unfolding access_loop access_step
  loop-illegal c rest h = rw (illegal-none c h).1 refl

  loop-last :
      (r : Rule) (e : Option (ℕ × Bytes))
      → IsEnd e
      → loop (print_rule r ++ at_end e) no_clause
        ≡ (if holds fmode r then verdict e else completed false)
  unfolding access_loop
  loop-last r none h = loop-rule r [] ∙ ap completed (passes-holds r) ∙ completed_if (holds fmode r)
  loop-last r (some (c, rest)) h =
      loop-rule r (c ∷ rest)
      ∙ loop-end c rest (mask_of subject_bits 0 r.subjects) r.asks
          (mask_of permission_bits 0 r.permissions) (illegal-none c h).0
      ∙ ap (λ b. if b then loop (c ∷ rest) no_clause else completed false) (passes-holds r)
      ∙ ap (λ o. if holds fmode r then o else completed false) (loop-illegal c rest h)

  -- the first character of a rule ends the one before it
  loop-next :
      (r s : Rule) (rest : Bytes)
      → loop (print_rule r ++ (print_rule s ++ rest)) no_clause
        ≡ (if holds fmode r then loop (print_rule s ++ rest) no_clause else completed false)
  loop-next r s rest =
      loop-rule r (print_rule s ++ rest)
      ∙ (let (c, t, first, k) = print_rule-first s.subjects s.asks s.permissions rest in
          subst
            (λ u.
              loop u (
                within (mask_of subject_bits 0 r.subjects) r.asks
                  (mask_of permission_bits 0 r.permissions))
              ≡ (if passes fmode r.asks (mask_of subject_bits 0 r.subjects)
                    (mask_of permission_bits 0 r.permissions)
                  then loop u no_clause
                  else completed false))
            (sym first)
            (loop-end c t (mask_of subject_bits 0 r.subjects) r.asks
              (mask_of permission_bits 0 r.permissions) k))
      ∙ ap (λ b. if b then loop (print_rule s ++ rest) no_clause else completed false)
          (passes-holds r)

  loop-rules :
      (r : Rule) (rs : List Rule) (e : Option (ℕ × Bytes))
      → IsEnd e
      → loop (print_rules (r ∷ rs) ++ at_end e) no_clause
        ≡ (if all_hold fmode (r ∷ rs) then verdict e else completed false)
  loop-rules r [] e h =
      ap (λ t. loop (t ++ at_end e) no_clause) (append-nil (print_rule r))
      ∙ loop-last r e h
      ∙ if_and (holds fmode r) true (verdict e) (completed false)
  loop-rules r (s ∷ rs) e h =
      ap (λ t. loop t no_clause) (append_assoc (print_rule r) (print_rules (s ∷ rs)) (at_end e))
      ∙ ap (λ t. loop (print_rule r ++ t) no_clause)
          (append_assoc (print_rule s) (print_rules rs) (at_end e))
      ∙ loop-next r s (print_rules rs ++ at_end e)
      ∙ ap (λ t. if holds fmode r then loop t no_clause else completed false)
          (sym (append_assoc (print_rule s) (print_rules rs) (at_end e)))
      ∙ ap (λ o. if holds fmode r then o else completed false) (loop-rules s rs e h)
      ∙ if_and (holds fmode r) (all_hold fmode (s ∷ rs)) (verdict e) (completed false)

  -- An access string of one or more rules, each of subjects, a sign and permissions, and behind them
  -- nothing: `check_access` accepts the mode exactly if every rule holds. With a character that fits
  -- nowhere behind the rules, the check leaves with UNKNOWN if they all hold, and refuses the mode if not.
  pub check_access-rules :
      (r : Rule) (rs : List Rule) (e : Option (ℕ × Bytes))
      → IsEnd e
      → accessstring ≡ print_rules (r ∷ rs) ++ at_end e
      → check_access p accessstring fmode
        ≡ (if all_hold fmode (r ∷ rs) then verdict e else completed false)
  unfolding check_access
  check_access-rules r rs e h written = ap (λ s. loop s no_clause) written ∙ loop-rules r rs e h
