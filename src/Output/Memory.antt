-- ===== src/Output/Memory.antt =====
-- The blocks that hold the messages. A string needs one byte more than its text, for the NUL.
use monitoringplug.Base.{
  ℕ, ◌+◌, ◌≤◌, Option, none, some, List, [], ◌∷◌, ◌++◌, ◌≡◌, refl, subst, ◌⊎◌, inl, inr, arith,
  Bytes, codes, length, length-append,
}
use monitoringplug.Output.{Plugin, Buffer, initial, set_ok, set_warning, set_critical, add_message}
use monitoringplug.Output.Severity.{
  Severity, is_ok, is_warning, is_critical, Report, set_state, report_all,
}
use monitoringplug.Output.Collect.{texts, keep, channel}

-- A block after `n` messages: one byte too small for the first message alone, exact from the second
-- on.
abbrev pub Sized : Option Buffer → ℕ → Type 0
Sized none n = n ≡ 0
Sized (some b) n =
    ((n ≡ 1) × (b.size + 1 ≡ length b.text + 1)) ⊎ ((2 ≤ n) × (b.size ≡ length b.text + 1))

add_message-Sized :
    (o : Option Buffer) (n : ℕ) (msg : Bytes) → Sized o n → Sized (add_message o msg) (n + 1)
unfolding add_message
add_message-Sized none n msg h = inl (omega arith, omega arith)
add_message-Sized (some b) n msg h = inr (
  omega arith,
  omega (arith, length-append b.text (codes ", " ++ msg), length-append (codes ", ") msg),
)

set_state-Sized :
    (s r : Severity) (msg : Bytes) (p : Plugin) (n : ℕ) (ts : List Bytes)
    → Sized (channel s p) n
    → (m : ℕ) × Sized (channel s (set_state r msg p)) m
      × (m + length ts ≡ n + length (keep s r msg ts))
unfolding set_ok set_warning set_critical
set_state-Sized is_ok is_ok msg p n ts h = (n + 1, add_message-Sized _ n msg h, omega arith)
set_state-Sized is_warning is_warning msg p n ts h =
    (n + 1, add_message-Sized _ n msg h, omega arith)
set_state-Sized is_critical is_critical msg p n ts h =
    (n + 1, add_message-Sized _ n msg h, omega arith)
set_state-Sized is_ok is_warning msg p n ts h = (n, h, refl)
set_state-Sized is_ok is_critical msg p n ts h = (n, h, refl)
set_state-Sized is_warning is_ok msg p n ts h = (n, h, refl)
set_state-Sized is_warning is_critical msg p n ts h = (n, h, refl)
set_state-Sized is_critical is_ok msg p n ts h = (n, h, refl)
set_state-Sized is_critical is_warning msg p n ts h = (n, h, refl)

report_all-Sized_from :
    (s : Severity) (rs : List Report) (p : Plugin) (n : ℕ)
    → Sized (channel s p) n
    → (m : ℕ) × Sized (channel s (report_all rs p)) m × (m ≡ n + length (texts s rs))
unfolding report_all
report_all-Sized_from s [] p n h = (n, h, omega arith)
report_all-Sized_from s (r ∷ rs) p n h =
    let (k, hk, ek) = set_state-Sized s r.severity r.text p n (texts s rs) h in
    let (m, hm, em) = report_all-Sized_from s rs (set_state r.severity r.text p) k hk in
    (m, hm, omega arith)

-- From the start on, the block of each severity's messages is one byte too small for its text and
-- the NUL while it holds one message, and exactly large enough as soon as it holds two.
pub report_all-Sized :
    (s : Severity) (rs : List Report)
    → Sized (channel s (report_all rs initial)) (length (texts s rs))
report_all-Sized is_ok rs =
    let (m, h, e) = report_all-Sized_from is_ok rs initial 0 refl in subst (Sized _) (omega arith) h
report_all-Sized is_warning rs =
    let (m, h, e) = report_all-Sized_from is_warning rs initial 0 refl in
    subst (Sized _) (omega arith) h
report_all-Sized is_critical rs =
    let (m, h, e) = report_all-Sized_from is_critical rs initial 0 refl in
    subst (Sized _) (omega arith) h
