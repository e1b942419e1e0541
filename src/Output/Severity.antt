-- ===== src/Output/Severity.antt =====
-- The plugin's status after any sequence of reports. A check calls `set_ok`, `set_warning` and
-- `set_critical` in any order, and leaves by `mp_exit`.
use native.Mathlib.Nat.{ℕ_set}
use mathlib.Core.Logic.{∥∥₁_elim}
use mathlib.Core.List.{Perm, Permᴰ}
use monitoringplug.Base.{
  ℕ, zero, suc, max, ◌≤◌, true, List, [], ◌∷◌, ◌++◌, append_assoc, ◌≡◌, refl, sym, ap, ◌∙◌, arith,
  Bytes, codes,
}
use monitoringplug.Base.Int.{ℤ, pos, negsuc}
use monitoringplug.Text.{starts_with}
use monitoringplug.Text.Laws.{starts_with-append}
use monitoringplug.Output.{
  Plugin, set_ok, set_warning, set_critical, mp_exit, exit_switch, low_byte,
}

pub data Severity : Type 0 where
  is_ok is_warning is_critical : Severity

-- One call of a `set_*` function.
pub record Report : Type 0 where
  pub severity : Severity
  pub text : Bytes

abbrev pub set_state : Severity → Bytes → Plugin → Plugin
set_state is_ok = set_ok
set_state is_warning = set_warning
set_state is_critical = set_critical

-- The calls in order.
unfoldable pub report_all : List Report → Plugin → Plugin
report_all [] p = p
report_all (r ∷ rs) p = report_all rs (set_state r.severity r.text p)

abbrev pub level : Severity → ℕ
level is_ok = 0
level is_warning = 1
level is_critical = 2

-- The specification: the worst level reported, at least `base`.
abbrev pub worst : ℕ → List Report → ℕ
worst base [] = base
worst base (r ∷ rs) = worst (max base (level r.severity)) rs

-- What the state is known to be: -1 before any report, and a level after.
abbrev pub level_of : ℤ → ℕ
level_of (pos n) = n
level_of (negsuc n) = 0

abbrev pub IsLevel : ℤ → Type 0
IsLevel (pos n) = n ≤ 2
IsLevel (negsuc n) = ◌≡◌ {A = ℕ} n 0

set_state-level :
    (s : Severity) (msg : Bytes) (p : Plugin)
    → IsLevel p.state
    → IsLevel (set_state s msg p).state
      × (level_of (set_state s msg p).state ≡ max (level_of p.state) (level s))
unfolding set_ok set_warning set_critical
set_state-level is_ok msg p h = ground arith
set_state-level is_warning msg p h = ground arith
set_state-level is_critical msg p h = ground arith

pub report_all-IsLevel :
    (rs : List Report) (p : Plugin)
    → IsLevel p.state
    → IsLevel (report_all rs p).state
      × (level_of (report_all rs p).state ≡ worst (level_of p.state) rs)
unfolding report_all
report_all-IsLevel [] p h = (h, refl)
report_all-IsLevel (r ∷ rs) p h =
    let (known, now) = set_state-level r.severity r.text p h in
    let (later, total) = report_all-IsLevel rs (set_state r.severity r.text p) known in
    (later, total ∙ ap (λ b. worst b rs) now)

-- The label of each status on the first line of the output.
abbrev pub label : ℕ → Bytes
label zero = codes "OK - "
label (suc zero) = codes "WARNING - "
label (suc (suc n)) = codes "CRITICAL - "

pub exit_switch-level :
    (s : ℤ)
    → IsLevel s
    → (low_byte (exit_switch s).0 ≡ level_of s) × ((exit_switch s).1 ≡ label (level_of s))
unfolding exit_switch
exit_switch-level (pos zero) h = (refl, refl)
exit_switch-level (pos (suc zero)) h = (refl, refl)
exit_switch-level (pos (suc (suc zero))) h = (refl, refl)
exit_switch-level (pos (suc (suc (suc n)))) h = absurd (omega arith)
exit_switch-level (negsuc zero) h = (refl, refl)
exit_switch-level (negsuc (suc n)) h = absurd (omega arith)

mp_exit-level :
    (msg : Bytes) (p : Plugin)
    → IsLevel p.state
    → ((mp_exit msg p).status ≡ level_of p.state)
      × (starts_with (mp_exit msg p).stdout (label (level_of p.state) ++ msg) ≡ true)
unfolding mp_exit
mp_exit-level msg p h =
    let (status, first) = exit_switch-level p.state h in
    (status, rw (first, ← append_assoc) (starts_with-append (label (level_of p.state) ++ msg) _))

-- After any sequence of reports the plugin exits with the worst severity reported, and what it
-- prints begins with the label of that severity and the message of `mp_exit`. With no report the
-- state it had decides, and -1 counts as OK.
pub mp_exit-worst :
    (rs : List Report) (msg : Bytes) (p : Plugin)
    → IsLevel p.state
    → ((mp_exit msg (report_all rs p)).status ≡ worst (level_of p.state) rs)
      × (starts_with
            (mp_exit msg (report_all rs p)).stdout
            (label (worst (level_of p.state) rs) ++ msg)
          ≡ true)
mp_exit-worst rs msg p h =
    let (known, total) = report_all-IsLevel rs p h in
    let (status, first) = mp_exit-level msg (report_all rs p) known in
    (status ∙ total, rw total at first)

worst-Permᴰ : {rs ss : List Report} → Permᴰ rs ss → (base : ℕ) → worst base rs ≡ worst base ss
worst-Permᴰ Permᴰ.nil base = refl
worst-Permᴰ (Permᴰ.cons {l₂} e h) base =
    worst-Permᴰ h _ ∙ ap (λ (x : Report). worst (max base (level x.severity)) l₂) e
worst-Permᴰ (Permᴰ.swap {a} {b} {l} e f) base = rw (← e, ← f) (ap (λ n. worst n l) (omega arith))
worst-Permᴰ (Permᴰ.trans h k) base = worst-Permᴰ h base ∙ worst-Permᴰ k base

-- The order in which a check reports does not change its exit status.
pub mp_exit-perm :
    (rs ss : List Report) (msg : Bytes) (p : Plugin)
    → IsLevel p.state
    → Perm rs ss
    → (mp_exit msg (report_all rs p)).status ≡ (mp_exit msg (report_all ss p)).status
mp_exit-perm rs ss msg p h perm =
    (mp_exit-worst rs msg p h).0
    ∙ ∥∥₁_elim perm (ℕ_set _ _) (λ d. worst-Permᴰ d (level_of p.state))
    ∙ sym (mp_exit-worst ss msg p h).0
