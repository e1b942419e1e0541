-- ===== src/Output/Collect.antt =====
-- What `mp_exit` prints after any sequence of reports: the messages of each severity, in the order
-- of the calls and joined by commas.
use monitoringplug.Base.{
  zero, suc, Bool, false, Option, none, some, List, [], ◌∷◌, ◌++◌, append-nil, append_assoc, ◌≡◌,
  refl, ap, ◌∙◌, arith, Bytes, codes, ltb, if◌then◌else◌,
}
use monitoringplug.Base.Int.{ℤ, ltb_ℤ, pos, negsuc}
use monitoringplug.Output.{
  Plugin, Buffer, initial, set_ok, set_warning, set_critical, mp_exit, message_part, okonly_part,
  perfdata_part, newline, exit_switch, state_ok, state_warning,
}
use monitoringplug.Output.Severity.{
  Severity, is_ok, is_warning, is_critical, Report, set_state, report_all, worst, label, IsLevel,
  level_of, report_all-IsLevel, exit_switch-level,
}

-- Every text behind a comma and a blank.
abbrev pub separated : List Bytes → Bytes
separated [] = []
separated (t ∷ ts) = codes ", " ++ (t ++ separated ts)

abbrev pub keep : Severity → Severity → Bytes → List Bytes → List Bytes
keep is_ok is_ok t ts = t ∷ ts
keep is_warning is_warning t ts = t ∷ ts
keep is_critical is_critical t ts = t ∷ ts
keep _ _ t ts = ts

-- The texts reported at one severity, in order.
abbrev pub texts : Severity → List Report → List Bytes
texts s [] = []
texts s (r ∷ rs) = keep s r.severity r.text (texts s rs)

abbrev pub channel : Severity → Plugin → Option Buffer
channel is_ok p = p.out_ok
channel is_warning p = p.out_warning
channel is_critical p = p.out_critical

abbrev text_of : Option Buffer → Option Bytes
text_of none = none
text_of (some b) = some b.text

abbrev gathered : Option Bytes → List Bytes → Option Bytes
gathered o [] = o
gathered none (t ∷ ts) = some (t ++ separated ts)
gathered (some b) (t ∷ ts) = some (b ++ separated (t ∷ ts))

set_state-channel :
    (s r : Severity) (msg : Bytes) (p : Plugin)
    → text_of (channel s (set_state r msg p)) ≡ gathered (text_of (channel s p)) (keep s r msg [])
unfolding set_ok set_warning set_critical
set_state-channel is_ok is_ok msg p = ground (arith, append-nil msg)
set_state-channel is_warning is_warning msg p = ground (arith, append-nil msg)
set_state-channel is_critical is_critical msg p = ground (arith, append-nil msg)
set_state-channel is_ok is_warning msg p = refl
set_state-channel is_ok is_critical msg p = refl
set_state-channel is_warning is_ok msg p = refl
set_state-channel is_warning is_critical msg p = refl
set_state-channel is_critical is_ok msg p = refl
set_state-channel is_critical is_warning msg p = refl

gathered_twice :
    (o : Option Bytes) (t : Bytes) (ts : List Bytes)
    → gathered (gathered o (t ∷ [])) ts ≡ gathered o (t ∷ ts)
gathered_twice none t [] = refl
gathered_twice none t (u ∷ ts) = rw append-nil
gathered_twice (some b) t [] = refl
gathered_twice (some b) t (u ∷ ts) = ap some (simp (append_assoc, append-nil))

gathered-keep :
    (s r : Severity) (o : Option Bytes) (t : Bytes) (ts : List Bytes)
    → gathered (gathered o (keep s r t [])) ts ≡ gathered o (keep s r t ts)
gathered-keep is_ok is_ok o t ts = gathered_twice o t ts
gathered-keep is_warning is_warning o t ts = gathered_twice o t ts
gathered-keep is_critical is_critical o t ts = gathered_twice o t ts
gathered-keep _ _ o t ts = refl

report_all-channel :
    (s : Severity) (rs : List Report) (p : Plugin)
    → text_of (channel s (report_all rs p)) ≡ gathered (text_of (channel s p)) (texts s rs)
unfolding report_all
report_all-channel s [] p = refl
report_all-channel s (r ∷ rs) p =
    report_all-channel s rs (set_state r.severity r.text p)
    ∙ ap (λ o. gathered o (texts s rs)) (set_state-channel s r.severity r.text p)
    ∙ gathered-keep s r.severity _ r.text (texts s rs)

set_state-rest :
    (s : Severity) (msg : Bytes) (p : Plugin)
    → ((set_state s msg p).out_okonly ≡ p.out_okonly)
      × (perfdata_part (codes " | ") (set_state s msg p) ≡ perfdata_part (codes " | ") p)
unfolding set_ok set_warning set_critical perfdata_part
set_state-rest is_ok msg p = (refl, refl)
set_state-rest is_warning msg p = (refl, refl)
set_state-rest is_critical msg p = (refl, refl)

report_all-rest :
    (rs : List Report) (p : Plugin)
    → ((report_all rs p).out_okonly ≡ p.out_okonly)
      × (perfdata_part (codes " | ") (report_all rs p) ≡ perfdata_part (codes " | ") p)
unfolding report_all
report_all-rest [] p = (refl, refl)
report_all-rest (r ∷ rs) p =
    let (a, b) = set_state-rest r.severity r.text p in
    let (c, d) = report_all-rest rs (set_state r.severity r.text p) in (c ∙ a, d ∙ b)

-- The specification of one group of messages: nothing if there is none.
abbrev pub group : Bytes → List Bytes → Bytes
group mark [] = []
group mark (t ∷ ts) = mark ++ (b' ' ∷ (t ++ separated ts))

message_part-group :
    (marked : Bool) (mark : Bytes) (o : Option Buffer) (ts : List Bytes)
    → text_of o ≡ gathered none ts
    → message_part marked mark o ≡ group (if marked then mark else []) ts
unfolding message_part
message_part-group marked mark none [] h = refl
message_part-group marked mark (some b) [] h = cc
message_part-group marked mark none (t ∷ ts) h = cc
message_part-group marked mark (some b) (t ∷ ts) h = ground arith

-- The specification of the whole line.
abbrev pub line : List Report → Bytes → Bytes → Bytes
line rs msg perfdata =
    label (worst 0 rs)
    ++ (msg
        ++ (group [] (texts is_critical rs)
            ++ (group (if ltb 1 (worst 0 rs) then codes " Warning:" else []) (texts is_warning rs)
                ++ (group (if ltb 0 (worst 0 rs) then codes " OK:" else []) (texts is_ok rs)
                    ++ (perfdata ++ newline)))))

exit_switch-marks :
    (s : ℤ)
    → IsLevel s
    → (ltb_ℤ state_warning (exit_switch s).0 ≡ ltb 1 (level_of s))
      × (ltb_ℤ state_ok (exit_switch s).0 ≡ ltb 0 (level_of s))
unfolding exit_switch
exit_switch-marks (pos zero) h = (refl, refl)
exit_switch-marks (pos (suc zero)) h = (refl, refl)
exit_switch-marks (pos (suc (suc zero))) h = (refl, refl)
exit_switch-marks (pos (suc (suc (suc n)))) h = absurd (omega arith)
exit_switch-marks (negsuc zero) h = (refl, refl)
exit_switch-marks (negsuc (suc n)) h = absurd (omega arith)

okonly_part-none : (s : ℤ) → okonly_part s none ≡ []
unfolding okonly_part message_part
okonly_part-none (pos zero) = refl
okonly_part-none (pos (suc n)) = refl
okonly_part-none (negsuc n) = refl

-- Started with nothing reported, a check prints after any sequence of reports the label of the worst
-- severity, the message, the critical texts, the warning texts, marked if the status is critical,
-- the OK texts, marked if it is not OK, each group in the order of the calls with commas between,
-- then the performance data and a newline. Nothing reported is lost.
pub mp_exit-line :
    (rs : List Report) (msg : Bytes) (show : Bool) (perfdata : Option Bytes)
    → (mp_exit msg
        (report_all rs (record initial { show_perfdata = show; perfdata = perfdata }))).stdout
      ≡ line rs msg (
          perfdata_part
            (codes " | ")
            (record initial { show_perfdata = show; perfdata = perfdata }))
unfolding mp_exit
mp_exit-line rs msg show perfdata =
    let p : Plugin = record initial { show_perfdata = show; perfdata = perfdata } in
    let q : Plugin = report_all rs p in
    let (known, total) = report_all-IsLevel rs p refl in
    let (marks_warning, marks_ok) = exit_switch-marks q.state known in
    let (okonly, shown) = report_all-rest rs p in
    rw (
      message_part-group false [] q.out_critical _ (report_all-channel is_critical rs p),
      message_part-group _ (codes " Warning:") q.out_warning _ (report_all-channel is_warning rs p),
      message_part-group _ (codes " OK:") q.out_ok _ (report_all-channel is_ok rs p),
      (exit_switch-level q.state known).1,
      marks_warning,
      marks_ok,
      total,
      okonly,
      okonly_part-none,
      shown,
    )
