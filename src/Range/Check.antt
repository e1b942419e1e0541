-- ===== src/Range/Check.antt =====
-- `check_range` and `get_status` against what a range and a pair of thresholds mean.
use monitoringplug.Base.{
  ◌≤◌, true, false, Option, none, some, ◌≡◌, ◌↔◌, ◌⊎◌, inl, inr, arith, refl, Bool-cases,
}
use monitoringplug.Range.{
  Doubles, Alert, outside, inside, Range, Thresholds, check_range, alerts, get_status,
}

module _ (F : Doubles) where
  open F use {D, lt}

  -- `value` lies between the bounds; an infinite bound holds for every value.
  abbrev pub InRange : D → Range D → Type 0
  InRange value r =
      ((r.start_infinity ≡ true) ⊎ (lt value r.start ≡ false))
      × ((r.end_infinity ≡ true) ⊎ (lt r.end value ≡ false))

  abbrev pub AlertIf : Alert → Type 0 → Type 0
  AlertIf outside P = ¬ P
  AlertIf inside P = P

  -- `value` is to raise an alert: it lies outside, or for an `@` range inside.
  abbrev pub Alerts : D → Range D → Type 0
  Alerts value r = AlertIf r.alert_on (InRange value r)

  -- `check_range` is true exactly for the values that are to raise an alert: for a range that alerts
  -- outside those that do not lie between its bounds, for one that alerts inside those that do.
  pub check_range_lem : (value : D) (r : Range D) → (check_range F value r ≡ true) ↔ Alerts value r
  unfolding check_range
  check_range_lem value r = by_alert r.alert_on refl
    where
      by_alert : (a : Alert) → r.alert_on ≡ a → (check_range F value r ≡ true) ↔ Alerts value r
      by_alert outside e = (ground arith, ground arith)
      by_alert inside e = (ground arith, ground arith)

  abbrev pub SomeAlerts : D → Option (Range D) → Type 0
  SomeAlerts value none = ⊥
  SomeAlerts value (some r) = Alerts value r

  alerts_lem : (value : D) (o : Option (Range D)) → (alerts F value o ≡ true) ↔ SomeAlerts value o
  alerts_lem value none = (λ h. cc, λ h. absurd h)
  alerts_lem value (some r) = check_range_lem value r

  abbrev pub warning_of : Option (Thresholds D) → Option (Range D)
  warning_of none = none
  warning_of (some t) = t.warning

  abbrev pub critical_of : Option (Thresholds D) → Option (Range D)
  critical_of none = none
  critical_of (some t) = t.critical

  -- The state is CRITICAL exactly if the critical range is set and raises an alert, WARNING exactly
  -- if that is not so and the warning range is set and raises one, and OK in all other cases.
  pub get_status_lem :
      (value : D) (t : Option (Thresholds D))
      → ((get_status F value t ≡ 2) ↔ SomeAlerts value (critical_of t))
        × ((get_status F value t ≡ 1)
            ↔ (¬ (SomeAlerts value (critical_of t)) × SomeAlerts value (warning_of t)))
        × (get_status F value t ≤ 2)
  unfolding get_status
  get_status_lem value none = ((λ h. cc, λ h. absurd h), (λ h. cc, λ h. absurd h.1), omega arith)
  get_status_lem value (some t) =
      let (c, c') = alerts_lem value t.critical in
      let (w, w') = alerts_lem value t.warning in
      elim (Bool-cases (alerts F value t.critical)) [
        | inl e ↦ rw e (
          (λ h. c e, λ h. refl),
          (λ h. absurd (omega arith), λ h. absurd (h.0 (c e))),
          omega arith,
        )
        | inr e ↦ elim (Bool-cases (alerts F value t.warning)) [
          | inl f ↦
              rw (e, f)
                (
                  (λ h. absurd (omega arith), λ h. cc (c' h)),
                  (λ h. ((λ k. cc (c' k)), w f), λ h. refl),
                  omega arith,
                )
          | inr f ↦
              rw (e, f)
                (
                  (λ h. absurd (omega arith), λ h. cc (c' h)),
                  (λ h. absurd (omega arith), λ h. cc (w' h.1)),
                  omega arith,
                )
        ]
      ]
