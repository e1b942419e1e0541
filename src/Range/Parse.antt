-- ===== src/Range/Parse.antt =====
-- What `parse_range_string` accepts and returns.
use monitoringplug.Base.{
  true, false, Option, none, some, [], ◌∷◌, ◌++◌, ◌≡◌, ◌≢◌, refl, ◌⊎◌, inl, inr, ◌↔◌, arith, Bytes,
  ◌==◌, ==_iff, if◌then◌else◌, All, Bool-cases,
}
use monitoringplug.Text.{head}
use monitoringplug.Text.Laws.{strsep-some}
use monitoringplug.Range.{
  Doubles, Alert, outside, inside, Multiplier, Status, accepted, error, Range, defaults,
  parse_start, parse_end, order_bounds, finish, parse_bounds, parse_range_string, split_colon,
  resolve, is_percent,
}

module _ (F : Doubles) where
  open F use {D, le, eq, strtod}

  -- Two finite bounds are in order.
  abbrev pub IsOrdered : Range D → Type 0
  IsOrdered r = (r.start_infinity ≡ true) ⊎ ((r.end_infinity ≡ true) ⊎ (le r.start r.end ≡ true))

  abbrev pub WhenAccepted : (Range D → Type 0) → Range D × Status → Type 0
  WhenAccepted P (r, accepted) = P r
  WhenAccepted P (r, error) = Unit

  -- the alert mode that the text asks for
  abbrev pub mode : Bytes → Alert
  mode s = if head s == b'@' then inside else outside

  -- A bound is NaN, which alone is not equal to itself.
  abbrev pub HasNan : Range D → Type 0
  HasNan r = (eq r.start r.start ≡ false) ⊎ (eq r.end r.end ≡ false)

  module _
      (le_total : (a b : D) → eq a a ≡ true → eq b b ≡ true → le a b ≡ false → le b a ≡ true) where
    order_bounds-IsOrdered :
        (r : Range D) → HasNan (order_bounds F r) ⊎ IsOrdered (order_bounds F r)
    unfolding order_bounds
    order_bounds-IsOrdered r = ground (arith, le_total r.start r.end)

    finish-IsOrdered :
        (a : Alert) (q : Range D × Status)
        → q.0.alert_on ≡ a
        → WhenAccepted (λ r. (HasNan r ⊎ IsOrdered r) × (r.alert_on ≡ a)) (finish F q)
    unfolding finish
    finish-IsOrdered a (r, accepted) e =
        (order_bounds-IsOrdered r, unfold order_bounds in ground arith)
    finish-IsOrdered a (r, error) e = tt

    parse_bounds-IsOrdered :
        (m : Multiplier) (parts : Bytes × Option Bytes) (r : Range D)
        → WhenAccepted
            (λ q. (HasNan q ⊎ IsOrdered q) × (q.alert_on ≡ r.alert_on))
            (parse_bounds F m parts r)
    unfolding parse_bounds
    parse_bounds-IsOrdered m (token, none) r =
        finish-IsOrdered r.alert_on (parse_end F m token r) (unfold parse_end in ground arith)
    parse_bounds-IsOrdered m (token, some rest) r =
        finish-IsOrdered r.alert_on (parse_end F m rest (parse_start F m token r))
          (unfold parse_start parse_end in ground arith)

    -- Whatever text is accepted, two finite bounds come out in order if neither is NaN, and the range
    -- alerts inside exactly if the text begins with `@`. (Of doubles, two that are equal to themselves can be
    -- compared.)
    pub parse_range_string-IsOrdered :
        (m : Multiplier) (s : Bytes)
        → WhenAccepted
            (λ r. (HasNan r ⊎ IsOrdered r) × (r.alert_on ≡ mode s))
            (parse_range_string F m s)
    unfolding parse_range_string
    parse_range_string-IsOrdered m [] = parse_bounds-IsOrdered m (split_colon []) (defaults F)
    parse_range_string-IsOrdered m (c ∷ s) = elim (Bool-cases (c == b'@')) [
      | inl e ↦
          rw e
            (parse_bounds-IsOrdered m (split_colon s) (record (defaults F) { alert_on = inside }))
      | inr e ↦ rw e (parse_bounds-IsOrdered m (split_colon (c ∷ s)) (defaults F))
    ]

  -- the text without a leading `@`
  abbrev pub strip : Bytes → Bytes
  strip [] = []
  strip (c ∷ s) = if c == b'@' then s else c ∷ s

  -- what stands behind the first colon, or all of it
  abbrev pub end_of : Bytes × Option Bytes → Bytes
  end_of (token, none) = token
  end_of (token, some rest) = rest

  abbrev pub end_part : Bytes → Bytes
  end_part s = end_of (split_colon (strip s))

  -- A text that is no bound: not empty, not `~`, and `strtod` converts nothing.
  abbrev pub IsRefused : Bytes → Type 0
  IsRefused s = (head s ≢ b'~') × (head s ≢ 0) × (strtod s ≡ none)

  finish-status : (q : Range D × Status) → (finish F q).1 ≡ q.1
  unfolding finish
  finish-status (r, accepted) = refl
  finish-status (r, error) = refl

  parse_end-error :
      (m : Multiplier) (s : Bytes) (r : Range D) → ((parse_end F m s r).1 ≡ error) ↔ IsRefused s
  unfolding parse_end
  parse_end-error m s r = (ground arith, ground arith)

  parse_bounds-error :
      (m : Multiplier) (parts : Bytes × Option Bytes) (r : Range D)
      → ((parse_bounds F m parts r).1 ≡ error) ↔ IsRefused (end_of parts)
  unfolding parse_bounds
  parse_bounds-error m (token, none) r = rw finish-status (parse_end-error m token r)
  parse_bounds-error m (token, some rest) r =
      rw finish-status (parse_end-error m rest (parse_start F m token r))

  -- A text is refused exactly if the part behind the first colon (all of it where there is none, a
  -- leading `@` aside) is no bound. The part before the colon is never looked at.
  pub parse_range_string-error :
      (m : Multiplier) (s : Bytes) → ((parse_range_string F m s).1 ≡ error) ↔ IsRefused (end_part s)
  unfolding parse_range_string
  parse_range_string-error m [] = parse_bounds-error m (split_colon []) (defaults F)
  parse_range_string-error m (c ∷ s) = elim (Bool-cases (c == b'@')) [
    | inl e ↦
        rw e (parse_bounds-error m (split_colon s) (record (defaults F) { alert_on = inside }))
    | inr e ↦ rw e (parse_bounds-error m (split_colon (c ∷ s)) (defaults F))
  ]

  -- A text that `parse_range_string` reads as a number of its own, with what `strtod` makes of it.
  pub record IsNumber (s : Bytes) (v : D) (rest : Bytes) : Type 0 where
    pub no_colon : All (λ c. (c == b':') ≡ false) s
    pub plain : (head s ≢ b'~') × (head s ≢ b'@') × (head s ≢ 0)
    pub reads : strtod s ≡ some (v, rest)

  -- The range that two numbers stand for, before they are put in order.
  abbrev pub between : Multiplier → D → Bytes → D → Bytes → Range D
  between m v rest w rest' = record (defaults F) {
    start = resolve F m v rest;
    start_percent = is_percent F rest;
    end = resolve F m w rest';
    end_percent = is_percent F rest';
  }

  module _ (m : Multiplier) {a b : Bytes} {v w : D} {va wb : Bytes} (first : IsNumber a v va)
      (second : IsNumber b w wb) where
    parse_two :
        parse_bounds F m (a, some b) (defaults F) ≡ (order_bounds F (between m v va w wb), accepted)
    unfolding parse_bounds parse_start parse_end finish
    parse_two = ground (arith, first.plain, first.reads, second.plain, second.reads)

  pub parse_colon :
      (m : Multiplier) (a b : Bytes) {v w : D} {va wb : Bytes}
      → IsNumber a v va
      → IsNumber b w wb
      → parse_range_string F m (a ++ b':' ∷ b) ≡ (order_bounds F (between m v va w wb), accepted)
  unfolding parse_range_string
  parse_colon m [] b first second = absurd (first.plain.2 refl)
  parse_colon m (c ∷ a) b first second =
      let split : split_colon ((c ∷ a) ++ b':' ∷ b) ≡ (c ∷ a, some b) =
        strsep-some (λ c. c == b':') (c ∷ a) b':' b first.no_colon refl in
      elim (Bool-cases (c == b'@')) [
        | inl e ↦ absurd (first.plain.1 ((==_iff _ _).0 e))
        | inr e ↦ rw (e, split) (parse_two m first second)
      ]

  -- Two numbers without percent signs, whose scaled values are one below the other, give the same range
  -- in either order of the text, with the lower one as its start. (Of equal values, as -0 and 0, and of NaN
  -- nothing is said.)
  pub parse_range_string-swap :
      (m : Multiplier) (a b : Bytes) {v w : D} {va wb : Bytes}
      → IsNumber a v va
      → IsNumber b w wb
      → is_percent F va ≡ false
      → is_percent F wb ≡ false
      → le (resolve F m v va) (resolve F m w wb) ≡ true
      → le (resolve F m w wb) (resolve F m v va) ≡ false
      → (parse_range_string F m (a ++ b':' ∷ b) ≡ (between m v va w wb, accepted))
        × (parse_range_string F m (b ++ b':' ∷ a) ≡ (between m v va w wb, accepted))
  unfolding order_bounds
  parse_range_string-swap m a b first second p q below above =
      rw (parse_colon m a b first second, parse_colon m b a second first)
        (ground (arith, below), ground (arith, above, p, q))
