-- ===== src/Range/Print.antt =====
-- `str_range` against `parse_range_string`.
use monitoringplug.Base.{
  true, false, Option, none, some, [], ◌∷◌, ◌++◌, ◌≡◌, refl, ap, ◌∙◌, ◌⊎◌, inl, inr, arith, Bytes,
  ◌==◌, ==_iff, Bool-cases, append-nil,
}
use monitoringplug.Text.{strsep}
use monitoringplug.Text.Laws.{strsep-none, strsep-some}
use monitoringplug.Range.{
  Doubles, outside, noext, accepted, Range, defaults, parse_start, parse_end, order_bounds, finish,
  parse_bounds, parse_range_string, split_colon, resolve, str_range,
}
use monitoringplug.Range.Parse.{IsNumber, IsOrdered, parse_colon}

module _ (F : Doubles) where
  open F use {D, of_nat, le, eq, print3}

  -- `%.3f` writes the value as a number that `strtod` reads back whole.
  abbrev pub Survives : D → Type 0
  Survives d = IsNumber F (print3 d) d []

  -- What a print keeps of a range: it alerts outside, has no percentages, its bounds are in order,
  -- an infinite bound has the value 0, and no other value is equal to 0.
  pub record IsCanonical (r : Range D) : Type 0 where
    pub alert : r.alert_on ≡ outside
    pub absolute : (r.start_percent ≡ false) × (r.end_percent ≡ false)
    pub ordered : IsOrdered F r
    pub start_default : r.start_infinity ≡ true → r.start ≡ of_nat 0
    pub end_default : r.end_infinity ≡ true → r.end ≡ of_nat 0
    pub zero_start : eq r.start (of_nat 0) ≡ true → r.start ≡ of_nat 0

  parse_end-number :
      {s : Bytes} {v : D} (r : Range D)
      → IsNumber F s v []
      → parse_end F noext s r ≡ (record r { end = v; end_percent = false }, accepted)
  unfolding parse_end
  parse_end-number r h = ground (arith, h.plain, h.reads)

  parse_start-number :
      {s : Bytes} {v : D} (r : Range D)
      → IsNumber F s v []
      → parse_start F noext s r ≡ record r { start = v; start_percent = false }
  unfolding parse_start
  parse_start-number r h = ground (arith, h.plain, h.reads)

  -- a text that does not begin with `@`, split at its colon
  parse_plain :
      (c : _) (s : Bytes)
      → (c == b'@') ≡ false
      → parse_range_string F noext (c ∷ s) ≡ parse_bounds F noext (split_colon (c ∷ s)) (defaults F)
  unfolding parse_range_string
  parse_plain c s h = rw h

  parse_number :
      (s : Bytes) (parts : Bytes × Option Bytes) {v : D} (t : Bytes)
      → IsNumber F s v []
      → split_colon (s ++ t) ≡ parts
      → parse_range_string F noext (s ++ t) ≡ parse_bounds F noext parts (defaults F)
  parse_number [] parts t h e = absurd (h.plain.2 refl)
  parse_number (c ∷ s) parts t h e = elim (Bool-cases (c == b'@')) [
    | inl f ↦ absurd (h.plain.1 ((==_iff _ _).0 f))
    | inr f ↦ parse_plain c (s ++ t) f ∙ ap (λ q. parse_bounds F noext q (defaults F)) e
  ]

  parse_tilde :
      (rest : Bytes)
      → parse_range_string F noext (b'~' ∷ b':' ∷ rest)
        ≡ finish F (parse_end F noext rest (record (defaults F) { start_infinity = true }))
  unfolding parse_range_string parse_bounds parse_start strsep
  parse_tilde rest = refl

  module _ (r : Range D) (c : IsCanonical r) where
    print-both :
        r.start_infinity ≡ true
        → r.end_infinity ≡ true
        → parse_range_string F noext (str_range F (some r)) ≡ (r, accepted)
    print-both h k =
        let text : str_range F (some r) ≡ b'~' ∷ b':' ∷ [] = unfold str_range in ground arith in
        ap (parse_range_string F noext) text
        ∙ parse_tilde []
        ∙ unfold finish parse_end order_bounds in ground (arith, c.start_default h, c.end_default k)

    print-end :
        r.start_infinity ≡ true
        → r.end_infinity ≡ false
        → Survives r.end
        → parse_range_string F noext (str_range F (some r)) ≡ (r, accepted)
    print-end h k n =
        let text : str_range F (some r) ≡ b'~' ∷ b':' ∷ print3 r.end =
          unfold str_range in ground arith in
        ap (parse_range_string F noext) text
        ∙ parse_tilde (print3 r.end)
        ∙ ap (finish F) (parse_end-number _ n)
        ∙ unfold finish order_bounds in ground (arith, c.start_default h)

    print-zero :
        r.start_infinity ≡ false
        → eq r.start (of_nat 0) ≡ true
        → r.end_infinity ≡ false
        → Survives r.end
        → parse_range_string F noext (str_range F (some r)) ≡ (r, accepted)
    print-zero h z k n =
        let text : str_range F (some r) ≡ print3 r.end ++ [] =
          unfold str_range in ground (arith, append-nil (print3 r.end)) in
        ap (parse_range_string F noext) text
        ∙ parse_number (print3 r.end) (print3 r.end, none) [] n
            (rw append-nil (strsep-none (λ c. c == b':') _ n.no_colon))
        ∙ unfold parse_bounds in
          ap (finish F) (parse_end-number _ n)
          ∙ unfold finish order_bounds in ground (arith, c.zero_start z)

    print-start :
        r.start_infinity ≡ false
        → eq r.start (of_nat 0) ≡ false
        → r.end_infinity ≡ true
        → Survives r.start
        → parse_range_string F noext (str_range F (some r)) ≡ (r, accepted)
    print-start h z k n =
        let text : str_range F (some r) ≡ print3 r.start ++ b':' ∷ [] =
          unfold str_range in ground arith in
        ap (parse_range_string F noext) text
        ∙ parse_number (print3 r.start) (print3 r.start, some []) (b':' ∷ []) n
            (strsep-some (λ c. c == b':') _ b':' [] n.no_colon refl)
        ∙ unfold parse_bounds in
          ap (λ q. finish F (parse_end F noext [] q)) (parse_start-number _ n)
          ∙ unfold finish parse_end order_bounds in ground (arith, c.end_default k)

    print-finite :
        r.start_infinity ≡ false
        → eq r.start (of_nat 0) ≡ false
        → r.end_infinity ≡ false
        → Survives r.start
        → Survives r.end
        → parse_range_string F noext (str_range F (some r)) ≡ (r, accepted)
    print-finite h z k n n' =
        let text : str_range F (some r) ≡ print3 r.start ++ b':' ∷ print3 r.end =
          unfold str_range in ground arith in
        ap (parse_range_string F noext) text
        ∙ parse_colon F noext (print3 r.start) (print3 r.end) n n'
        ∙ unfold order_bounds resolve in ground arith

    -- A range is read back from its print without multipliers, if it alerts outside, has no
    -- percentages, has its bounds in order, has the value 0 where a bound is infinite and no other value
    -- that is equal to 0, if both its values survive `%.3f`, and if it does not run from 0 to infinity.
    pub parse_range_string-str_range :
        Survives r.start
        → Survives r.end
        → (r.start_infinity ≡ true) ⊎ ((eq r.start (of_nat 0) ≡ false) ⊎ (r.end_infinity ≡ false))
        → parse_range_string F noext (str_range F (some r)) ≡ (r, accepted)
    parse_range_string-str_range n n' nontrivial = elim (Bool-cases r.start_infinity) [
      | inl h ↦ elim (Bool-cases r.end_infinity) [
        | inl k ↦ print-both h k
        | inr k ↦ print-end h k n'
      ]
      | inr h ↦ elim (Bool-cases (eq r.start (of_nat 0))) [
        | inl z ↦ print-zero h z (ground arith) n'
        | inr z ↦ elim (Bool-cases r.end_infinity) [
          | inl k ↦ print-start h z k n
          | inr k ↦ print-finite h z k n n'
        ]
      ]
    ]

  -- A range from 0 to infinity is printed like the one from 0 to its unused end value: the mark of
  -- the infinite end is lost.
  pub str_range-zero_infinity :
      (r : Range D)
      → r.start_infinity ≡ false
      → eq r.start (of_nat 0) ≡ true
      → (str_range F (some r) ≡ str_range F (some (record r { end_infinity = false })))
        × (str_range F (some r) ≡ print3 r.end)
  unfolding str_range
  str_range-zero_infinity r h z = (ground arith, ground arith)
