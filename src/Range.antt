-- ===== src/Range.antt =====
-- lib/mp_args.c: ranges and thresholds. `double`, `strtod` and `printf("%.3f")` are those of the
-- machine and the C library, a record `Doubles` that every definition here takes. `strtod` is `none`
-- where it converts nothing (the end pointer is then the start of the text, and the value 0).
pub mod Check
pub mod Parse
pub mod Print
pub mod Naturals
mod Tests
use monitoringplug.Base.{
  ℕ, Bool, true, false, not, ◌&&◌, ◌||◌, Option, none, some, [], ◌∷◌, ◌++◌, Bytes, codes, ◌==◌,
  if◌then◌else◌,
}
use monitoringplug.Text.{head, strsep}

pub record Doubles : Type 1 where
  pub D : Type 0
  pub of_nat : ℕ → D
  pub lt : D → D → Bool
  pub le : D → D → Bool
  pub eq : D → D → Bool
  pub mul : D → D → D
  pub div : D → D → D
  pub strtod : Bytes → Option (D × Bytes)
  pub print3 : D → Bytes

pub data Alert : Type 0 where
  outside inside : Alert

pub data Multiplier : Type 0 where
  noext bisi time : Multiplier

pub data Status : Type 0 where
  accepted error : Status

pub record Range (D : Type 0) : Type 0 where
  pub start : D
  pub start_infinity : Bool
  pub start_percent : Bool
  pub end : D
  pub end_infinity : Bool
  pub end_percent : Bool
  pub alert_on : Alert

pub record Thresholds (D : Type 0) : Type 0 where
  pub warning : Option (Range D)
  pub critical : Option (Range D)

unfoldable pub multiplier_value : Bytes → ℕ
multiplier_value s =
    let c = head s in
    if c == b'k'
    then 1000
    else if c == b'K'
    then 1024
    else if c == b'm'
    then 1000000
    else if c == b'M'
    then 1048578
    else if c == b'g'
    then 1000000000
    else if c == b'G'
    then 1073741824
    else if c == b't'
    then 1000000000000
    else if c == b'T'
    then 1099511627776
    else if c == b'p'
    then 1000000000000000
    else if c == b'P'
    then 1125899906842624
    else if c == b'e'
    then 1000000000000000000
    else if c == b'E'
    then 1152921504606846976
    else 1

unfoldable pub time_multiplier_value : Bytes → ℕ
time_multiplier_value s =
    let c = head s in
    if c == b'm'
    then 60
    else if c == b'h'
    then 3600
    else if c == b'd'
    then 86400
    else if c == b'w'
    then 604800
    else 1

-- `strsep(&end_str, ":")`
abbrev pub split_colon : Bytes → Bytes × Option Bytes
split_colon s = strsep (λ c. c == b':') s

module _ (F : Doubles) where
  open F use {D, of_nat, lt, le, eq, mul, div, strtod, print3}

  -- "Set defaults"
  abbrev pub defaults : Range D
  defaults = record {
    start = of_nat 0;
    start_infinity = false;
    start_percent = false;
    end = of_nat 0;
    end_infinity = false;
    end_percent = false;
    alert_on = outside;
  }

  unfoldable pub parse_multiplier_string : Bytes → D
  unfolding multiplier_value
  parse_multiplier_string s = of_nat (multiplier_value s)

  unfoldable pub parse_time_multiplier_string : Bytes → D
  unfolding time_multiplier_value
  parse_time_multiplier_string s = of_nat (time_multiplier_value s)

  -- `switch(multiplier)`, on the text behind the number
  unfoldable pub scale : Multiplier → Bytes → D → D
  unfolding parse_multiplier_string parse_time_multiplier_string
  scale noext s v = v
  scale bisi s v = mul v (parse_multiplier_string s)
  scale time s v = mul v (parse_time_multiplier_string s)

  abbrev pub is_percent : Bytes → Bool
  is_percent s = head s == b'%'

  -- the value of a number read, with the text behind it
  unfoldable pub resolve : Multiplier → D → Bytes → D
  unfolding scale
  resolve m v s = scale m s (if is_percent s then div v (of_nat 100) else v)

  -- The part before the colon. The test `str == eptr` compares a pointer into the argument with one
  -- into its copy, so it never holds: a start that is no number is read as 0.
  unfoldable pub parse_start : Multiplier → Bytes → Range D → Range D
  unfolding resolve
  parse_start m s r =
      if head s == b'~' then record r { start_infinity = true } else elim (strtod s) [
        | none ↦ record r { start = resolve m (of_nat 0) s; start_percent = is_percent s }
        | some (v, rest) ↦ record r { start = resolve m v rest; start_percent = is_percent rest }
      ]

  unfoldable pub parse_end : Multiplier → Bytes → Range D → Range D × Status
  unfolding resolve
  parse_end m s r =
      if head s == b'~' || head s == 0
      then (record r { end_infinity = true }, accepted)
      else elim (strtod s) [
        | none ↦ (record r { end = of_nat 0 }, error)
        | some (v, rest) ↦
            (record r { end = resolve m v rest; end_percent = is_percent rest }, accepted)
      ]

  -- the bounds in order, if there are two
  unfoldable pub order_bounds : Range D → Range D
  order_bounds r =
      if r.start_infinity || r.end_infinity || le r.start r.end
      then r
      else record r { start = r.end; end = r.start }

  unfoldable pub finish : Range D × Status → Range D × Status
  unfolding order_bounds
  finish (r, accepted) = (order_bounds r, accepted)
  finish (r, error) = (r, error)

  -- from `strsep(&end_str, ":")` on
  unfoldable pub parse_bounds : Multiplier → Bytes × Option Bytes → Range D → Range D × Status
  unfolding parse_start parse_end finish
  parse_bounds m (token, none) r = finish (parse_end m token r)
  parse_bounds m (token, some rest) r = finish (parse_end m rest (parse_start m token r))

  -- The range written, also where the text is refused, and the value returned.
  unfoldable pub parse_range_string : Multiplier → Bytes → Range D × Status
  unfolding parse_bounds
  parse_range_string m [] = parse_bounds m (split_colon []) defaults
  parse_range_string m (c ∷ s) =
      if c == b'@'
      then parse_bounds m (split_colon s) (record defaults { alert_on = inside })
      else parse_bounds m (split_colon (c ∷ s)) defaults

  abbrev pub is_outside : Alert → Bool
  is_outside outside = true
  is_outside inside = false

  unfoldable pub check_range : D → Range D → Bool
  check_range value r =
      if lt value r.start && not r.start_infinity
      then is_outside r.alert_on
      else if lt r.end value && not r.end_infinity
      then is_outside r.alert_on
      else not (is_outside r.alert_on)

  abbrev pub alerts : D → Option (Range D) → Bool
  alerts value none = false
  alerts value (some r) = check_range value r

  -- the plugin state: 0, 1 or 2
  unfoldable pub get_status : D → Option (Thresholds D) → ℕ
  get_status value none = 0
  get_status value (some t) =
      if alerts value t.critical then 2 else if alerts value t.warning then 1 else 0

  abbrev no_thresholds : Option (Thresholds D) → Thresholds D
  no_thresholds none = record { warning = none; critical = none }
  no_thresholds (some t) = t

  -- `mp_threshold_set_warning`, and with `time` `mp_threshold_set_warning_time`
  unfoldable pub set_warning_range :
      Multiplier → Bytes → Option (Thresholds D) → Thresholds D × Status
  unfolding parse_range_string
  set_warning_range m s t =
      let (r, status) = parse_range_string m s in
      (record (no_thresholds t) { warning = some r }, status)

  -- `mp_threshold_set_critical`, and with `time` `mp_threshold_set_critical_time`
  unfoldable pub set_critical_range :
      Multiplier → Bytes → Option (Thresholds D) → Thresholds D × Status
  unfolding parse_range_string
  set_critical_range m s t =
      let (r, status) = parse_range_string m s in
      (record (no_thresholds t) { critical = some r }, status)

  unfoldable pub str_range : Option (Range D) → Bytes
  str_range none = []
  str_range (some r) =
      if r.start_infinity
      then if r.end_infinity then codes "~:" else codes "~:" ++ print3 r.end
      else if eq r.start (of_nat 0)
      then print3 r.end
      else if r.end_infinity
      then print3 r.start ++ (b':' ∷ [])
      else print3 r.start ++ (b':' ∷ print3 r.end)
