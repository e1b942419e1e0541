-- ===== src/Args/Options.antt =====
-- What each option function stores and refuses, and what a status is after the options.
use monitoringplug.Base.{
  Bool, true, false, Option, none, some, ◌≡◌, ◌≢◌, refl, sym, ap, ◌∙◌, ◌⊎◌, ◌↔◌, inl, inr, Bytes,
  Bool-cases, if◌then◌else◌,
}
use monitoringplug.Base.Int.{ℤ}
use monitoringplug.Text.{contains, strtol, decimal_ℤ}
use monitoringplug.Text.Decimal.{strtol-decimal_ℤ}
use monitoringplug.Check.{is_integer, is_hostname}
use monitoringplug.Check.Integer.{IsInt, is_integer_iff, is_integer-decimal_ℤ}
use monitoringplug.Check.Hostname.{IsHostname, is_hostname_iff}
use monitoringplug.Utils.Push.{to_int-IsInt, IsInt-IsLong}
use monitoringplug.Range.{
  Doubles, Range, Thresholds, accepted, Multiplier, inside, parse_range_string, check_range,
  get_status, set_warning_range, set_critical_range,
}
use monitoringplug.Range.Check.{InRange, check_range_lem}
use monitoringplug.Args.{Result, stored, refused, getopt_host, getopt_port, getopt_wc, getopt_wc_at}

-- A host argument is stored as it is exactly if it is a host name, or an address that the machine
-- knows.
pub getopt_host_iff :
    (is_hostaddr : Bytes → Bool) (s : Bytes)
    → (getopt_host is_hostaddr s ≡ stored s) ↔ (IsHostname s ⊎ (is_hostaddr s ≡ true))
unfolding getopt_host
getopt_host_iff is_hostaddr s =
    let (sound, complete) = is_hostname_iff s in
    elim (Bool-cases (is_hostname s)) [
      | inl e ↦ rw e (λ h. inl (sound e), λ h. refl)
      | inr e ↦ elim (Bool-cases (is_hostaddr s)) [
        | inl f ↦ rw (e, f) (λ h. inr refl, λ h. refl)
        | inr f ↦ rw (e, f) (λ h. cc, λ h. elim h [ inl k ↦ cc (complete k) | inr k ↦ cc ])
      ]
    ]

port_stored : (s : Bytes) → is_integer (some s) ≡ true → getopt_port s ≡ stored (strtol s).0
unfolding getopt_port
port_stored s e = rw e (ap stored (to_int-IsInt (strtol s).0 ((is_integer_iff s).0 e).2))

port_refused : (s : Bytes) (n : ℤ) → is_integer (some s) ≡ false → getopt_port s ≢ stored n
unfolding getopt_port
port_refused s n e h = cc (rw e at h)

-- A port argument is stored exactly if `is_integer` passes it, and what is stored is the number that
-- `strtol` reads: the cast to `int` loses nothing.
pub getopt_port_iff :
    (s : Bytes) (n : ℤ)
    → (getopt_port s ≡ stored n) ↔ ((is_integer (some s) ≡ true) × ((strtol s).0 ≡ n))
getopt_port_iff s n = elim (Bool-cases (is_integer (some s))) [
  | inl e ↦ (λ h. (e, value (sym (port_stored s e) ∙ h)), λ (a, b). port_stored s e ∙ ap stored b)
  | inr e ↦ (λ h. absurd (port_refused s n e h), λ (a, b). cc)
]
  where
    value : {a b : ℤ} → stored a ≡ stored b → a ≡ b
    value h = cc

-- An `int` printed in decimal is stored as that number.
pub getopt_port-decimal_ℤ : (n : ℤ) → IsInt n → getopt_port (decimal_ℤ n) ≡ stored n
getopt_port-decimal_ℤ n h =
    let long = IsInt-IsLong n h in
    (getopt_port_iff (decimal_ℤ n) n).1
      ((is_integer-decimal_ℤ n long).1 h, ap (λ p. p.0) (strtol-decimal_ℤ n long))

infixl 5 ◌>>=◌
abbrev pub ◌>>=◌ {ℓ κ} : {A : Type ℓ} {B : Type κ} → Result A → (A → Result B) → Result B
stored a >>= f = f a
refused s >>= f = refused s

module _ (F : Doubles) where
  open F use {D}

  module _ (m : Multiplier) (a b : Bytes) {r s : Range D}
      (first : parse_range_string F m a ≡ (r, accepted))
      (second : parse_range_string F m b ≡ (s, accepted)) where
    abbrev pub both : Thresholds D
    both = record { warning = some r; critical = some s }

    warning_then_critical :
        (getopt_wc F m b'w' a none >>= getopt_wc F m b'c' b) ≡ stored (some both)
    unfolding getopt_wc set_warning_range set_critical_range
    warning_then_critical = rw (first, second) refl

    critical_then_warning :
        (getopt_wc F m b'c' b none >>= getopt_wc F m b'w' a) ≡ stored (some both)
    unfolding getopt_wc set_warning_range set_critical_range
    critical_then_warning = rw (second, first) refl

    -- With both range texts accepted, `-w` and `-c` in either order give the same thresholds, by which a
    -- value is critical if the range of `-c` raises an alert, else a warning if that of `-w` does.
    pub getopt_wc_lem :
        (value : D)
        → ((getopt_wc F m b'w' a none >>= getopt_wc F m b'c' b)
            ≡ (getopt_wc F m b'c' b none >>= getopt_wc F m b'w' a))
          × (t : Option (Thresholds D)) × ((getopt_wc F m b'w' a none >>= getopt_wc F m b'c' b)
              ≡ stored t)
          × (get_status F value t
              ≡ (if check_range F value s then 2 else if check_range F value r then 1 else 0))
    unfolding get_status
    getopt_wc_lem value =
        (warning_then_critical ∙ sym critical_then_warning, some both, warning_then_critical, refl)

  -- An accepted warning range without a colon is stored to raise an alert for exactly the values inside
  -- it, and the critical range stays.
  pub getopt_wc_at-inside :
      (m : Multiplier) (a : Bytes) (t : Thresholds D) (value : D) {r : Range D}
      → parse_range_string F m a ≡ (r, accepted)
      → contains b':' a ≡ false
      → (q : Range D) × (getopt_wc_at F m b'w' a (some t)
          ≡ stored (some (record t { warning = some q })))
        × ((check_range F value q ≡ true) ↔ InRange F value r)
  unfolding getopt_wc_at set_warning_range
  getopt_wc_at-inside m a t value {r} parsed plain = (
    record r { alert_on = inside },
    rw (parsed, plain) refl,
    check_range_lem F value (record r { alert_on = inside }),
  )
