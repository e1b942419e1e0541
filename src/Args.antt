-- ===== src/Args.antt =====
-- lib/mp_args.c: the functions that take an option's argument. `usage` prints and leaves the plugin,
-- which is the result `refused` with the text; otherwise the new value of what the argument is for.
pub mod Options
mod Tests
use monitoringplug.Base.{
  ℕ, Bool, true, false, not, ◌||◌, ◌&&◌, Option, none, some, [], ◌∷◌, ◌++◌, Bytes, codes, ◌==◌,
  if◌then◌else◌,
}
use monitoringplug.Base.Int.{ℤ}
use monitoringplug.Text.{contains, strtol}
use monitoringplug.Check.{is_integer, is_hostname}
use monitoringplug.Check.Url.{is_url}
use monitoringplug.Utils.{to_int}
use monitoringplug.Range.{
  Doubles, Range, Thresholds, Status, accepted, error, Multiplier, bisi, time, inside,
  set_warning_range, set_critical_range,
}

pub data Result {ℓ} (A : Type ℓ) : Type ℓ where
  stored : A → Result A
  refused : Bytes → Result A

abbrev pub illegal : Bytes → Bytes → Bytes
illegal what optarg = codes "Illegal " ++ (what ++ (codes " '" ++ (optarg ++ codes "'.")))

module _ (is_hostaddr : Bytes → Bool) where
  unfoldable pub getopt_host : Bytes → Result Bytes
  getopt_host optarg =
      if not (is_hostname optarg) && not (is_hostaddr optarg)
      then refused (illegal (codes "host argument") optarg)
      else stored optarg

  unfoldable pub getopt_host_ip : Bytes → Result Bytes
  getopt_host_ip optarg =
      if not (is_hostaddr optarg)
      then refused (illegal (codes "Host-IP argument") optarg)
      else stored optarg

  unfoldable pub getopt_url : Bytes → Result Bytes
  getopt_url optarg =
      if not (is_url is_hostaddr optarg)
      then refused (illegal (codes "url") optarg)
      else stored optarg

unfoldable pub getopt_port : Bytes → Result ℤ
unfolding to_int
getopt_port optarg =
    if not (is_integer (some optarg))
    then refused (illegal (codes "port number") optarg)
    else stored (to_int (strtol optarg).0)

module _ (F : Doubles) where
  open F use {D}

  -- a range that was set, or `usage`
  abbrev pub or_usage : Bytes → Bytes → Thresholds D × Status → Result (Option (Thresholds D))
  or_usage option optarg (t, accepted) = stored (some t)
  or_usage option optarg (t, error) = refused (illegal (option ++ codes " threshold") optarg)

  -- `getopt_wc`, and with `time` `getopt_wc_time`
  unfoldable pub getopt_wc :
      Multiplier → ℕ → Bytes → Option (Thresholds D) → Result (Option (Thresholds D))
  unfolding set_warning_range set_critical_range
  getopt_wc m c optarg t =
      if c == b'w'
      then or_usage (codes "-w") optarg (set_warning_range F m optarg t)
      else if c == b'c'
      then or_usage (codes "-c") optarg (set_critical_range F m optarg t)
      else stored t

  abbrev pub alert_inside : Option (Range D) → Option (Range D)
  alert_inside none = none
  alert_inside (some r) = some (record r { alert_on = inside })

  -- `if (!strchr(optarg, ':')) (*threshold)->warning->alert_on = INSIDE;`
  abbrev pub warning_at : Bytes → Result (Option (Thresholds D)) → Result (Option (Thresholds D))
  warning_at optarg (stored (some t)) = stored (
      some
        (if not (contains b':' optarg) then record t { warning = alert_inside t.warning } else t))
  warning_at optarg r = r

  abbrev pub critical_at : Bytes → Result (Option (Thresholds D)) → Result (Option (Thresholds D))
  critical_at optarg (stored (some t)) = stored (
      some
        (if not (contains b':' optarg) then record t { critical = alert_inside t.critical } else t))
  critical_at optarg r = r

  -- `getopt_wc_at`, and with `time` `getopt_wc_time_at`
  unfoldable pub getopt_wc_at :
      Multiplier → ℕ → Bytes → Option (Thresholds D) → Result (Option (Thresholds D))
  unfolding set_warning_range set_critical_range contains
  getopt_wc_at m c optarg t =
      if c == b'w'
      then warning_at optarg (or_usage (codes "-w") optarg (set_warning_range F m optarg t))
      else if c == b'c'
      then critical_at optarg (or_usage (codes "-c") optarg (set_critical_range F m optarg t))
      else stored t

pub data Family : Type 0 where
  unspec inet inet6 : Family

-- with and without `USE_IPV6`
unfoldable pub getopt_46 : Bool → ℕ → Family → Family
getopt_46 false c family = inet
getopt_46 true c unspec = if c == b'4' then inet else if c == b'6' then inet6 else unspec
getopt_46 true c inet = if c == b'6' then unspec else inet
getopt_46 true c inet6 = if c == b'4' then unspec else inet6
