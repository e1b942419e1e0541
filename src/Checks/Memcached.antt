-- ===== src/Checks/Memcached.antt =====
-- base/check_memcached.c: the answer of a memcached server to `stats`. The connection is a socket that
-- `mp_recv_line` reads; connecting, sending and the clock are left to the parameters. `of_long` and
-- `print` are those of the performance data.
mod Tests
pub mod Reply
use monitoringplug.Base.{
  ℕ, zero, suc, ◌+◌, Bool, true, false, not, ◌||◌, Option, none, some, List, [], ◌∷◌, ◌++◌, Bytes,
  codes, length, drop, ◌==◌, if◌then◌else◌,
}
use monitoringplug.Base.Int.{ℤ, pos, negsuc}
use monitoringplug.Text.{str_eq, starts_with, strsep, strtol}
use monitoringplug.Utils.{to_int}
use monitoringplug.Range.{
  Doubles, Thresholds, time, get_status, set_warning_range, set_critical_range,
}
use monitoringplug.Args.{Family, unspec, getopt_46, getopt_host, getopt_port}
use monitoringplug.Output.{Plugin, Exit, ok, critical, timeout_alarm_handler}
use monitoringplug.Perfdata.{perfdata_int, perfdata_int3, perfdata_float}
use monitoringplug.Net.{Socket, Received, received, waiting, before_line, recv_line}
use monitoringplug.Getopt.{
  Outcome, completed, left, fault, ◌>>=◌, Program, Globals, Event, with_arg, use_error, or_leave,
  process_options, take_thresholds,
}

-- `mc_version`, `mc_bytes` and `mc_limit_maxbytes`, and the plugin with its performance data
pub record State : Type 0 where
  pub version : Option Bytes
  pub bytes : ℤ
  pub limit_maxbytes : ℤ
  pub plugin : Plugin

abbrev pub is_blank : ℕ → Bool
is_blank c = c == b' '

pub record Settings (D : Type 0) : Type 0 where
  pub hostname : Bytes
  pub port : ℤ
  pub ipv : Family
  pub time_thresholds : Option (Thresholds D)

module _ (F : Doubles) (of_long : ℤ → F.D) where
  -- `mp_perfdata_int(label, strtol(value, NULL, 10), "c", NULL)`
  unfoldable pub count_of : Bytes → Bytes → Plugin → Plugin
  unfolding perfdata_int strtol
  count_of label value p = record p {
    perfdata =
        (perfdata_int F of_long p.show_perfdata label (strtol value).0 (codes "c") none
          p.perfdata).0;
  }

  -- a key with its value, which is there
  unfoldable pub take_value : Bytes → Bytes → State → State
  unfolding str_eq starts_with strtol to_int count_of
  take_value key value s =
      if str_eq key (codes "limit_maxbytes")
      then record s { limit_maxbytes = to_int (strtol value).0 }
      else if str_eq key (codes "bytes")
      then record s { bytes = to_int (strtol value).0 }
      else if str_eq key (codes "total_connections")
      then record s { plugin = count_of (codes "connections") value s.plugin }
      else if str_eq key (codes "total_items")
      then record s { plugin = count_of (codes "total_items") value s.plugin }
      else if str_eq key (codes "curr_items")
      then record s { plugin = count_of (codes "items") value s.plugin }
      else if str_eq key (codes "evictions")
      then record s { plugin = count_of (codes "evictions") value s.plugin }
      else if starts_with key (codes "cmd_")
      then record s { plugin = count_of (drop 4 key) value s.plugin }
      else s

  -- whether the code reads the value of a key
  unfoldable pub reads_value : Bytes → Bool
  unfolding str_eq starts_with
  reads_value key =
      str_eq key (codes "limit_maxbytes")
      || (str_eq key (codes "bytes")
          || (str_eq key (codes "total_connections")
              || (str_eq key (codes "total_items")
                  || (str_eq key (codes "curr_items")
                      || (str_eq key (codes "evictions") || starts_with key (codes "cmd_"))))))

  -- the branch "STAT ", for the key and what stands behind it
  unfoldable pub take_stat : Bytes × Option Bytes → State → Outcome State
  unfolding str_eq take_value reads_value
  take_stat (key, none) s =
      if str_eq key (codes "version")
      then fault
      else if not s.plugin.show_perfdata
      then completed s
      else if reads_value key
      then fault
      else completed s
  take_stat (key, some value) s =
      if str_eq key (codes "version")
      then completed (record s { version = some value })
      else if not s.plugin.show_perfdata
      then completed s
      else completed (take_value key value s)

  abbrev pub no_stats : Plugin → Exit
  no_stats p = critical (codes "Memcached don't handle stats command.") p

  -- the loop, on fuel; a wait is ended by the alarm, with the exit given
  unfoldable pub read_stats : Exit → ℕ → Socket → State → Outcome State
  unfolding recv_line starts_with strsep take_stat critical
  read_stats alarm zero socket s = fault
  read_stats alarm (suc fuel) socket s = elim (recv_line socket) [
    | waiting ↦ left alarm
    | before_line ↦ fault
    | received line rest ↦
        if starts_with line (codes "STAT ")
        then take_stat (strsep is_blank (drop 5 line)) s >>= read_stats alarm fuel rest
        else if starts_with line (codes "END")
        then completed s
        else left (no_stats s.plugin)
  ]

  abbrev pub printed : Option Bytes → Bytes
  printed none = codes "(null)"
  printed (some s) = s

  -- `switch(get_status(time_delta, time_thresholds))`
  unfoldable pub leave : ℕ → Option Bytes → Plugin → Exit
  unfolding ok critical
  leave status version p =
      if status == 0
      then ok (codes "Memcached " ++ printed version) p
      else if status == 1
      then ok (codes "Memcached " ++ (printed version ++ codes " is slow.")) p
      else if status == 2
      then ok (codes "Memcached " ++ (printed version ++ codes " is real slow.")) p
      else critical (codes "You should never reach this point.") p

  -- behind the loop: the performance data, and the thresholds, which are resolved in place
  unfoldable pub measure :
      (ℕ → F.D → Bytes) → F.D → Option (Thresholds F.D) → State → Plugin × Option (Thresholds F.D)
  unfolding perfdata_int3 perfdata_float
  measure print time_delta thresholds s =
      let p = s.plugin in
      if not p.show_perfdata
      then (p, thresholds)
      else (let sized =
            perfdata_int3 F of_long p.show_perfdata (codes "bytes") s.bytes [] none none
              (some (pos 0)) (some s.limit_maxbytes) p.perfdata in
          let (timed, resolved) =
            perfdata_float F print p.show_perfdata (codes "time") time_delta (codes "s") thresholds
              sized in
          (record p { perfdata = timed }, resolved))

  unfoldable pub finish : (ℕ → F.D → Bytes) → F.D → Option (Thresholds F.D) → State → Exit
  unfolding measure get_status leave
  finish print time_delta thresholds s =
      let (p, resolved) = measure print time_delta thresholds s in
      leave (get_status F time_delta resolved) s.version p

  -- `main` behind the connection
  unfoldable pub check :
      (ℕ → F.D → Bytes) → Exit → ℕ → F.D → Option (Thresholds F.D) → Socket → Plugin → Outcome Exit
  unfolding read_stats finish
  check print alarm fuel time_delta thresholds socket p = do
    s ←
        read_stats alarm fuel socket
          (record { version = none; bytes = negsuc 0; limit_maxbytes = negsuc 0; plugin = p })
    completed (finish print time_delta thresholds s)

  -- the default values
  abbrev pub default_settings : Settings F.D
  default_settings =
      let t = (set_warning_range F time (codes "3s") none).0 in
      record {
        hostname = codes "localhost";
        port = pos 11211;
        ipv = unspec;
        time_thresholds = some (set_critical_range F time (codes "4s") (some t)).0;
      }

  module _ (is_hostaddr : Bytes → Bool) (use_ipv6 : Bool) (g : Program) where
    -- `switch (c)`
    unfoldable pub take_option : Event → Settings F.D → Outcome (Settings F.D)
    unfolding getopt_host getopt_port
    take_option e s =
        if e.option == b'H'
        then with_arg e.optarg (λ optarg.
          or_leave g (getopt_host is_hostaddr optarg)
          >>= (λ hostname. completed (record s { hostname = hostname })))
        else if e.option == b'P'
        then with_arg e.optarg (λ optarg.
          or_leave g (getopt_port optarg) >>= (λ port. completed (record s { port = port })))
        else completed s

    unfoldable pub handle_option : Event → Settings F.D → Outcome (Settings F.D)
    unfolding getopt_46 take_thresholds take_option
    handle_option e s = do
      t ← take_thresholds g F time e s.time_thresholds
      take_option e (record s { ipv = getopt_46 use_ipv6 e.option s.ipv; time_thresholds = t })

    abbrev pub is_zero : ℤ → Bool
    is_zero (pos n) = n == 0
    is_zero (negsuc n) = false

    unfoldable pub require_port : Globals × Settings F.D → Outcome (Globals × Settings F.D)
    require_port (t, s) =
        if is_zero s.port
        then left (use_error g (codes "Hostname and port mandatory."))
        else completed (t, s)

    unfoldable pub process_arguments : ℕ → List Event → Globals → Outcome (Globals × Settings F.D)
    unfolding process_options handle_option require_port
    process_arguments fuel es t =
        process_options g handle_option fuel es t default_settings >>= require_port
