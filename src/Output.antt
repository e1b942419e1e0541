-- ===== src/Output.antt =====
-- lib/mp_common.c: the plugin's state and messages, and the ways to leave the plugin.
-- `Plugin` holds the globals `mp_state`, `mp_out_*`, `mp_showperfdata` and `mp_perfdata`. A function
-- that calls `exit` returns an `Exit`: what was printed, and the status. A message stands for the
-- text that `vprintf` makes of a format and its arguments. A `Buffer` is a string on the heap with
-- the size of its block; a write past the block is undefined in C, and here keeps the text, so that
-- whether the block is large enough is a statement about the two fields.
pub mod Severity
pub mod Collect
pub mod Memory
mod Tests
use monitoringplug.Base.{
  ℕ, zero, suc, ◌+◌, ◌-◌, ◌%◌, Bool, true, false, Option, none, some, [], ◌∷◌, ◌++◌, Bytes, codes,
  length, ◌==◌, if◌then◌else◌,
}
use monitoringplug.Base.Int.{ℤ, pos, negsuc, ltb_ℤ}
use monitoringplug.Text.{decimal}

pub record Buffer : Type 0 where
  pub text : Bytes
  pub size : ℕ

pub record Plugin : Type 0 where
  pub state : ℤ
  pub out_ok : Option Buffer
  pub out_okonly : Option Buffer
  pub out_warning : Option Buffer
  pub out_critical : Option Buffer
  pub show_perfdata : Bool
  pub perfdata : Option Bytes

abbrev pub state_ok : ℤ
state_ok = pos 0

abbrev pub state_warning : ℤ
state_warning = pos 1

abbrev pub state_critical : ℤ
state_critical = pos 2

abbrev pub state_unknown : ℤ
state_unknown = pos 3

-- the globals as the program starts
abbrev pub initial : Plugin
initial = record {
  state = negsuc 0;
  out_ok = none;
  out_okonly = none;
  out_warning = none;
  out_critical = none;
  show_perfdata = false;
  perfdata = none;
}

pub record Exit : Type 0 where
  pub stdout : Bytes
  pub status : ℕ

-- `exit(n)` keeps the low byte of an `int`
abbrev pub low_byte : ℤ → ℕ
low_byte (pos n) = n % 256
low_byte (negsuc n) = 255 - n % 256

-- "Get buffer" and "sprintf" of `set_ok`, `set_warning` and `set_critical`
unfoldable pub add_message : Option Buffer → Bytes → Option Buffer
add_message (some b) msg =
    some (record { text = b.text ++ (codes ", " ++ msg); size = length b.text + length msg + 3 })
add_message none msg = some (record { text = msg; size = length msg })

unfoldable pub raise_state : ℤ → ℤ → ℤ
raise_state to state = if ltb_ℤ state to then to else state

unfoldable pub set_ok : Bytes → Plugin → Plugin
unfolding add_message raise_state
set_ok msg p = record p { state = raise_state state_ok p.state; out_ok = add_message p.out_ok msg }

unfoldable pub set_okonly : Bytes → Plugin → Plugin
set_okonly msg p =
    if ltb_ℤ state_ok p.state
    then p
    else record p { out_okonly = some (record { text = msg; size = length msg }) }

unfoldable pub set_warning : Bytes → Plugin → Plugin
unfolding add_message raise_state
set_warning msg p = record p {
  state = raise_state state_warning p.state;
  out_warning = add_message p.out_warning msg;
}

unfoldable pub set_critical : Bytes → Plugin → Plugin
unfolding add_message raise_state
set_critical msg p = record p {
  state = raise_state state_critical p.state;
  out_critical = add_message p.out_critical msg;
}

-- `if (mp_showperfdata && mp_perfdata) printf(bar "%s", mp_perfdata)`
unfoldable pub perfdata_part : Bytes → Plugin → Bytes
perfdata_part bar p =
    if p.show_perfdata then (elim p.perfdata [ none ↦ [] | some d ↦ bar ++ d ]) else []

abbrev pub newline : Bytes
newline = b'\n' ∷ []

unfoldable pub ok : Bytes → Plugin → Exit
unfolding perfdata_part
ok msg p = record {
  stdout = codes "OK - " ++ (msg ++ (perfdata_part (codes "| ") p ++ newline));
  status = low_byte state_ok;
}

unfoldable pub warning : Bytes → Plugin → Exit
unfolding perfdata_part
warning msg p = record {
  stdout = codes "WARNING - " ++ (msg ++ (perfdata_part (codes " | ") p ++ newline));
  status = low_byte state_warning;
}

unfoldable pub critical : Bytes → Plugin → Exit
unfolding perfdata_part
critical msg p = record {
  stdout = codes "CRITICAL - " ++ (msg ++ (perfdata_part (codes " | ") p ++ newline));
  status = low_byte state_critical;
}

unfoldable pub unknown : Bytes → Plugin → Exit
unfolding perfdata_part
unknown msg p = record {
  stdout = codes "UNKNOWN - " ++ (msg ++ (perfdata_part (codes " | ") p ++ newline));
  status = low_byte state_unknown;
}

-- the `switch` of `mp_exit`: the state afterwards and the label printed
unfoldable pub exit_switch : ℤ → ℤ × Bytes
exit_switch (negsuc zero) = (state_ok, codes "OK - ")
exit_switch (pos zero) = (state_ok, codes "OK - ")
exit_switch (pos (suc zero)) = (state_warning, codes "WARNING - ")
exit_switch (pos (suc (suc zero))) = (state_critical, codes "CRITICAL - ")
exit_switch s = (s, [])

-- one `if (mp_out_x) { if (mp_state > s) printf(mark); printf(" %s", mp_out_x); }`
unfoldable pub message_part : Bool → Bytes → Option Buffer → Bytes
message_part marked mark none = []
message_part marked mark (some b) = (if marked then mark else []) ++ (b' ' ∷ b.text)

-- `mp_out_okonly && mp_state == STATE_OK`
unfoldable pub okonly_part : ℤ → Option Buffer → Bytes
unfolding message_part
okonly_part (pos zero) b = message_part false [] b
okonly_part s b = []

unfoldable pub mp_exit : Bytes → Plugin → Exit
unfolding exit_switch message_part okonly_part perfdata_part
mp_exit msg p =
    let (state, label) = exit_switch p.state in
    record {
      stdout =
          label
          ++ (msg
              ++ (message_part false [] p.out_critical
                  ++ (message_part (ltb_ℤ state_warning state) (codes " Warning:") p.out_warning
                      ++ (message_part (ltb_ℤ state_ok state) (codes " OK:") p.out_ok
                          ++ (okonly_part state p.out_okonly
                              ++ (perfdata_part (codes " | ") p ++ newline))))));
      status = low_byte state;
    }

-- `timeout_alarm_handler`, for a signal number and that of `SIGALRM`; `none` if it returns
unfoldable pub timeout_alarm_handler : ℕ → ℕ → ℕ → Plugin → Option Exit
unfolding critical
timeout_alarm_handler sigalrm mp_timeout signo p =
    if signo == sigalrm
    then some
        (critical (codes "Plugin timed out after " ++ (decimal mp_timeout ++ codes " seconds\n")) p)
    else none

-- `usage`, with what `print_usage` adds
unfoldable pub usage : Bytes → Bytes → Bytes → Exit
usage progname progusage msg = record {
  stdout = msg ++ codes "\nUsage:\n " ++ (progname ++ b' ' ∷ (progusage ++ newline));
  status = low_byte state_unknown;
}

-- `mp_noneroot_die`, for the user id that `geteuid` returns; `none` if it returns
unfoldable pub noneroot_die : Bytes → Bytes → ℕ → Option Exit
unfolding usage
noneroot_die progname progusage user =
    if user == 0
    then none
    else some (usage progname progusage (codes "This plugin must be run as root."))
