-- ===== src/Checks/Sockets.antt =====
-- base/check_sockets.c: the number of sockets on a port, from the tables of the kernel. The six blocks of
-- `main` differ in the names they use, and in what they do at a critical count. `fopen` is a parameter.
-- The thresholds are part of the state, as `mp_perfdata_int` resolves them in place. What `-v` prints is
-- left out.
mod Tests
pub mod Table
pub mod Combine
use monitoringplug.Base.{
  ℕ, zero, suc, ◌+◌, Bool, true, false, not, ◌&&◌, Option, none, some, List, [], ◌∷◌, ◌++◌, Bytes,
  codes, length, ◌==◌, if◌then◌else◌,
}
use monitoringplug.Base.Int.{ℤ, pos, negsuc, ltb_ℤ, eqb_ℤ}
use monitoringplug.Text.{strsep, strtol, strtol_16, fgets_upto}
use monitoringplug.Utils.{strcat_comma, to_int}
use monitoringplug.Range.{
  Doubles, Thresholds, bisi, time, get_status, set_warning_range, set_critical_range,
}
use monitoringplug.Args.{Family, unspec, inet, inet6, getopt_46}
use monitoringplug.Output.{Plugin, Exit, ok, warning, critical, unknown}
use monitoringplug.Perfdata.{perfdata_int}
use monitoringplug.Getopt.{
  Outcome, completed, left, fault, ◌>>=◌, Program, Globals, Event, use_error, process_options,
  take_thresholds, start,
}

abbrev pub is_colon : ℕ → Bool
is_colon c = c == b':'

abbrev pub is_blank : ℕ → Bool
is_blank c = c == b' '

-- `c = strsep(&next, " ")` behind two calls for ":", where `none` is a null pointer
unfoldable pub port_field : Bytes → Option Bytes
unfolding strsep
port_field line = elim (strsep is_colon line).1 [
  | none ↦ none
  | some second ↦ elim (strsep is_colon second).1 [
    | none ↦ none
    | some third ↦ some (strsep is_blank third).0
  ]
]

-- whether a line counts; `none` is the null pointer given to `strtol`
unfoldable pub counts_line : ℤ → Bytes → Option Bool
unfolding port_field strtol_16
counts_line port line =
    if ltb_ℤ (pos 0) port
    then (elim (port_field line) [ none ↦ none | some c ↦ some (eqb_ℤ port (strtol_16 c)) ])
    else some true

-- `while (fgets(buffer, 256, input) != NULL)`, on fuel
unfoldable pub count_loop : ℕ → ℤ → Bytes → ℕ → Option ℕ
unfolding fgets_upto counts_line
count_loop zero port input count = none
count_loop (suc fuel) port [] count = some count
count_loop (suc fuel) port (c ∷ input) count =
    let (line, rest) = fgets_upto 255 (c ∷ input) in
    elim (counts_line port line) [
      | none ↦ none
      | some counted ↦ count_loop fuel port rest (if counted then count + 1 else count)
    ]

abbrev pub determined {ℓ} : {A : Type ℓ} → Option A → Outcome A
determined none = fault
determined (some a) = completed a

-- behind `fopen`: the first line is skipped
unfoldable pub count_lines : Plugin → Bytes → ℤ → Bytes → Outcome ℕ
unfolding fgets_upto count_loop warning
count_lines p filename port [] = left (warning (codes "Can't read " ++ (filename ++ codes ".")) p)
count_lines p filename port (c ∷ input) =
    let (line, rest) = fgets_upto 255 (c ∷ input) in
    determined (count_loop (length rest + 1) port rest 0)

-- The names of a block: the table, the one in messages, and that of the performance data; and whether
-- a critical count sets `status`.
pub record Block : Type 0 where
  pub table : Bytes
  pub name : Bytes
  pub label : Bytes
  pub raises : Bool

abbrev pub block_of : Bytes → Block
block_of name = record {
  table = codes "/proc/net/" ++ name;
  name = name;
  label = name;
  raises = true;
}

abbrev pub tcp : Block
tcp = block_of (codes "tcp")

abbrev pub tcp6 : Block
tcp6 = record (block_of (codes "tcp6")) { raises = false }

abbrev pub udp : Block
udp = block_of (codes "udp")

abbrev pub udp6 : Block
udp6 = record (block_of (codes "udp6")) { label = codes "udp" }

abbrev pub raw : Block
raw = block_of (codes "raw")

abbrev pub raw6 : Block
raw6 = block_of (codes "raw6")

-- `output` and `status`, the thresholds, and the plugin with its performance data
pub record State (D : Type 0) : Type 0 where
  pub output : Option Bytes
  pub status : ℕ
  pub thresholds : Option (Thresholds D)
  pub plugin : Plugin

-- `switch (lstatus)`
unfoldable pub next_status : Bool → ℕ → ℕ → ℕ
next_status raises lstatus status =
    if lstatus == 1
    then if status == 2 then status else lstatus
    else if lstatus == 2
    then if raises then lstatus else status
    else if lstatus == 3
    then if status == 0 then lstatus else status
    else status

unfoldable pub next_output : Bytes → ℕ → Option Bytes → Option Bytes
unfolding strcat_comma
next_output name lstatus output =
    if lstatus == 1
    then strcat_comma output (some (name ++ codes " warning"))
    else if lstatus == 2
    then strcat_comma output (some (name ++ codes " critical"))
    else if lstatus == 3
    then strcat_comma output (some (codes "Can't read " ++ (name ++ codes "!")))
    else output

-- the ports and the family
pub record Settings (D : Type 0) : Type 0 where
  pub tcpport : ℤ
  pub udpport : ℤ
  pub rawport : ℤ
  pub ipv : Family
  pub socket_thresholds : Option (Thresholds D)

abbrev pub is_inet : Family → Bool
is_inet unspec = true
is_inet inet = true
is_inet inet6 = false

abbrev pub is_inet6 : Family → Bool
is_inet6 unspec = true
is_inet6 inet = false
is_inet6 inet6 = true

module _ (F : Doubles) (of_long : ℤ → F.D) (fopen : Bytes → Option Bytes) where
  -- `countSocket`: -1 is `none`
  unfoldable pub count_socket : Plugin → Bytes → ℤ → Outcome (Option ℕ)
  unfolding count_lines
  count_socket p filename port = elim (fopen filename) [
    | none ↦ completed none
    | some input ↦ count_lines p filename port input >>= (λ count. completed (some count))
  ]

  -- `lstatus`, and the state after `mp_perfdata_int`
  unfoldable pub judge : Block → Option ℕ → State F.D → ℕ × State F.D
  unfolding get_status perfdata_int
  judge b none s = (3, s)
  judge b (some count) s =
      let lstatus = get_status F (of_long (pos count)) s.thresholds in
      if s.plugin.show_perfdata
      then (let (perfdata, thresholds) =
            perfdata_int F of_long s.plugin.show_perfdata b.label (pos count) [] s.thresholds
              s.plugin.perfdata in
          (
            lstatus,
            record s { thresholds = thresholds; plugin = record s.plugin { perfdata = perfdata } },
          ))
      else (lstatus, s)

  unfoldable pub run_block : Block → ℤ → State F.D → Outcome (State F.D)
  unfolding count_socket judge next_status next_output
  run_block b port s = do
    count ← count_socket s.plugin b.table port
    let (lstatus, t) = judge b count s
    completed (record t {
      output = next_output b.name lstatus t.output;
      status = next_status b.raises lstatus t.status;
    })

  -- `if (port >= 0) { if (…) { … } if (…) { … } }`
  unfoldable pub run_port : Family → Block → Block → ℤ → State F.D → Outcome (State F.D)
  unfolding run_block
  run_port ipv v4 v6 port s = if ltb_ℤ port (pos 0) then completed s else do
    t ← (if is_inet ipv then run_block v4 port s else completed s)
    if is_inet6 ipv then run_block v6 port t else completed t

  unfoldable pub run_ports : Settings F.D → State F.D → Outcome (State F.D)
  unfolding run_port
  run_ports g s = do
    t ← run_port g.ipv tcp tcp6 g.tcpport s
    u ← run_port g.ipv udp udp6 g.udpport t
    run_port g.ipv raw raw6 g.rawport u

  -- the last `switch`, where `output` is a format with no arguments
  abbrev pub leave_with : Plugin → ℕ → Bytes → Exit
  leave_with p status output =
      if status == 1
      then warning output p
      else if status == 2
      then critical output p
      else if status == 3
      then unknown output p
      else critical (codes "You should never reach this point.") p

  unfoldable pub leave : (Bytes → Bytes) → State F.D → Outcome Exit
  unfolding ok warning critical unknown
  leave vprintf s =
      if s.status == 0
      then completed (ok (codes "Everithing ok.") s.plugin)
      else determined s.output
        >>= (λ output. completed (leave_with s.plugin s.status (vprintf output)))

  unfoldable pub check : (Bytes → Bytes) → Settings F.D → Plugin → Outcome Exit
  unfolding run_ports leave
  check vprintf g p =
      run_ports g
        (record { output = none; status = 0; thresholds = g.socket_thresholds; plugin = p })
      >>= leave vprintf

  -- "Set default"
  abbrev pub default_settings : Settings F.D
  default_settings =
      let t = (set_warning_range F time (codes "1000") none).0 in
      record {
        tcpport = negsuc 0;
        udpport = negsuc 0;
        rawport = negsuc 0;
        ipv = unspec;
        socket_thresholds = some (set_critical_range F time (codes "1024") (some t)).0;
      }

  abbrev pub port_of : Option Bytes → ℤ
  port_of none = pos 0
  port_of (some optarg) = to_int (strtol optarg).0

  unfoldable pub take_port : Event → Settings F.D → Settings F.D
  unfolding strtol to_int
  take_port e s =
      if e.option == b'T'
      then record s { tcpport = port_of e.optarg }
      else if e.option == b'U'
      then record s { udpport = port_of e.optarg }
      else if e.option == b'R'
      then record s { rawport = port_of e.optarg }
      else s

  unfoldable pub handle_option : Bool → Program → Event → Settings F.D → Outcome (Settings F.D)
  unfolding getopt_46 take_thresholds take_port
  handle_option use_ipv6 g e s = do
    t ← take_thresholds g F bisi e s.socket_thresholds
    completed
        (take_port e (record s { ipv = getopt_46 use_ipv6 e.option s.ipv; socket_thresholds = t }))

  unfoldable pub require_port : Program → Globals × Settings F.D → Outcome (Globals × Settings F.D)
  require_port g (t, s) =
      if ltb_ℤ s.tcpport (pos 0) && (ltb_ℤ s.udpport (pos 0) && ltb_ℤ s.rawport (pos 0))
      then left (use_error g (codes "--tcp, --udp or --raw mandatory."))
      else completed (t, s)

  unfoldable pub process_arguments :
      Bool → Program → ℕ → List Event → Globals → Outcome (Globals × Settings F.D)
  unfolding process_options handle_option require_port
  process_arguments use_ipv6 g fuel es t =
      process_options g (handle_option use_ipv6 g) fuel es t default_settings >>= require_port g

  unfoldable pub main :
      (Bytes → Bytes) → Bool → Program → Bool → ℕ → List Event → Globals → Plugin → Outcome Exit
  unfolding start process_arguments check
  main vprintf use_ipv6 g trapped fuel es t p =
      start trapped p (process_arguments use_ipv6 g fuel es t) (check vprintf)
