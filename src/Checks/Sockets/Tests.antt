-- ===== src/Checks/Sockets/Tests.antt =====
-- The tables of a machine, and the theorems at an input.
use monitoringplug.Base.{
  ℕ, false, Option, none, some, List, [], ◌∷◌, ◌≡◌, refl, arith, Bytes, codes, if◌then◌else◌,
}
use monitoringplug.Base.Int.{ℤ, pos, negsuc, pos_part}
use monitoringplug.Text.{str_eq, strsep, fgets_upto, hex_byte, strtol_16}
use monitoringplug.Text.Lines.{file_of}
use monitoringplug.Output.{Exit, initial}
use monitoringplug.Range.{Range, Thresholds, outside, check_range, get_status}
use monitoringplug.Range.Naturals.{whole}
use monitoringplug.Args.{unspec}
use monitoringplug.Getopt.{completed}
use monitoringplug.Checks.Sockets.{Block, Settings, count_lines, count_socket, check}
use monitoringplug.Checks.Sockets.Table.{Row, print_rows, count_lines-rows}
use monitoringplug.Checks.Sockets.Combine.{rank, check-counted}

abbrev row : ℕ → Row
row port = record {
  number = codes "   0";
  address = codes " 0100007F";
  port = port;
  more = codes "00000000:0000 0A";
}

abbrev rows : List Row
rows = row 80 ∷ row 8080 ∷ row 80 ∷ []

abbrev table : Bytes
table = file_of (codes "  sl  local_address" ∷ print_rows rows)

count_lines-rows_example : count_lines initial (codes "/proc/net/tcp") (pos 80) table ≡ completed 2
unfolding hex_byte
count_lines-rows_example =
    count_lines-rows initial (codes "/proc/net/tcp") (codes "  sl  local_address") 80 rows
      (omega arith) (ground arith) (ground arith)

abbrev up_to : ℕ → Range ℕ
up_to n = record {
  start = 0;
  start_infinity = false;
  start_percent = false;
  end = n;
  end_infinity = false;
  end_percent = false;
  alert_on = outside;
}

abbrev limits : Option (Thresholds ℕ)
limits = some (record { warning = some (up_to 0); critical = some (up_to 1) })

abbrev web : Settings ℕ
web = record {
  tcpport = pos 80;
  udpport = negsuc 0;
  rawport = negsuc 0;
  ipv = unspec;
  socket_thresholds = limits;
}

abbrev files : Bytes → Option Bytes
files name = if str_eq name (codes "/proc/net/tcp6") then some table else none

abbrev found : Block → ℤ → Option ℕ
found b port = if b.raises then none else some 2

-- tcp cannot be read, and the critical count in tcp6 is not heard
check-counted_example :
    (e : Exit) × (check whole pos_part files (λ s. s) web initial ≡ completed e)
    × (rank e.status ≡ 1)
unfolding str_eq strsep hex_byte fgets_upto strtol_16 count_socket get_status check_range
check-counted_example =
    check-counted whole pos_part files limits initial (λ s. s) web found refl refl
      (refl, (refl, tt))
