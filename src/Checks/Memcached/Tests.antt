-- ===== src/Checks/Memcached/Tests.antt =====
-- A server's answer in three chunks, and the theorem at an input.
use monitoringplug.Base.{none, List, [], ◌∷◌, ◌≡◌, refl, arith, codes}
use monitoringplug.Base.Int.{pos_part}
use monitoringplug.Text.{decimal}
use monitoringplug.Output.{Exit, initial}
use monitoringplug.Range.Naturals.{whole}
use monitoringplug.Net.{Socket}
use monitoringplug.Getopt.{completed}
use monitoringplug.Checks.Memcached.{check, finish}
use monitoringplug.Checks.Memcached.Reply.{Stat, take_all, start_of, check-reply}

abbrev socket : Socket
socket = record {
  buffer = [];
  chunks = codes "STAT pid 1\r\nSTAT ver" ∷ codes "sion 1.6.9\r" ∷ codes "\nEND\r\n" ∷ [];
}

abbrev stats : List Stat
stats = (codes "pid", codes "1") ∷ (codes "version", codes "1.6.9") ∷ []

abbrev alarm : Exit
alarm = record { stdout = []; status = 2 }

check-reply_example :
    (e : Exit) × (check whole pos_part (λ n d. decimal d) alarm 9 7 none socket initial
      ≡ completed e)
    × (e
        ≡ finish whole pos_part
            (λ n d. decimal d)
            7
            none
            (take_all whole pos_part stats (start_of whole pos_part initial)))
    × (e.status ≡ 0)
check-reply_example =
    check-reply whole pos_part (λ n d. decimal d) alarm 9 7 none stats socket [] initial
      (omega arith) (ground arith) refl
