-- ===== src/Net/Tests.antt =====
-- A checksum and a line, and the theorems at an input.
use monitoringplug.Base.{[], ◌∷◌, ◌≡◌, refl, arith, codes}
use monitoringplug.Net.{ip_csum, Socket, received, chomp, recv_line}
use monitoringplug.Net.Receive.{stream, recv_line-line}

carried : ip_csum (0xFFFF ∷ 2 ∷ []) ≡ 0xFFFD
unfolding ip_csum
carried = refl

-- a line in three chunks, with the next one begun
abbrev socket : Socket
socket = record { buffer = codes "ST"; chunks = codes "AT" ∷ codes " a\r\nEN" ∷ codes "D" ∷ [] }

first_line :
    recv_line socket
    ≡ received (codes "STAT a") (record { buffer = codes "EN"; chunks = codes "D" ∷ [] })
unfolding recv_line
first_line = refl

recv_line-line_example :
    (t : Socket) × (recv_line socket ≡ received (codes "STAT a") t) × (stream t ≡ codes "END")
unfolding chomp
recv_line-line_example =
    recv_line-line socket b'S' (codes "TAT a\r") (codes "END") (ground arith) refl
