-- ===== src/Dhcp/Tests.antt =====
-- A reply with two options, and the theorems at an input.
use monitoringplug.Base.{some, [], ◌∷◌, ◌≡◌, ◌≢◌, refl, ◌⊎◌, inr, arith}
use monitoringplug.Text.{str_eq}
use monitoringplug.Dhcp.{Packet, bootreply, fault, pkt_opt, pkt_getopt}
use monitoringplug.Dhcp.Options.{Opt, Holds, pkt_opt_lem}
use monitoringplug.Dhcp.Lookup.{Finds, pkt_getopt-Finds}
use monitoringplug.Dhcp.Receive.{magickcookie, check_packet, check_packet-accepted}

abbrev bare : Packet
bare = record { op = bootreply; xid = 7; opts = []; optlen = 0 }

abbrev message_type : Opt
message_type = record { code = 53; content = 1 ∷ [] }

abbrev server : Opt
server = record { code = 54; content = 10 ∷ 0 ∷ 0 ∷ 1 ∷ [] }

abbrev filled : Packet
filled = record bare { opts = 53 ∷ 1 ∷ 1 ∷ 54 ∷ 4 ∷ 10 ∷ 0 ∷ 0 ∷ 1 ∷ 255 ∷ []; optlen = 10 }

filled-Holds : Holds filled (message_type ∷ server ∷ [])
filled-Holds = record { slack = []; bytes = refl; size = refl }

added :
    pkt_opt 54 (10 ∷ 0 ∷ 0 ∷ 1 ∷ []) (record bare { opts = 53 ∷ 1 ∷ 1 ∷ 255 ∷ []; optlen = 4 })
    ≡ some filled
unfolding pkt_opt
added = refl

pkt_opt_lem_example :
    (q : Packet) × (pkt_opt 12 (104 ∷ []) filled ≡ some q)
    × Holds q (message_type ∷ server ∷ record { code = 12; content = 104 ∷ [] } ∷ [])
    × (q.op ≡ bootreply)
    × (q.xid ≡ 7)
pkt_opt_lem_example =
    pkt_opt_lem 12 (104 ∷ []) filled (message_type ∷ server ∷ []) (inr filled-Holds) (ground arith)

pkt_getopt-Finds_example : Finds filled.opts 54 (pkt_getopt filled 54) (some (10 ∷ 0 ∷ 0 ∷ 1 ∷ []))
pkt_getopt-Finds_example =
    pkt_getopt-Finds filled (message_type ∷ server ∷ []) 54 filled-Holds
      ((ground arith, ground arith), ((ground arith, ground arith), tt)) (ground arith)

check_packet-accepted_example :
    (filled.op ≡ bootreply)
    × (filled.xid ≡ 7)
    × ((filled.optlen ≡ 0) ⊎ (magickcookie ≡ magickcookie))
    × (pkt_getopt filled 54 ≢ fault)
unfolding check_packet str_eq
check_packet-accepted_example = check_packet-accepted 7 magickcookie filled 54 refl
