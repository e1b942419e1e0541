-- ===== src/Dhcp/Receive.antt =====
-- `mp_dhcp_recv` of lib/dhcp_utils.c: which packets it passes on. The socket's part is a parameter: the
-- bytes that `recvmsg` has put into the packet, the cookie and the block of 312 bytes behind it.
use monitoringplug.Base.{
  ℕ, zero, suc, ◌+◌, not, ◌&&◌, Option, none, some, [], ◌∷◌, ◌≡◌, ◌≢◌, ◌⊎◌, inl, inr, arith, Bytes,
  get_elem?, ◌==◌, ltb, if◌then◌else◌, Bool-cases, Option-cases,
}
use monitoringplug.Text.{str_eq}
use monitoringplug.Text.Laws.{str_eq_iff}
use monitoringplug.Dhcp.{
  Packet, bootreply, dhcpopt_pad, dhcpopt_end, fault, skip_to, getopt_loop, pkt_getopt,
}

abbrev pub magickcookie : Bytes
magickcookie = 0x63 ∷ 0x82 ∷ 0x53 ∷ 0x63 ∷ []

pub data Verdict : Type 0 where
  dropped accepted overrun : Verdict

-- "Check opts": the index at which the walk ends, or `none` for a read past the block
unfoldable pub options_loop : ℕ → Packet → ℕ → Option ℕ
options_loop zero p i = none
options_loop (suc fuel) p i = if not (ltb i p.optlen) then some i else elim (get_elem? p.opts i) [
  | none ↦ none
  | some c ↦
      let padded = options_loop fuel p (i + 1) in
      let skipped : Option ℕ = elim (skip_to i p.opts) [
        | none ↦ none
        | some j ↦ options_loop fuel p j
      ] in
      if c == dhcpopt_pad then padded else if c == dhcpopt_end then some i else skipped
]

unfoldable pub check_options : Packet → Verdict
unfolding options_loop
check_options p =
    if not (ltb 0 p.optlen) then accepted else elim (options_loop (p.optlen + 1) p 0) [
      | none ↦ overrun
      | some i ↦ if ltb i p.optlen then accepted else dropped
    ]

-- One round of the loop of `mp_dhcp_recv`, from "Check op" on.
unfoldable pub check_packet : ℕ → Bytes → Packet → Verdict
unfolding check_options
check_packet xid cookie p =
    if not (p.op == bootreply)
    then dropped
    else if not (p.xid == xid)
    then dropped
    else if ltb 0 p.optlen && not (str_eq cookie magickcookie)
    then dropped
    else check_options p

module _ (code : ℕ) (p : Packet) where
  -- Where the walk ends inside the options, the search takes the same way.
  getopt_loop-safe :
      (fuel i : ℕ) {j : ℕ} → options_loop fuel p i ≡ some j → getopt_loop fuel code p i ≢ fault
  unfolding options_loop getopt_loop
  getopt_loop-safe zero i e = cc
  getopt_loop-safe (suc fuel) i {j} e = elim (Option-cases (get_elem? p.opts (i + 1))) [
    | inl none_there ↦ ground (arith, none_there, getopt_loop-safe fuel (i + 1) {j = j})
    | inr (n, some_there) ↦ ground (
      arith,
      some_there,
      getopt_loop-safe fuel (i + 1) {j = j},
      getopt_loop-safe fuel (i + 2 + n) {j = j},
    )
  ]

pkt_getopt-safe : (code : ℕ) (p : Packet) → check_options p ≡ accepted → pkt_getopt p code ≢ fault
unfolding check_options pkt_getopt
pkt_getopt-safe code p e = elim (Option-cases (options_loop (p.optlen + 1) p 0)) [
  | inl outside ↦ ground (arith, outside)
  | inr (j, inside) ↦
      ground (arith, inside, getopt_loop-safe code p (p.optlen + 1) 0 {j = j} inside)
]

-- A packet that is passed on answers with the transaction asked for, either has no options or carries the
-- magic cookie (without options the cookie is not looked at), and no search for any option in it reads past
-- the block.
pub check_packet-accepted :
    (xid : ℕ) (cookie : Bytes) (p : Packet) (code : ℕ)
    → check_packet xid cookie p ≡ accepted
    → (p.op ≡ bootreply)
      × (p.xid ≡ xid)
      × ((p.optlen ≡ 0) ⊎ (cookie ≡ magickcookie))
      × (pkt_getopt p code ≢ fault)
unfolding check_packet
check_packet-accepted xid cookie p code h =
    let checked : check_options p ≡ accepted = ground arith in
    (
      ground arith,
      ground arith,
      elim (Bool-cases (ltb 0 p.optlen)) [
        | inl some_left ↦ inr ((str_eq_iff cookie magickcookie).0 (ground arith))
        | inr none_left ↦ inl (ground arith)
      ],
      pkt_getopt-safe code p checked,
    )
