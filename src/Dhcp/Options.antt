-- ===== src/Dhcp/Options.antt =====
-- `mp_dhcp_pkt_opt` appends to the encoding of a list of options, inside the block.
use monitoringplug.Base.{
  ℕ, ◌+◌, ◌-◌, some, List, [], ◌∷◌, ◌++◌, append-nil, append_assoc, ◌≡◌, ◌≢◌, refl, sym, ap, ◌∙◌,
  ◌⊎◌, inl, inr, arith, Bytes, length, length-append, take, false, ◌==◌,
}
use monitoringplug.Dhcp.{Packet, dhcpopt_end, fresh, make_room, write_option, pkt_opt}
use monitoringplug.Dhcp.Block.{
  store_at, bind_some, writes_at, write_option-writes, Room, Room-of_length, length-fresh,
  length-take, take-append_more,
}

pub record Opt : Type 0 where
  pub code : ℕ
  pub content : Bytes

-- Code, length and content of each option in turn.
abbrev pub encode : List Opt → Bytes
encode [] = []
encode (o ∷ os) = o.code ∷ length o.content ∷ (o.content ++ encode os)

-- The block holds the options, the end mark, and perhaps more.
pub record Holds (p : Packet) (os : List Opt) : Type 0 where
  pub slack : Bytes
  pub bytes : p.opts ≡ encode os ++ dhcpopt_end ∷ slack
  pub size : p.optlen ≡ length (encode os) + 1

-- A packet that no option was added to, or one that holds some.
abbrev pub IsReady : Packet → List Opt → Type 0
IsReady p os = ((p.optlen ≡ 0) × (os ≡ [])) ⊎ Holds p os

encode-append : (os ps : List Opt) → encode (os ++ ps) ≡ encode os ++ encode ps
encode-append [] ps = refl
encode-append (o ∷ os) ps =
    ap (λ x. o.code ∷ length o.content ∷ x)
      (ap (λ x. o.content ++ x) (encode-append os ps)
        ∙ sym (append_assoc o.content (encode os) (encode ps)))

-- After the allocation the block holds what was there, and room behind it.
make_room-Room :
    (len : ℕ) (p : Packet) (os : List Opt)
    → IsReady p os
    → (r : Bytes) × Room len r
      × ((make_room len p).opts ≡ encode os ++ r)
      × ((make_room len p).optlen ≡ length (encode os) + 1)
unfolding make_room
make_room-Room len p os (inl (z, e)) = (
  fresh (len + 3),
  Room-of_length len (fresh (len + 3)) (length-fresh (len + 3)),
  rw e (ground arith),
  rw e (ground arith),
)
make_room-Room len p os (inr h) =
    let n : ℕ = p.optlen + len + 2 in
    let used : (p.optlen == 0) ≡ false = ground (arith, h.size) in
    let tail : Bytes = dhcpopt_end ∷ (h.slack ++ fresh n) in
    (
      take (len + 3) tail,
      Room-of_length len (take (len + 3) tail) (
          length-take (len + 3) tail
            (omega (arith, length-append h.slack (fresh n), length-fresh n, h.size))),
      rw used (
          ap (λ b. take n (b ++ fresh n)) h.bytes
          ∙ ap (take n) (append_assoc (encode os) (dhcpopt_end ∷ h.slack) (fresh n))
          ∙ ap (λ m. take m (encode os ++ tail)) {x = n} {y = length (encode os) + (len + 3)}
              (omega (arith, h.size))
          ∙ take-append_more (encode os) tail (len + 3)),
      rw used h.size,
    )

make_room-rest :
    (len : ℕ) (p : Packet) → ((make_room len p).op ≡ p.op) × ((make_room len p).xid ≡ p.xid)
unfolding make_room
make_room-rest len p = (ground arith, ground arith)

-- Adding an option with content never writes past the block, and leaves a packet that holds the
-- options from before and the new one behind them; the header stays.
pub pkt_opt_lem :
    (code : ℕ) (content : Bytes) (p : Packet) (os : List Opt)
    → IsReady p os
    → content ≢ []
    → (q : Packet) × (pkt_opt code content p ≡ some q)
      × Holds q (os ++ record { code = code; content = content } ∷ [])
      × (q.op ≡ p.op)
      × (q.xid ≡ p.xid)
unfolding pkt_opt
pkt_opt_lem code content p os ready ne =
    let len : ℕ = length content in
    let room : Packet = make_room len p in
    let added : Opt = record { code = code; content = content } in
    let (r, space, whole, size) = make_room-Room len p os ready in
    let written = encode os ++ code ∷ len ∷ (content ++ dhcpopt_end ∷ []) in
    let same = make_room-rest len p in
    (
      record room { opts = written; optlen = room.optlen + 2 + len },
      write_option-writes code content room ne
          ∙ bind_some _ (
              writes_at room.optlen code content (encode os) space.first space.second space.middle
                space.last [] size (whole ∙ ap (λ t. encode os ++ t) space.whole) space.fits),
      record {
        slack = [];
        bytes = rw (encode-append os (added ∷ [])) (simp (append_assoc, append-nil));
        size = omega (
          arith,
          size,
          ap length (encode-append os (added ∷ [])),
          length-append (encode os) (encode (added ∷ [])),
          length-append content [],
        );
      },
      same.0,
      same.1,
    )

write_option-empty :
    (code : ℕ) (a : Bytes) (x : ℕ) (b : Bytes) (p : Packet)
    → p.optlen ≡ length a + 1
    → p.opts ≡ a ++ x ∷ b
    → write_option code [] p ≡ some (record p { opts = a ++ dhcpopt_end ∷ b })
unfolding write_option
write_option-empty code a x b p k e =
    bind_some _ (store_at (p.optlen - 1) code a x b (omega arith) e)
    ∙ bind_some _ (store_at (p.optlen - 1) dhcpopt_end a code b (omega arith) refl)

-- An option without content is lost: its code is overwritten by the end mark, and the packet holds
-- the options from before and no more.
pub pkt_opt-empty :
    (code : ℕ) (p : Packet) (os : List Opt)
    → IsReady p os
    → (q : Packet) × (pkt_opt code [] p ≡ some q) × Holds q os
unfolding pkt_opt
pkt_opt-empty code p os ready =
    let room : Packet = make_room 0 p in
    let (r, space, whole, size) = make_room-Room 0 p os ready in
    let behind : Bytes = space.second ∷ (space.middle ++ space.last ∷ []) in
    (
      record room { opts = encode os ++ dhcpopt_end ∷ behind },
      write_option-empty code (encode os) space.first behind room size
          (whole ∙ ap (λ t. encode os ++ t) space.whole),
      record { slack = behind; bytes = refl; size = size },
    )
