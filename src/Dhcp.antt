-- ===== src/Dhcp.antt =====
-- lib/dhcp_utils.c: the options of a DHCP packet. A block on the heap is the list of its bytes, and a
-- read or a write past its end is a fault. A new block is filled with zeros here, where C leaves what
-- was there. `optlen` is an `int`; where a short packet makes it negative it is 0 here, since the code
-- that reads options only asks whether an index is below it.
pub mod Block
pub mod Options
pub mod Lookup
pub mod Receive
mod Tests
use monitoringplug.Base.{
  ℕ, zero, suc, ◌+◌, ◌-◌, Bool, true, false, not, ◌&&◌, ◌||◌, Option, none, some, [], ◌∷◌, ◌++◌,
  Bytes, length, get_elem?, take, ltb, ◌==◌, if◌then◌else◌,
}

pub record Packet : Type 0 where
  pub op : ℕ
  pub xid : ℕ
  pub opts : Bytes
  pub optlen : ℕ

abbrev pub bootreply : ℕ
bootreply = 2

abbrev pub dhcpopt_pad : ℕ
dhcpopt_pad = 0

abbrev pub dhcpopt_end : ℕ
dhcpopt_end = 255

abbrev pub dhcpminoptlen : ℕ
dhcpminoptlen = 312

unfoldable pub fresh : ℕ → Bytes
fresh zero = []
fresh (suc n) = 0 ∷ fresh n

-- `realloc`: what fits is kept
unfoldable pub reallocate : ℕ → Bytes → Bytes
unfolding fresh
reallocate n block = take n (block ++ fresh n)

-- `block[i] = v`
unfoldable pub store : ℕ → ℕ → Bytes → Option Bytes
store i v [] = none
store zero v (c ∷ block) = some (v ∷ block)
store (suc i) v (c ∷ block) = elim (store i v block) [ none ↦ none | some b ↦ some (c ∷ b) ]

-- `memcpy(&block[i], s, length s)`
unfoldable pub copy : ℕ → Bytes → Bytes → Option Bytes
unfolding store
copy i [] block = some block
copy i (c ∷ s) block = elim (store i c block) [ none ↦ none | some b ↦ copy (i + 1) s b ]

infixl 5 ◌>>=◌
abbrev pub ◌>>=◌ {ℓ κ} : {A : Type ℓ} {B : Type κ} → Option A → (A → Option B) → Option B
none >>= f = none
some a >>= f = f a

-- Allocation: the block, and `optlen` with the byte of the end mark counted.
unfoldable pub make_room : ℕ → Packet → Packet
unfolding fresh reallocate
make_room len p =
    if p.optlen == 0
    then record p { opts = fresh (len + 3); optlen = 1 }
    else record p { opts = reallocate (p.optlen + len + 2) p.opts }

-- `data` holds `len` bytes
unfoldable pub write_option : ℕ → Bytes → Packet → Option Packet
unfolding store copy
write_option code [] p = do
  opts ← store (p.optlen - 1) code p.opts
  done ← store (p.optlen - 1) dhcpopt_end opts
  some (record p { opts = done })
write_option code (c ∷ s) p = do
  opts ← store (p.optlen - 1) code p.opts
  sized ← store p.optlen (length (c ∷ s)) opts
  filled ← copy (p.optlen + 1) (c ∷ s) sized
  done ← store (p.optlen + 2 + length (c ∷ s) - 1) dhcpopt_end filled
  some (record p { opts = done; optlen = p.optlen + 2 + length (c ∷ s) })

unfoldable pub pkt_opt : ℕ → Bytes → Packet → Option Packet
unfolding make_room write_option
pkt_opt code content p = write_option code content (make_room (length content) p)

-- What a search for an option ends with: a read past the block, nothing, or an index.
pub data Found : Type 0 where
  fault missing : Found
  at : ℕ → Found

-- the length byte behind the code at `i`
abbrev pub skip_to : ℕ → Bytes → Option ℕ
skip_to i opts = elim (get_elem? opts (i + 1)) [ none ↦ none | some len ↦ some (i + 2 + len) ]

-- `while (i < pkt->optlen)` of `mp_dhcp_pkt_getopt`, on fuel
unfoldable pub getopt_loop : ℕ → ℕ → Packet → ℕ → Found
getopt_loop zero code p i = fault
getopt_loop (suc fuel) code p i =
    if not (ltb i p.optlen) then missing else elim (get_elem? p.opts i) [
      | none ↦ fault
      | some c ↦
          if c == code
          then at i
          else let padded = getopt_loop fuel code p (i + 1) in
            let skipped : Found = elim (skip_to i p.opts) [
              | none ↦ fault
              | some j ↦ getopt_loop fuel code p j
            ] in
            if c == dhcpopt_pad then padded else if c == dhcpopt_end then missing else skipped
    ]

-- every round moves on, so `optlen + 1` rounds are enough
unfoldable pub pkt_getopt : Packet → ℕ → Found
unfolding getopt_loop
pkt_getopt p code = if p.optlen == 0 then missing else getopt_loop (p.optlen + 1) code p 0
