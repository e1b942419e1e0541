-- ===== src/Sms.antt =====
-- lib/sms_utils.c: the encoding of a short message. A wide string is the list of its code points, as
-- `mbstowcs` yields it. The size of a block is not modelled here.
pub mod Number
pub mod Packing
mod Tests
use monitoringplug.Base.{
  ℕ, zero, suc, ◌+◌, ◌-◌, ◌*◌, ◌/◌, ◌%◌, ◌^◌, Bool, true, false, Option, none, some, List, [], ◌∷◌,
  ◌++◌, Bytes, codes, length, take, ltb, leb, ◌==◌, if◌then◌else◌,
}
use monitoringplug.Text.{head, hex_digit, hex_byte}

-- the loop of `sms_encode_number`: each two digits change places, and `F` fills up the last two
unfoldable pub swap_pairs : Bytes → Bytes
swap_pairs [] = []
swap_pairs (c ∷ []) = b'F' ∷ c ∷ []
swap_pairs (c ∷ d ∷ s) = d ∷ c ∷ swap_pairs s

unfoldable pub encode_number : Bytes → Bytes
unfolding swap_pairs
encode_number [] = codes "81"
encode_number (c ∷ s) =
    if c == b'+' then codes "91" ++ swap_pairs s else codes "81" ++ swap_pairs (c ∷ s)

abbrev pub gsm7 : List ℕ
gsm7 =
    codes "@£$¥èéùìòÇ\nØø\rÅå"
    ++ (codes "Δ_ΦΓΛΩΠΨΣΘΞ@ÆæßÉ"
        ++ (codes " !\"# %&'()*+,-./"
            ++ (codes "0123456789:;<=>?"
                ++ (codes "¡ABCDEFHGIJKLMNO"
                    ++ (codes "PQRSTUVWXYiÄÖÑÜ§"
                        ++ (codes "¿abcdefghijklmno" ++ codes "pqrstuvwxyzäüñüà"))))))

abbrev pub gsm7_ext : List ℕ
gsm7_ext =
    codes "          \n     "
    ++ (codes "    ^           "
        ++ (codes "        {}     \\"
            ++ (codes "            [~] "
                ++ (codes "|               "
                    ++ (codes "                "
                        ++ (codes "     €          " ++ codes "                "))))))

-- `wcschr(table, c) - table`
unfoldable pub wcschr : List ℕ → ℕ → Option ℕ
wcschr [] c = none
wcschr (d ∷ table) c =
    if d == c then some 0 else elim (wcschr table c) [ none ↦ none | some i ↦ some (i + 1) ]

-- The loop's variables; the text written is the octets in hexadecimal.
pub record Packer : Type 0 where
  pub bit : ℕ
  pub bits : ℕ
  pub len : ℕ
  pub octets : List ℕ

-- `bit |= septet << bits; len += 1; bits += 7;`, where `bit` has no bit from `bits` on
unfoldable pub add_septet : ℕ → Packer → Packer
add_septet septet p = record p {
  bit = (p.bit + septet * 2 ^ p.bits) % 2 ^ 32;
  bits = p.bits + 7;
  len = p.len + 1;
}

-- `sprintf(ptr, "%02X", (bit & 0xFF))`
unfoldable pub emit : Packer → Packer
emit p = record p { octets = p.octets ++ p.bit % 256 ∷ [] }

-- `while (bits >= 8)`, on fuel
unfoldable pub flush : ℕ → Packer → Packer
unfolding emit
flush zero p = p
flush (suc fuel) p =
    let next = flush fuel (record (emit p) { bit = p.bit / 256; bits = p.bits - 8 }) in
    if leb 8 p.bits then next else p

-- at most 21 bits are there, so three rounds are enough
abbrev pub flush_all : Packer → Packer
flush_all = flush 3

unfoldable pub encode_char : ℕ → Packer → Packer
unfolding wcschr add_septet flush
encode_char c p = elim (wcschr gsm7 c) [
  | some i ↦ flush_all (add_septet i p)
  | none ↦ elim (wcschr gsm7_ext c) [
    | none ↦ p
    | some i ↦ flush_all (add_septet i (add_septet 27 p))
  ]
]

unfoldable pub encode_chars : List ℕ → Packer → Packer
unfolding encode_char
encode_chars [] p = p
encode_chars (c ∷ t) p = encode_chars t (encode_char c p)

abbrev pub empty_packer : Packer
empty_packer = record { bit = 0; bits = 0; len = 0; octets = [] }

-- what is left when the text has ended
unfoldable pub finish_text : Packer → Packer
unfolding emit
finish_text p = if ltb 0 p.bits then emit p else p

abbrev pub hex_bytes : List ℕ → Bytes
hex_bytes [] = []
hex_bytes (o ∷ os) = hex_byte o ++ hex_bytes os

-- `%X` of a number below 4096
unfoldable pub hex : ℕ → Bytes
unfolding hex_byte hex_digit
hex n = if ltb n 256 then hex_byte n else hex_digit (n / 256) ∷ hex_byte (n % 256)

-- The first two digits of the number of septets come first. A text of 4096 septets or more is beyond
-- what `hex` is for, and beyond any message.
unfoldable pub encode_text : List ℕ → Bytes
unfolding encode_chars finish_text hex
encode_text t =
    let p = finish_text (encode_chars t empty_packer) in take 2 (hex p.len) ++ hex_bytes p.octets

unfoldable pub encode_pdu : Option Bytes → Bytes → List ℕ → Bytes
unfolding encode_number encode_text hex
encode_pdu none number text =
    let to = encode_number number in
    codes "000500" ++ (hex (length to - 2) ++ (to ++ (codes "0000" ++ encode_text text)))
encode_pdu (some smsc) number text =
    let to = encode_number number in
    let from = encode_number smsc in
    hex (length from / 2)
    ++ (from
        ++ (codes "0500" ++ (hex (length to - 2) ++ (to ++ (codes "0000" ++ encode_text text)))))
