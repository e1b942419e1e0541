-- ===== src/Template/Urlencode.antt =====
-- `mp_template_urlencode`. The block behind the text written so far is zero at first. `sprintf` writes
-- a text and a NUL into it, and the pointer then moves on by three bytes.
pub mod Decode
use monitoringplug.Base.{
  ℕ, zero, suc, ◌+◌, ◌-◌, ◌*◌, ◌/◌, ◌%◌, ◌≤◌, ◌<◌, Bool, true, false, ◌&&◌, ◌||◌, Option, none,
  some, [], ◌∷◌, ◌++◌, append_assoc, ◌≡◌, refl, sym, ap, ◌∙◌, inl, inr, arith, Bytes, codes, length,
  length-append, take, drop, ltb, leb, ◌==◌, if◌then◌else◌, All, Bool-cases,
}
use monitoringplug.Text.{is_alnum, hex_digit, hex_byte, is_xdigit}

unfoldable pub is_unreserved : ℕ → Bool
unfolding is_alnum
is_unreserved c = is_alnum c || c == b'-' || c == b'_' || c == b'.' || c == b'~'

-- `"%%%02X"` of the byte as an `int`; a `char` is signed, so a byte from 128 on is negative
unfoldable pub percent : ℕ → Bytes
unfolding hex_byte
percent c = if ltb c 128 then b'%' ∷ hex_byte c else codes "%FFFFFF" ++ hex_byte c

-- the string that memory holds, up to its NUL
unfoldable pub until_nul : Bytes → Bytes
until_nul [] = []
until_nul (c ∷ s) = let rest = until_nul s in if c == 0 then [] else c ∷ rest

-- `s` written over the front of `memory`
unfoldable pub overlay : Bytes → Bytes → Bytes
overlay s memory = s ++ drop (length s) memory

unfoldable pub encode_loop : Bytes → Bytes → Bytes
unfolding is_unreserved percent until_nul overlay
encode_loop memory [] = until_nul memory
encode_loop memory (c ∷ s) =
    let plain = c ∷ encode_loop (drop 1 memory) s in
    let written = overlay (percent c ++ 0 ∷ []) memory in
    let coded = take 3 written ++ encode_loop (drop 3 written) s in
    if is_unreserved c then plain else coded

-- "Calcuclate the string size delta."
unfoldable pub delta : Bytes → ℕ
unfolding is_unreserved
delta [] = 0
delta (c ∷ s) = if is_unreserved c then delta s else delta s + 2

unfoldable pub zeros : ℕ → Bytes
zeros zero = []
zeros (suc n) = 0 ∷ zeros n

unfoldable pub template_urlencode : Option Bytes → Option Bytes
unfolding delta zeros encode_loop
template_urlencode none = none
template_urlencode (some s) =
    if delta s == 0 then some s else some (encode_loop (zeros (delta s + length s + 1)) s)
