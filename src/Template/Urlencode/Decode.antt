-- ===== src/Template/Urlencode/Decode.antt =====
-- `mp_template_urlencode` against percent encoding, and its way back.
use monitoringplug.Base.{
  ℕ, zero, suc, ◌+◌, ◌-◌, ◌*◌, ◌/◌, ◌%◌, ◌≤◌, ◌<◌, true, false, some, [], ◌∷◌, ◌++◌, ◌≡◌, refl, sym,
  ap, ◌∙◌, inl, inr, arith, Bytes, length, drop, ltb, ◌==◌, if◌then◌else◌, All, Bool-cases,
}
use monitoringplug.Text.{hex_digit, hex_byte}
use monitoringplug.Template.Urlencode.{
  is_unreserved, percent, until_nul, overlay, encode_loop, delta, zeros, template_urlencode,
}

-- The specification: every other byte as `%` and two hexadecimal digits.
abbrev pub encoded : Bytes → Bytes
encoded [] = []
encoded (c ∷ s) = (if is_unreserved c then c ∷ [] else b'%' ∷ hex_byte c) ++ encoded s

-- The specification of the way back, on the bytes of the encoding.
unfoldable pub hex_value : ℕ → ℕ
hex_value c = if ltb c 58 then c - b'0' else c - 55

unfoldable pub decode : Bytes → Bytes
unfolding hex_value
decode [] = []
decode (c ∷ []) = c ∷ []
decode (c ∷ d ∷ []) = c ∷ d ∷ []
decode (c ∷ d ∷ e ∷ s) =
    let plain = c ∷ decode (d ∷ e ∷ s) in
    let coded = (hex_value d * 16 + hex_value e) ∷ decode s in if c == b'%' then coded else plain

abbrev pub IsAscii : Bytes → Type 0
IsAscii = All (λ c. c < 128)

abbrev AllZero : Bytes → Type 0
AllZero = All (λ c. c ≡ 0)

until_nul-AllZero : (m : Bytes) → AllZero m → until_nul m ≡ []
unfolding until_nul
until_nul-AllZero [] h = refl
until_nul-AllZero (c ∷ m) (h, hs) = ground arith

drop-AllZero : (n : ℕ) (m : Bytes) → AllZero m → AllZero (drop n m)
drop-AllZero zero m h = h
drop-AllZero (suc n) [] h = tt
drop-AllZero (suc n) (c ∷ m) (h, hs) = drop-AllZero n m hs

overlay-percent :
    (c : ℕ) (m : Bytes)
    → c < 128
    → overlay (percent c ++ 0 ∷ []) m
      ≡ b'%' ∷ hex_digit (c / 16) ∷ hex_digit (c % 16) ∷ 0 ∷ drop 4 m
unfolding overlay percent
overlay-percent c m h = ground arith

-- While the text is ASCII, what lies ahead stays zero, and the loop writes the encoding.
encode_loop-encoded : (m s : Bytes) → AllZero m → IsAscii s → encode_loop m s ≡ encoded s
unfolding encode_loop hex_byte
encode_loop-encoded m [] z h = until_nul-AllZero m z
encode_loop-encoded m (c ∷ s) z (h, hs) = elim (Bool-cases (is_unreserved c)) [
  | inl e ↦ rw e (ap (◌∷◌ c) (encode_loop-encoded (drop 1 m) s (drop-AllZero 1 m z) hs))
  | inr e ↦
      rw (e, overlay-percent c m h)
        (rw (encode_loop-encoded (0 ∷ drop 4 m) s (refl, drop-AllZero 4 m z) hs))
]

zeros-AllZero : (n : ℕ) → AllZero (zeros n)
unfolding zeros
zeros-AllZero zero = tt
zeros-AllZero (suc n) = (refl, zeros-AllZero n)

-- With nothing to encode the argument itself is the answer.
delta-zero : (s : Bytes) → delta s ≡ 0 → encoded s ≡ s
unfolding delta
delta-zero [] h = refl
delta-zero (c ∷ s) h = elim (Bool-cases (is_unreserved c)) [
  | inl e ↦ rw e (ap (◌∷◌ c) (delta-zero s (rw e at h)))
  | inr e ↦ absurd (omega (arith, rw e at h))
]

-- An ASCII text is encoded byte by byte.
pub template_urlencode-encoded :
    (s : Bytes) → IsAscii s → template_urlencode (some s) ≡ some (encoded s)
unfolding template_urlencode
template_urlencode-encoded s h = elim (Bool-cases (delta s == 0)) [
  | inl e ↦ rw e (ap some (sym (delta-zero s (ground arith))))
  | inr e ↦ rw e (ap some (encode_loop-encoded _ s (zeros-AllZero (delta s + length s + 1)) h))
]

hex_value-hex_digit : (d : ℕ) → d < 16 → hex_value (hex_digit d) ≡ d
unfolding hex_value hex_digit
hex_value-hex_digit d h = ground arith

decode_plain : (c : ℕ) (s : Bytes) → (c == b'%') ≡ false → decode (c ∷ s) ≡ c ∷ decode s
unfolding decode
decode_plain c [] h = refl
decode_plain c (d ∷ []) h = refl
decode_plain c (d ∷ e ∷ s) h = rw h

decode_coded : (c : ℕ) (s : Bytes) → c < 128 → decode (b'%' ∷ (hex_byte c ++ s)) ≡ c ∷ decode s
unfolding decode hex_byte
decode_coded c s h =
    rw (hex_value-hex_digit (c / 16) (omega arith), hex_value-hex_digit (c % 16) (omega arith))
      (ap (λ d. d ∷ decode s) (omega arith))

unreserved-percent : (c : ℕ) → is_unreserved c ≡ true → (c == b'%') ≡ false
unfolding is_unreserved
unreserved-percent c h = ground arith

decode-encoded : (s : Bytes) → IsAscii s → decode (encoded s) ≡ s
decode-encoded [] h = unfold decode in refl
decode-encoded (c ∷ s) (h, hs) = elim (Bool-cases (is_unreserved c)) [
  | inl e ↦
      rw e (decode_plain c (encoded s) (unreserved-percent c e) ∙ ap (◌∷◌ c) (decode-encoded s hs))
  | inr e ↦ rw e (decode_coded c (encoded s) h ∙ ap (◌∷◌ c) (decode-encoded s hs))
]

-- What becomes of an ASCII text decodes to that text again.
pub decode-template_urlencode :
    (s : Bytes) → IsAscii s → (e : Bytes) × (template_urlencode (some s) ≡ some e) × (decode e ≡ s)
decode-template_urlencode s h = (encoded s, template_urlencode-encoded s h, decode-encoded s h)

-- Of an ASCII text the encoding and its NUL fill the block exactly.
pub length-encoded : (s : Bytes) → length (encoded s) + 1 ≡ delta s + length s + 1
unfolding delta hex_byte
length-encoded [] = refl
length-encoded (c ∷ s) = elim (Bool-cases (is_unreserved c)) [
  | inl e ↦ rw e (omega (arith, length-encoded s))
  | inr e ↦ rw e (omega (arith, length-encoded s))
]

-- For a byte from 128 on `sprintf` writes ten bytes, NUL included, where three are counted.
pub length-percent : (c : ℕ) → 128 ≤ c → length (percent c ++ 0 ∷ []) ≡ 10
unfolding percent hex_byte
length-percent c h = ground arith
