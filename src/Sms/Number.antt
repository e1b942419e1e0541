-- ===== src/Sms/Number.antt =====
-- `sms_encode_number` and its way back.
use monitoringplug.Base.{
  false, [], ◌∷◌, ◌≡◌, refl, ap, ◌∙◌, inl, inr, arith, Bytes, ◌==◌, All, Bool-cases, if◌then◌else◌,
}
use monitoringplug.Sms.{swap_pairs, encode_number}

-- The specification of the way back: the digits of each two in their order, without an `F`.
unfoldable pub unswap : Bytes → Bytes
unswap [] = []
unswap (d ∷ []) = []
unswap (d ∷ c ∷ s) = let rest = unswap s in if d == b'F' then c ∷ [] else c ∷ d ∷ rest

unfoldable pub decode_number : Bytes → Bytes
unfolding unswap
decode_number (a ∷ b ∷ s) = if a == b'9' then b'+' ∷ unswap s else unswap s
decode_number _ = []

abbrev pub IsNumber : Bytes → Type 0
IsNumber = All (λ c. (c == b'F') ≡ false)

unswap-swap_pairs : (s : Bytes) → IsNumber s → unswap (swap_pairs s) ≡ s
unfolding unswap swap_pairs
unswap-swap_pairs [] h = refl
unswap-swap_pairs (c ∷ []) h = refl
unswap-swap_pairs (c ∷ d ∷ s) (h, (k, hs)) = rw k (ap (λ r. c ∷ d ∷ r) (unswap-swap_pairs s hs))

-- A number without an `F`, with or without a leading `+`, is found again in its encoding.
pub decode_number-encode_number : (s : Bytes) → IsNumber s → decode_number (encode_number s) ≡ s
unfolding decode_number encode_number
decode_number-encode_number [] h = unfold unswap in refl
decode_number-encode_number (c ∷ s) (h, hs) = elim (Bool-cases (c == b'+')) [
  | inl e ↦ rw e (ap (λ r. b'+' ∷ r) (unswap-swap_pairs s hs) ∙ ap (λ x. x ∷ s) (ground arith))
  | inr e ↦ rw e (unswap-swap_pairs (c ∷ s) (h, hs))
]
