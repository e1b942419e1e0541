-- ===== src/Text/Decimal.antt =====
-- Decimal numbers: `strtol` reads what `%ld` writes.
use native.Mathlib.Nat.{pow-succ'}
use monitoringplug.Base.{
  ℕ, zero, suc, ◌+◌, ◌*◌, ◌/◌, ◌%◌, ◌^◌, ◌≤◌, ◌<◌, true, false, [], ◌∷◌, ◌≡◌, ◌≢◌, refl, ap, ◌∙◌,
  inl, inr, arith, Bytes, ◌==◌, All, Bool-cases,
}
use monitoringplug.Base.Int.{ℤ, pos, negsuc}
use monitoringplug.Text.{
  is_digit, long_max, digits_value, clamp_long, strtol, decimal_onto, decimal, decimal_ℤ,
}

abbrev pub IsDigits : Bytes → Type 0
IsDigits = All (λ c. is_digit c ≡ true)

is_digit-mod : (n : ℕ) → is_digit (b'0' + n % 10) ≡ true
unfolding is_digit
is_digit-mod n = ground arith

decimal_onto-IsDigits :
    (fuel n : ℕ) (out : Bytes) → IsDigits out → IsDigits (decimal_onto fuel n out)
unfolding decimal_onto
decimal_onto-IsDigits zero n out h = h
decimal_onto-IsDigits (suc fuel) n out h = elim (Bool-cases (n / 10 == 0)) [
  | inl e ↦ rw e (is_digit-mod n, h)
  | inr e ↦ rw e (decimal_onto-IsDigits fuel (n / 10) _ (is_digit-mod n, h))
]

pub decimal-IsDigits : (n : ℕ) → IsDigits (decimal n)
unfolding decimal
decimal-IsDigits n = decimal_onto-IsDigits 20 n [] tt

digits_value_step :
    (n m : ℕ) (out : Bytes)
    → digits_value m ((b'0' + n % 10) ∷ out) ≡ digits_value (m * 10 + n % 10) out
unfolding digits_value
digits_value_step n m out = ground arith

pow10-suc : (f : ℕ) → 10 ^ suc f ≡ 10 * 10 ^ f
pow10-suc f = pow-succ' 10 f

digits_value-decimal_onto :
    (fuel n : ℕ) (out : Bytes)
    → n < 10 ^ fuel
    → digits_value 0 (decimal_onto fuel n out) ≡ digits_value n out
unfolding decimal_onto
digits_value-decimal_onto zero n out h = ap (λ m. digits_value m out) (omega arith)
digits_value-decimal_onto (suc fuel) n out h = elim (Bool-cases (n / 10 == 0)) [
  | inl e ↦ rw e (digits_value_step n 0 out ∙ ap (λ m. digits_value m out) (ground arith))
  | inr e ↦ rw e (
      digits_value-decimal_onto fuel (n / 10) _ (omega (arith, pow10-suc fuel))
      ∙ digits_value_step n (n / 10) out
      ∙ ap (λ m. digits_value m out) (omega arith))
]

pub digits_value-decimal : (n : ℕ) → n < 10 ^ 20 → digits_value 0 (decimal n) ≡ n
unfolding decimal digits_value
digits_value-decimal n h = digits_value-decimal_onto 20 n [] h

decimal_onto-ne-nil : (fuel n : ℕ) (out : Bytes) → out ≢ [] → decimal_onto fuel n out ≢ []
unfolding decimal_onto
decimal_onto-ne-nil zero n out h = h
decimal_onto-ne-nil (suc fuel) n out h = elim (Bool-cases (n / 10 == 0)) [
  | inl e ↦ rw e (cc)
  | inr e ↦ rw e (decimal_onto-ne-nil fuel (n / 10) _ cc)
]

pub decimal-ne-nil : (n : ℕ) → decimal n ≢ []
unfolding decimal decimal_onto
decimal-ne-nil n = elim (Bool-cases (n / 10 == 0)) [
  | inl e ↦ rw e (cc)
  | inr e ↦ rw e (decimal_onto-ne-nil 19 (n / 10) _ cc)
]

strtol-digits : (s : Bytes) → s ≢ [] → IsDigits s → strtol s ≡ clamp_long false (digits_value 0 s)
unfolding strtol is_digit
strtol-digits [] h d = absurd (h refl)
strtol-digits (c ∷ s) h (d, ds) = ground arith

-- `n` fits a 64-bit `long`.
abbrev pub IsLong : ℤ → Type 0
IsLong (pos n) = n ≤ long_max
IsLong (negsuc n) = n ≤ long_max

-- `strtol` reads back what `%ld` writes of a 64-bit number, without a range error.
pub strtol-decimal_ℤ : (n : ℤ) → IsLong n → strtol (decimal_ℤ n) ≡ (n, false)
unfolding clamp_long decimal_ℤ
strtol-decimal_ℤ (pos n) h =
    strtol-digits (decimal n) (decimal-ne-nil n) (decimal-IsDigits n)
    ∙ ap (clamp_long false) (digits_value-decimal n (omega arith))
    ∙ ground arith
strtol-decimal_ℤ (negsuc n) h =
    unfold strtol in
    ap (clamp_long true) (digits_value-decimal (suc n) (omega arith)) ∙ ground arith
