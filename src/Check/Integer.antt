-- ===== src/Check/Integer.antt =====
-- `is_integer` and the range of `int`.
use monitoringplug.Base.{
  suc, true, false, some, [], ◌∷◌, ◌≡◌, refl, sym, subst, ap, ◌↔◌, arith, Bytes, ==_iff, All,
}
use monitoringplug.Base.Int.{ℤ, pos, negsuc, ◌≤ℤ◌}
use monitoringplug.Text.{strtol, decimal, decimal_ℤ}
use monitoringplug.Text.Laws.{strspn-eq-length}
use monitoringplug.Text.Decimal.{IsDigits, IsLong, decimal-IsDigits, strtol-decimal_ℤ}
use monitoringplug.Check.{is_integer_char, int_max, int_min, is_integer}

-- `n` fits an `int`.
abbrev pub IsInt : ℤ → Type 0
IsInt n = (int_min ≤ℤ n) × (n ≤ℤ int_max)

-- A text passes exactly if it holds nothing but digits, `-` and blanks and what `strtol` makes of it
-- is no range error and fits an `int`. So no digit is needed, and `-` may stand anywhere.
pub is_integer_iff :
    (s : Bytes)
    → (is_integer (some s) ≡ true)
      ↔ (All (λ c. is_integer_char c ≡ true) s × ((strtol s).1 ≡ false) × IsInt (strtol s).0)
unfolding is_integer
is_integer_iff s =
    let (to_all, of_all) = strspn-eq-length is_integer_char s in
    (
      λ h. (to_all (ground arith), ground arith, ground arith),
      λ (a, b, c). rw ((==_iff _ _).1 (of_all a), b) (ground arith),
    )

digits-chars : (s : Bytes) → IsDigits s → All (λ c. is_integer_char c ≡ true) s
unfolding is_integer_char
digits-chars [] h = tt
digits-chars (c ∷ s) (h, hs) = (ground arith, digits-chars s hs)

decimal_ℤ-chars : (n : ℤ) → All (λ c. is_integer_char c ≡ true) (decimal_ℤ n)
unfolding decimal_ℤ is_integer_char
decimal_ℤ-chars (pos n) = digits-chars (decimal n) (decimal-IsDigits n)
decimal_ℤ-chars (negsuc n) = (refl, digits-chars (decimal (suc n)) (decimal-IsDigits (suc n)))

-- The decimal print of a `long` passes exactly if the number fits an `int`.
pub is_integer-decimal_ℤ : (n : ℤ) → IsLong n → (is_integer (some (decimal_ℤ n)) ≡ true) ↔ IsInt n
is_integer-decimal_ℤ n h =
    let value = strtol-decimal_ℤ n h in
    let (sound, complete) = is_integer_iff (decimal_ℤ n) in
    (
      λ k. subst IsInt (ap (λ p. p.0) value) (sound k).2,
      λ k.
          complete
            (decimal_ℤ-chars n, ap (λ p. p.1) value, subst IsInt (sym (ap (λ p. p.0) value)) k),
    )
