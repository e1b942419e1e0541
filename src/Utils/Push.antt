-- ===== src/Utils/Push.antt =====
-- `mp_array_push` and `mp_array_push_int` against joining with commas.
use monitoringplug.Base.{
  ℕ, zero, suc, ◌+◌, ◌<◌, true, false, Option, some, List, [], ◌∷◌, ◌++◌, append_assoc, ◌≡◌, ◌≢◌,
  refl, ap, subst, ◌∙◌, inl, inr, arith, Bytes, length, length-append, ==_iff, All, All-map,
}
use monitoringplug.Base.Int.{ℤ, pos, negsuc}
use monitoringplug.Text.{is_digit, strtol, decimal, decimal_ℤ}
use monitoringplug.Text.Laws.{strsep-none, strsep-some, strsep-token, strsep-cases}
use monitoringplug.Text.Decimal.{IsLong, decimal-IsDigits, strtol-decimal_ℤ}
use monitoringplug.Check.Integer.{IsInt}
use monitoringplug.Utils.{is_comma, push_loop, array_push, to_int, push_int_loop, array_push_int}

-- One item without a comma.
abbrev pub IsItem : Bytes → Type 0
IsItem = All (λ c. is_comma c ≡ false)

abbrev pub join : List Bytes → Bytes
join [] = []
join (t ∷ []) = t
join (t ∷ u ∷ ts) = t ++ b',' ∷ join (u ∷ ts)

-- What a loop over the items of a text adds: at least one item, and the text is them joined.
pub record Items (s : Bytes) (items : List Bytes) : Type 0 where
  pub some_item : items ≢ []
  pub plain : All IsItem items
  pub whole : join items ≡ s

Items-cons :
    {token rest : Bytes} {items : List Bytes}
    → IsItem token
    → Items rest items
    → Items (token ++ b',' ∷ rest) (token ∷ items)
Items-cons {items = []} h k = absurd (k.some_item refl)
Items-cons {token} {items = u ∷ ts} h k = record {
  some_item = λ e. cc;
  plain = (h, k.plain);
  whole = ap (λ r. token ++ b',' ∷ r) k.whole;
}

push_loop-Items :
    (fuel : ℕ) (array : List Bytes) (s : Bytes)
    → length s < fuel
    → (items : List Bytes) × (push_loop (suc fuel) array (some s) ≡ array ++ items) × Items s items
unfolding push_loop
push_loop-Items zero array s h = absurd (omega arith)
push_loop-Items (suc fuel) array s h = elim (strsep-cases is_comma s) [
  | inl e ↦ (
    s ∷ [],
    ap (λ (q : Bytes × Option Bytes). push_loop (suc fuel) (array ++ q.0 ∷ []) q.1) e,
    record { some_item = λ f. cc; plain = (rw e at (strsep-token is_comma s), tt); whole = refl },
  )
  | inr q ↦
      let size = length-append q.token (q.separator ∷ q.rest) in
      let (items, pushed, found) =
        push_loop-Items fuel (array ++ q.token ∷ []) q.rest
          (omega (arith, size, ap length q.whole)) in
      (
        q.token ∷ items,
        ap (λ (r : Bytes × Option Bytes). push_loop (suc fuel) (array ++ r.0 ∷ []) r.1) q.found
            ∙ pushed
            ∙ append_assoc array (q.token ∷ []) items,
        rw (q.whole, (==_iff _ _).0 q.separates)
            (Items-cons (rw q.found at (strsep-token is_comma s)) found),
      )
]

-- Pushing a text adds items to the array, at least one, none of which holds a comma and which joined
-- with commas are the text; the array's items from before stay in front.
pub array_push-Items :
    (array : List Bytes) (s : Bytes)
    → (items : List Bytes) × (array_push array (some s) ≡ array ++ items) × Items s items
unfolding array_push
array_push-Items array s =
    subst
      (λ k. (items : List Bytes) × (push_loop k array (some s) ≡ array ++ items) × Items s items)
      {x = suc (length s + 1)} (omega arith) (push_loop-Items (length s + 1) array s (omega arith))

pub to_int-IsInt : (n : ℤ) → IsInt n → to_int n ≡ n
unfolding to_int
to_int-IsInt (pos n) h = ground arith
to_int-IsInt (negsuc n) h = ground arith

pub IsInt-IsLong : (n : ℤ) → IsInt n → IsLong n
IsInt-IsLong (pos n) h = omega arith
IsInt-IsLong (negsuc n) h = omega arith

-- what a printed `int` is read as
read_back : (n : ℤ) → IsInt n → to_int (strtol (decimal_ℤ n)).0 ≡ n
read_back n h = ap (λ p. to_int p.0) (strtol-decimal_ℤ n (IsInt-IsLong n h)) ∙ to_int-IsInt n h

digit-item : (c : ℕ) → is_digit c ≡ true → is_comma c ≡ false
unfolding is_digit
digit-item c h = ground arith

decimal_ℤ-IsItem : (n : ℤ) → IsItem (decimal_ℤ n)
unfolding decimal_ℤ
decimal_ℤ-IsItem (pos n) = All-map digit-item (decimal n) (decimal-IsDigits n)
decimal_ℤ-IsItem (negsuc n) =
    (refl, All-map digit-item (decimal (suc n)) (decimal-IsDigits (suc n)))

abbrev pub printed : List ℤ → List Bytes
printed [] = []
printed (n ∷ ns) = decimal_ℤ n ∷ printed ns

-- one round, on what `strsep` yields
abbrev next : ℕ → List ℤ → Bytes × Option Bytes → List ℤ
next fuel array (item, rest) = push_int_loop (suc fuel) (array ++ to_int (strtol item).0 ∷ []) rest

push_int_loop-printed :
    (fuel : ℕ) (array : List ℤ) (n : ℤ) (ns : List ℤ)
    → length (join (printed (n ∷ ns))) < fuel
    → All IsInt (n ∷ ns)
    → push_int_loop (suc fuel) array (some (join (printed (n ∷ ns)))) ≡ array ++ n ∷ ns
unfolding push_int_loop
push_int_loop-printed zero array n ns h k = absurd (omega arith)
push_int_loop-printed (suc fuel) array n [] h (k, ks) =
    ap (next fuel array) (strsep-none is_comma (decimal_ℤ n) (decimal_ℤ-IsItem n))
    ∙ ap (λ i. array ++ i ∷ []) (read_back n k)
push_int_loop-printed (suc fuel) array n (m ∷ ns) h (k, ks) =
    ap (next fuel array)
      (strsep-some is_comma (decimal_ℤ n) b',' (join (printed (m ∷ ns))) (decimal_ℤ-IsItem n) refl)
    ∙ ap (λ i. push_int_loop (suc fuel) (array ++ i ∷ []) (some (join (printed (m ∷ ns)))))
        (read_back n k)
    ∙ (push_int_loop-printed fuel (array ++ n ∷ []) m ns
          (omega (arith, length-append (decimal_ℤ n) (b',' ∷ join (printed (m ∷ ns))))) ks
        ∙ append_assoc array (n ∷ []) (m ∷ ns))

-- Pushing one or more `int`s, printed in decimal and joined with commas, adds just these numbers to
-- the array.
pub array_push_int-printed :
    (array : List ℤ) (n : ℤ) (ns : List ℤ)
    → All IsInt (n ∷ ns)
    → array_push_int array (some (join (printed (n ∷ ns)))) ≡ array ++ n ∷ ns
unfolding array_push_int
array_push_int-printed array n ns h =
    subst (λ k. push_int_loop k array (some (join (printed (n ∷ ns)))) ≡ array ++ n ∷ ns)
      {x = suc (length (join (printed (n ∷ ns))) + 1)} (omega arith)
      (push_int_loop-printed (length (join (printed (n ∷ ns))) + 1) array n ns (omega arith) h)
