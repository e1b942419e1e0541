-- ===== src/Dhcp/Block.antt =====
-- Blocks of memory: writes behind what they hold, and the room for one option.
use monitoringplug.Base.{
  ℕ, zero, suc, ◌+◌, ◌-◌, ◌≤◌, Option, none, some, [], ◌∷◌, ◌++◌, append_assoc, ◌≡◌, ◌≢◌, refl, sym,
  ap, ◌∙◌, arith, Bytes, length, length-append, take,
}
use monitoringplug.Dhcp.{Packet, dhcpopt_end, fresh, store, copy, ◌>>=◌, write_option}

store_front :
    (a : Bytes) (x v : ℕ) (b : Bytes) → store (length a) v (a ++ x ∷ b) ≡ some (a ++ v ∷ b)
unfolding store
store_front [] x v b = refl
store_front (c ∷ a) x v b = rw (store_front a x v b)

-- A write behind `a`, with the index and the block as they are written in the code.
pub store_at :
    (i v : ℕ) {block : Bytes} (a : Bytes) (x : ℕ) (b : Bytes)
    → i ≡ length a
    → block ≡ a ++ x ∷ b
    → store i v block ≡ some (a ++ v ∷ b)
store_at i v {block} a x b e f =
    ap (λ j. store j v block) e ∙ ap (store (length a) v) f ∙ store_front a x v b

copy_at :
    (i : ℕ) (s : Bytes) {block : Bytes} (a u b : Bytes)
    → i ≡ length a
    → block ≡ a ++ (u ++ b)
    → length u ≡ length s
    → copy i s block ≡ some (a ++ (s ++ b))
unfolding copy
copy_at i [] a [] b e f h = ap some f
copy_at i [] a (x ∷ u) b e f h = absurd (omega arith)
copy_at i (c ∷ s) a [] b e f h = absurd (omega arith)
copy_at i (c ∷ s) a (x ∷ u) b e f h =
    let behind : Bytes = a ++ c ∷ [] in
    ap (λ o. elim o [ none ↦ none | some k ↦ copy (i + 1) s k ]) (store_at i c a x (u ++ b) e f)
    ∙ copy_at (i + 1) s behind u b (omega (arith, length-append a (c ∷ [])))
        (sym (append_assoc a (c ∷ []) (u ++ b))) (omega arith)
    ∙ ap some (append_assoc a (c ∷ []) (s ++ b))

pub bind_some {ℓ κ} :
    {A : Type ℓ} {B : Type κ} {m : Option A} {a : A} (f : A → Option B)
    → m ≡ some a
    → (m >>= f) ≡ f a
bind_some f e = ap (λ o. o >>= f) e

-- The four writes of an option with content, into a block with room for them behind `a`.
abbrev pub writes : ℕ → ℕ → Bytes → Bytes → Option Bytes
writes n code s block = do
  opts ← store (n - 1) code block
  sized ← store n (length s) opts
  filled ← copy (n + 1) s sized
  store (n + 2 + length s - 1) dhcpopt_end filled

pub writes_at :
    (n code : ℕ) (s : Bytes) {block : Bytes} (a : Bytes) (x y : ℕ) (u : Bytes) (z : ℕ) (b : Bytes)
    → n ≡ length a + 1
    → block ≡ a ++ x ∷ y ∷ (u ++ z ∷ b)
    → length u ≡ length s
    → writes n code s block ≡ some (a ++ code ∷ length s ∷ (s ++ dhcpopt_end ∷ b))
writes_at n code s a x y u z b k e h =
    let coded : Bytes = a ++ code ∷ [] in
    let sized : Bytes = coded ++ length s ∷ [] in
    let filled : Bytes = sized ++ s in
    let one = length-append a (code ∷ []) in
    let two = length-append coded (length s ∷ []) in
    let three = length-append sized s in
    bind_some _ (store_at (n - 1) code a x (y ∷ (u ++ z ∷ b)) (omega arith) e)
    ∙ bind_some _ (
        store_at n (length s) coded y (u ++ z ∷ b) (omega arith)
          (sym (append_assoc a (code ∷ []) (y ∷ (u ++ z ∷ b)))))
    ∙ bind_some _ (
        copy_at (n + 1) s sized u (z ∷ b) (omega arith)
          (sym (append_assoc coded (length s ∷ []) (u ++ z ∷ b))) h)
    ∙ store_at (n + 2 + length s - 1) dhcpopt_end filled z b (omega arith)
        (sym (append_assoc sized s (z ∷ b)))
    ∙ ap some (simp append_assoc)

pub write_option-writes :
    (code : ℕ) (s : Bytes) (p : Packet)
    → s ≢ []
    → write_option code s p ≡ (
        writes p.optlen code s p.opts >>= λ done.
        some (record p { opts = done; optlen = p.optlen + 2 + length s }))
unfolding write_option
write_option-writes code [] p h = absurd (h refl)
write_option-writes code (c ∷ s) p h = ground arith

-- Room for one option: two bytes, the content, and the end mark.
pub record Room (len : ℕ) (block : Bytes) : Type 0 where
  pub first : ℕ
  pub second : ℕ
  pub middle : Bytes
  pub last : ℕ
  pub whole : block ≡ first ∷ second ∷ (middle ++ last ∷ [])
  pub fits : length middle ≡ len

split_last :
    (len : ℕ) (s : Bytes)
    → length s ≡ len + 1
    → (u : Bytes) × (z : ℕ) × (s ≡ u ++ z ∷ []) × (length u ≡ len)
split_last len [] h = absurd (omega arith)
split_last zero (c ∷ []) h = ([], c, refl, refl)
split_last zero (c ∷ d ∷ s) h = absurd (omega arith)
split_last (suc len) (c ∷ s) h =
    let (u, z, e, f) = split_last len s (omega arith) in (c ∷ u, z, ap (◌∷◌ c) e, ap suc f)

pub Room-of_length : (len : ℕ) (s : Bytes) → length s ≡ len + 3 → Room len s
Room-of_length len [] h = absurd (omega arith)
Room-of_length len (x ∷ []) h = absurd (omega arith)
Room-of_length len (x ∷ y ∷ s) h =
    let (u, z, e, f) = split_last len s (omega arith) in
    record { first = x; second = y; middle = u; last = z; whole = ap (λ t. x ∷ y ∷ t) e; fits = f }

pub length-fresh : (n : ℕ) → length (fresh n) ≡ n
unfolding fresh
length-fresh zero = refl
length-fresh (suc n) = ap suc (length-fresh n)

pub length-take : (n : ℕ) (s : Bytes) → n ≤ length s → length (take n s) ≡ n
length-take zero s h = refl
length-take (suc n) [] h = absurd (omega arith)
length-take (suc n) (c ∷ s) h = ap suc (length-take n s (omega arith))

pub take-append_more : (a b : Bytes) (k : ℕ) → take (length a + k) (a ++ b) ≡ a ++ take k b
take-append_more [] b k = ap (λ n. take n b) (omega arith)
take-append_more (c ∷ a) b k =
    ap (λ n. take n (c ∷ (a ++ b))) {x = suc (length a) + k} {y = suc (length a + k)} (omega arith)
    ∙ ap (◌∷◌ c) (take-append_more a b k)
