-- ===== src/Sms/Packing.antt =====
-- The octets of `sms_encode_text` hold the septets, seven bits each, one behind the other.
use native.Mathlib.Nat.{pow-suc, pow-le-pow_right}
use monitoringplug.Base.{
  ℕ, zero, suc, ◌+◌, ◌-◌, ◌*◌, ◌/◌, ◌%◌, ◌^◌, ◌≤◌, ◌<◌, none, some, List, [], ◌∷◌, ◌++◌, append-nil,
  append_assoc, ◌≡◌, refl, sym, ap, subst, ◌∙◌, inl, inr, arith, length, length-append, leb, ltb,
  All, All-append, Bool-cases, Option-cases,
}
use monitoringplug.Sms.{
  gsm7, gsm7_ext, wcschr, Packer, add_septet, emit, flush, flush_all, encode_char, encode_chars,
  empty_packer, finish_text,
}

-- The number that digits make in base `b`, the lowest first, with `t` above them.
abbrev pub onto : ℕ → List ℕ → ℕ → ℕ
onto b [] t = t
onto b (d ∷ ds) t = d + b * onto b ds t

onto-append : (b : ℕ) (ds es : List ℕ) (t : ℕ) → onto b (ds ++ es) t ≡ onto b ds (onto b es t)
onto-append b [] es t = refl
onto-append b (d ∷ ds) es t = ap (λ n. d + b * n) (onto-append b ds es t)

-- The specification: the septets of a text.
abbrev pub septets_of : ℕ → List ℕ
septets_of c = elim (wcschr gsm7 c) [
  | some i ↦ i ∷ []
  | none ↦ elim (wcschr gsm7_ext c) [ none ↦ [] | some i ↦ 27 ∷ i ∷ [] ]
]

abbrev pub septets : List ℕ → List ℕ
septets [] = []
septets (c ∷ t) = septets_of c ++ septets t

seven : (n : ℕ) → 2 ^ (n + 7) ≡ 128 * 2 ^ n
seven n =
    ap (λ m. 2 ^ m) {x = n + 7} {y = suc (suc (suc (suc (suc (suc (suc n))))))} (omega arith)
    ∙ omega (
      arith,
      pow-suc 2 n,
      pow-suc 2 (suc n),
      pow-suc 2 (suc (suc n)),
      pow-suc 2 (suc (suc (suc n))),
      pow-suc 2 (suc (suc (suc (suc n)))),
      pow-suc 2 (suc (suc (suc (suc (suc n))))),
      pow-suc 2 (suc (suc (suc (suc (suc (suc n)))))),
    )

eight : (n : ℕ) → 8 ≤ n → 2 ^ n ≡ 256 * 2 ^ (n - 8)
eight n h =
    ap (λ k. 2 ^ k) {x = n} {y = suc (n - 8 + 7)} (omega arith)
    ∙ omega (arith, pow-suc 2 (n - 8 + 7), seven (n - 8))

times_below : (s w : ℕ) → s < 128 → s * w ≤ 127 * w
times_below s w h = grind arith

shift : (a s t w v : ℕ) → v ≡ 128 * w → a + w * (s + 128 * t) ≡ a + s * w + v * t
shift a s t w v e = rw e (grind arith)

-- The variables hold the septets `ss`: with any number above, both make the same number.
record Holds (ss : List ℕ) (p : Packer) : Type 0 where
  same : (t : ℕ) → onto 128 ss t ≡ onto 256 p.octets (p.bit + 2 ^ p.bits * t)
  below : p.bit < 2 ^ p.bits
  count : p.len ≡ length ss
  size : 7 * length ss ≡ 8 * length p.octets + p.bits
  bytes : All (λ o. o < 256) p.octets

add_septet-Holds :
    (s : ℕ) {ss : List ℕ} (p : Packer)
    → s < 128
    → p.bits ≤ 14
    → Holds ss p
    → Holds (ss ++ s ∷ []) (add_septet s p)
unfolding add_septet
add_septet-Holds s {ss} p small room h =
    let w : ℕ = 2 ^ p.bits in
    let next : 2 ^ (p.bits + 7) ≡ 128 * w = seven p.bits in
    let limit : w ≤ 2 ^ 14 = pow-le-pow_right {n = 2} (omega arith) room in
    let bound : p.bit + s * w < 128 * w = omega (arith, times_below s w small, h.below) in
    let whole : (p.bit + s * w) % 2 ^ 32 ≡ p.bit + s * w = omega (arith, bound, limit) in
    record {
      same = λ t.
          onto-append 128 ss (s ∷ []) t
          ∙ h.same (s + 128 * t)
          ∙ ap (onto 256 p.octets)
              (shift p.bit s t w _ next ∙ ap (λ b. b + 2 ^ (p.bits + 7) * t) (sym whole));
      below = omega (arith, whole, next, bound);
      count = omega (arith, h.count, length-append ss (s ∷ []));
      size = omega (arith, h.size, length-append ss (s ∷ []));
      bytes = h.bytes;
    }

unshift : (a t w v : ℕ) → v ≡ 256 * w → a + v * t ≡ a % 256 + 256 * (a / 256 + w * t)
unshift a t w v e = rw e (grind arith)

emit-Holds :
    {ss : List ℕ} (p : Packer)
    → 8 ≤ p.bits
    → Holds ss p
    → Holds ss (record (emit p) { bit = p.bit / 256; bits = p.bits - 8 })
unfolding emit
emit-Holds {ss} p b h =
    let w = eight p.bits b in
    let size = length-append p.octets (p.bit % 256 ∷ []) in
    record {
      same = λ t.
          h.same t
          ∙ ap (onto 256 p.octets) (unshift p.bit t _ _ w)
          ∙ sym (onto-append 256 p.octets (p.bit % 256 ∷ []) (p.bit / 256 + 2 ^ (p.bits - 8) * t));
      below = omega (arith, w, h.below);
      count = h.count;
      size = omega (arith, size, h.size);
      bytes = All-append (λ o. o < 256) p.octets (p.bit % 256 ∷ []) h.bytes (omega arith, tt);
    }

flush-Holds : (fuel : ℕ) {ss : List ℕ} (p : Packer) → Holds ss p → Holds ss (flush fuel p)
unfolding flush
flush-Holds zero p h = h
flush-Holds (suc fuel) p h = elim (Bool-cases (leb 8 p.bits)) [
  | inl e ↦ rw e (flush-Holds fuel _ (emit-Holds p (ground arith) h))
  | inr e ↦ rw e h
]

flush-bits : (fuel : ℕ) (p : Packer) → p.bits ≤ 7 + 8 * fuel → (flush fuel p).bits ≤ 7
unfolding flush emit
flush-bits zero p h = omega arith
flush-bits (suc fuel) p h = elim (Bool-cases (leb 8 p.bits)) [
  | inl e ↦
      rw e
        (flush-bits fuel (record (emit p) { bit = p.bit / 256; bits = p.bits - 8 }) (omega arith))
  | inr e ↦ rw e (ground arith)
]

wcschr-lt : (table : List ℕ) (c : ℕ) {i : ℕ} → wcschr table c ≡ some i → i < length table
unfolding wcschr
wcschr-lt [] c h = cc
wcschr-lt (d ∷ table) c {i} h = elim (Option-cases (wcschr table c)) [
  | inl e ↦ ground (arith, e)
  | inr (j, e) ↦ ground (arith, e, wcschr-lt table c e)
]

-- What every round leaves.
record Ready (ss : List ℕ) (p : Packer) : Type 0 where
  holds : Holds ss p
  few : p.bits ≤ 7

one_septet :
    (s : ℕ) {ss : List ℕ} (p : Packer)
    → s < 128
    → Ready ss p
    → Ready (ss ++ s ∷ []) (flush_all (add_septet s p))
one_septet s p small r = record {
  holds = flush-Holds 3 _ (add_septet-Holds s p small (omega (arith, r.few)) r.holds);
  few = flush-bits 3 (add_septet s p) (unfold add_septet in omega (arith, r.few));
}

two_septets :
    (s u : ℕ) {ss : List ℕ} (p : Packer)
    → s < 128
    → u < 128
    → Ready ss p
    → Ready (ss ++ s ∷ u ∷ []) (flush_all (add_septet u (add_septet s p)))
two_septets s u {ss} p small small' r = record {
  holds =
      subst (λ l. Holds l (flush_all (add_septet u (add_septet s p))))
        (append_assoc ss (s ∷ []) (u ∷ []))
        (flush-Holds 3 _ (
          add_septet-Holds u (add_septet s p) small' (unfold add_septet in omega (arith, r.few))
            (add_septet-Holds s p small (omega (arith, r.few)) r.holds)));
  few = flush-bits 3 _ (unfold add_septet in omega (arith, r.few));
}

encode_char-Ready :
    (c : ℕ) {ss : List ℕ} (p : Packer) → Ready ss p → Ready (ss ++ septets_of c) (encode_char c p)
unfolding encode_char
encode_char-Ready c {ss} p r = elim (Option-cases (wcschr gsm7 c)) [
  | inr (i, e) ↦ rw (septets_of, encode_char, e) (one_septet i p (wcschr-lt gsm7 c e) r)
  | inl e ↦ elim (Option-cases (wcschr gsm7_ext c)) [
    | inr (i, f) ↦
        rw (septets_of, encode_char, e, f)
          (two_septets 27 i p (omega arith) (wcschr-lt gsm7_ext c f) r)
    | inl f ↦ rw (septets_of, encode_char, e, f, append-nil ss) r
  ]
]

encode_chars-Ready :
    (t : List ℕ) {ss : List ℕ} (p : Packer)
    → Ready ss p
    → Ready (ss ++ septets t) (encode_chars t p)
unfolding encode_chars
encode_chars-Ready [] {ss} p r = rw (append-nil ss) r
encode_chars-Ready (c ∷ t) {ss} p r =
    subst (λ l. Ready l (encode_chars t (encode_char c p)))
      (append_assoc ss (septets_of c) (septets t))
      (encode_chars-Ready t (encode_char c p) (encode_char-Ready c p r))

-- Octets that hold septets, the unused bits of the last one zero.
pub record Packs (ss : List ℕ) (p : Packer) : Type 0 where
  pub same : onto 128 ss 0 ≡ onto 256 p.octets 0
  pub bytes : All (λ o. o < 256) p.octets
  pub count : p.len ≡ length ss
  pub enough : 7 * length ss ≤ 8 * length p.octets
  pub no_more : 8 * length p.octets < 7 * length ss + 8

none_left : (p : Packer) → p.bits ≤ 0 → p.bit < 2 ^ p.bits → p.bit + 2 ^ p.bits * 0 ≡ 0
none_left p h k =
    let limit : 2 ^ p.bits ≤ 2 ^ 0 = pow-le-pow_right {n = 2} (omega arith) h in
    omega (arith, k, limit)

finish_text-Packs : {ss : List ℕ} (p : Packer) → Ready ss p → Packs ss (finish_text p)
unfolding finish_text emit
finish_text-Packs {ss} p r =
    let h = r.holds in
    let size = length-append p.octets (p.bit % 256 ∷ []) in
    let whole = h.same 0 in
    let limit : 2 ^ p.bits ≤ 2 ^ 7 = pow-le-pow_right {n = 2} (omega arith) r.few in
    elim (Bool-cases (ltb 0 p.bits)) [
      | inl e ↦ rw e (record {
        same =
            whole
            ∙ ap (onto 256 p.octets) (omega (arith, h.below, limit))
            ∙ sym (onto-append 256 p.octets (p.bit % 256 ∷ []) 0);
        bytes = All-append (λ o. o < 256) p.octets (p.bit % 256 ∷ []) h.bytes (omega arith, tt);
        count = h.count;
        enough = omega (arith, h.size, size, r.few);
        no_more = ground (arith, h.size, size);
      })
      | inr e ↦ rw e (record {
        same = whole ∙ ap (onto 256 p.octets) (none_left p (ground arith) h.below);
        bytes = h.bytes;
        count = h.count;
        enough = ground (arith, h.size);
        no_more = ground (arith, h.size);
      })
    ]

empty-Ready : Ready [] empty_packer
empty-Ready = record {
  holds = record {
    same = λ t. omega arith;
    below = omega arith;
    count = refl;
    size = omega arith;
    bytes = tt;
  };
  few = omega arith;
}

-- The octets written for a text are the septets of its characters (27 and another for those of the
-- extension table, none for those in neither) packed seven bits each: as numbers in base 256 and 128,
-- lowest first, they are equal, there are just as many octets as the septets need, and the length
-- counted is the number of septets.
pub encode_chars-Packs :
    (t : List ℕ) → Packs (septets t) (finish_text (encode_chars t empty_packer))
encode_chars-Packs t =
    finish_text-Packs (encode_chars t empty_packer) (encode_chars-Ready t empty_packer empty-Ready)
