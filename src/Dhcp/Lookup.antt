-- ===== src/Dhcp/Lookup.antt =====
-- `mp_dhcp_pkt_getopt` finds what `mp_dhcp_pkt_opt` has added.
use monitoringplug.Base.{
  ℕ, zero, suc, ◌+◌, ◌<◌, true, false, Option, none, some, List, [], ◌∷◌, ◌++◌, append_assoc, ◌≡◌,
  ◌≢◌, refl, sym, ap, ◌∙◌, inl, inr, arith, Bytes, length, length-append, drop, drop-append,
  get_elem?, get_elem?-append, ◌==◌, ==_iff, ltb, if◌then◌else◌, All, Bool-cases,
}
use monitoringplug.Dhcp.{
  Packet, dhcpopt_pad, dhcpopt_end, Found, missing, at, getopt_loop, pkt_getopt,
}
use monitoringplug.Dhcp.Options.{Opt, encode, Holds}

-- A code that is neither padding nor the end mark.
abbrev pub IsCode : ℕ → Type 0
IsCode c = (c ≢ dhcpopt_pad) × (c ≢ dhcpopt_end)

-- The specification: the content of the first option of a code.
abbrev pub content_of : ℕ → List Opt → Option Bytes
content_of code [] = none
content_of code (o ∷ os) = if o.code == code then some o.content else content_of code os

get_elem?_at :
    {i : ℕ} {block : Bytes} (a : Bytes) (c : ℕ) (b : Bytes)
    → i ≡ length a
    → block ≡ a ++ c ∷ b
    → get_elem? block i ≡ some c
get_elem?_at {i} {block} a c b e f =
    ap (get_elem? block) e ∙ ap (λ m. get_elem? m (length a)) f ∙ get_elem?-append a c b

-- What a search is to find: nothing, or an index where an option with this content stands.
abbrev pub Finds : Bytes → ℕ → Found → Option Bytes → Type 0
Finds opts code found none = found ≡ missing
Finds opts code found (some s) =
    (i : ℕ) × (found ≡ at i) × (rest : Bytes) × (drop i opts ≡ code ∷ length s ∷ (s ++ rest))

first_at :
    (i : ℕ) (a : Bytes) (o : Opt) (code : ℕ) (tail : Bytes) {block : Bytes}
    → i ≡ length a
    → block ≡ a ++ o.code ∷ length o.content ∷ (o.content ++ tail)
    → o.code ≡ code
    → drop i block ≡ code ∷ length o.content ∷ (o.content ++ tail)
first_at i a o code tail {block} e w s =
    ap (λ n. drop n block) e
    ∙ ap (drop (length a)) w
    ∙ drop-append a _
    ∙ ap (λ c. c ∷ length o.content ∷ (o.content ++ tail)) s

module _ (code : ℕ) (p : Packet) (slack : Bytes) (search : code ≢ dhcpopt_end) where
  getopt_loop-Finds :
      (fuel i : ℕ) (a : Bytes) (os : List Opt)
      → i ≡ length a
      → p.opts ≡ a ++ (encode os ++ dhcpopt_end ∷ slack)
      → p.optlen ≡ length a + length (encode os) + 1
      → All (λ o. IsCode o.code) os
      → length (encode os) < fuel
      → Finds p.opts code (getopt_loop fuel code p i) (content_of code os)
  unfolding getopt_loop
  getopt_loop-Finds zero i a os e h k codes enough = absurd (omega arith)
  getopt_loop-Finds (suc fuel) i a [] e h k codes enough =
      let inside : ltb i p.optlen ≡ true = ground arith in
      let other : (dhcpopt_end == code) ≡ false = ground arith in
      rw (inside, get_elem?_at a dhcpopt_end slack e h, other)
  getopt_loop-Finds (suc fuel) i a (o ∷ os) e h k (known, codes) enough =
      let inside : ltb i p.optlen ≡ true = ground arith in
      let tail : Bytes = encode os ++ dhcpopt_end ∷ slack in
      let n : ℕ = length o.content in
      let past : Bytes = a ++ o.code ∷ n ∷ o.content in
      let whole : p.opts ≡ a ++ o.code ∷ n ∷ (o.content ++ tail) =
        h
        ∙ ap (λ t. a ++ o.code ∷ n ∷ t)
            (append_assoc o.content (encode os) (dhcpopt_end ∷ slack)) in
      let here : get_elem? p.opts i ≡ some o.code = get_elem?_at a o.code _ e whole in
      let next : get_elem? p.opts (i + 1) ≡ some n =
        get_elem?_at (a ++ o.code ∷ []) n (o.content ++ tail)
          (omega (arith, length-append a (o.code ∷ [])))
          (whole ∙ sym (append_assoc a (o.code ∷ []) (n ∷ (o.content ++ tail)))) in
      let size = length-append a (o.code ∷ n ∷ o.content) in
      let all = length-append o.content (encode os) in
      elim (Bool-cases (o.code == code)) [
        | inl same ↦
            rw (inside, here, same)
              (i, refl, tail, first_at i a o code tail e whole ((==_iff _ _).0 same))
        | inr other ↦
            let pad : (o.code == dhcpopt_pad) ≡ false = ground (arith, known.0) in
            let last : (o.code == dhcpopt_end) ≡ false = ground (arith, known.1) in
            rw (inside, here, other, pad, last, next)
              (getopt_loop-Finds fuel (i + 2 + n) past os (omega (arith, size, e))
                (whole ∙ sym (append_assoc a (o.code ∷ n ∷ o.content) tail))
                (omega (arith, size, k, all)) codes (omega (arith, all)))
      ]

-- In a packet that holds options with codes other than those of padding and end mark, the search for
-- a code, not that of the end mark, ends at the first option with that code, whose length and content
-- stand there, or reports that there is none. It never reads past the block.
pub pkt_getopt-Finds :
    (p : Packet) (os : List Opt) (code : ℕ)
    → Holds p os
    → All (λ o. IsCode o.code) os
    → code ≢ dhcpopt_end
    → Finds p.opts code (pkt_getopt p code) (content_of code os)
unfolding pkt_getopt
pkt_getopt-Finds p os code h codes search =
    let used : (p.optlen == 0) ≡ false = ground (arith, h.size) in
    rw used (
      getopt_loop-Finds code p h.slack search (p.optlen + 1) 0 [] os refl h.bytes
        (omega (arith, h.size)) codes (omega (arith, h.size)))
