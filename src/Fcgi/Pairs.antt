-- ===== src/Fcgi/Pairs.antt =====
-- Name-value pairs of FastCGI, written and read back.
use monitoringplug.Base.{
  ℕ, ◌+◌, ◌-◌, ◌*◌, ◌/◌, ◌%◌, ◌^◌, ◌<◌, false, Option, none, some, [], ◌∷◌, ◌++◌, append_assoc, ◌≡◌,
  refl, ap, ◌∙◌, arith, Bytes, length, take, drop, take-append, drop-append, ltb, ==_self,
  if◌then◌else◌, Bool-cases, inl, inr,
}
use monitoringplug.Output.{Plugin}
use monitoringplug.Getopt.{completed, ◌>>=◌}
use monitoringplug.Fcgi.{encode_length, put, fcgi_putkv}

-- The specification: a length by the FastCGI protocol, and what stands behind it.
abbrev pub four_bytes : ℕ → Bytes → Option (ℕ × Bytes)
four_bytes a (b ∷ c ∷ d ∷ s) = some (((a * 256 + b) * 256 + c) * 256 + d, s)
four_bytes a _ = none

abbrev pub decode_length : Bytes → Option (ℕ × Bytes)
decode_length [] = none
decode_length (a ∷ s) = if ltb a 128 then some (a, s) else four_bytes (a - 128) s

-- a pair and what stands behind it
abbrev pub decode_pair : Bytes → Option (Bytes × Bytes × Bytes)
decode_pair s = elim (decode_length s) [
  | none ↦ none
  | some (k, t) ↦ elim (decode_length t) [
    | none ↦ none
    | some (v, u) ↦ some (take k u, take v (drop k u), drop v (drop k u))
  ]
]

decode_length-encode_length :
    (n : ℕ) (s : Bytes) → n < 2 ^ 31 → decode_length (encode_length n ++ s) ≡ some (n, s)
unfolding encode_length
decode_length-encode_length n s h = elim (Bool-cases (ltb n 128)) [
  | inl e ↦ rw e (rw e refl)
  | inr e ↦
      let long : ltb (n / 2 ^ 24 + 128) 128 ≡ false = ground arith in
      let value : (((n / 2 ^ 24 + 128 - 128) * 256 + n / 2 ^ 16 % 256) * 256 + n / 2 ^ 8 % 256)
              * 256
            + n % 256
          ≡ n =
        omega arith in
      rw e (rw long (ap (λ m. some (m, s)) value))
]

decode_pair-encoded :
    (key value rest : Bytes)
    → length key < 2 ^ 31
    → length value < 2 ^ 31
    → decode_pair
        (encode_length (length key) ++ (encode_length (length value) ++ (key ++ (value ++ rest))))
      ≡ some (key, value, rest)
decode_pair-encoded key value rest hk hv =
    let pairs = λ (k : ℕ) (o : Option (ℕ × Bytes)).
      elim o as (λ x. Option (Bytes × Bytes × Bytes)) [
        | none ↦ none
        | some (v, u) ↦ some (take k u, take v (drop k u), drop v (drop k u))
      ] in
    ap
      (λ o. elim o as (λ x. Option (Bytes × Bytes × Bytes)) [
        | none ↦ none
        | some (k, t) ↦ pairs k (decode_length t)
      ])
      (decode_length-encode_length (length key)
        (encode_length (length value) ++ (key ++ (value ++ rest))) hk)
    ∙ ap (pairs (length key))
        (decode_length-encode_length (length value) (key ++ (value ++ rest)) hv)
    ∙ rw
        (
          take-append key (value ++ rest),
          drop-append key (value ++ rest),
          take-append value rest,
          drop-append value rest,
        )
        refl

module _ (p : Plugin) (put_str : Bytes → Bytes → ℕ × Bytes) where
  -- `FCGX_PutStr` puts all that it is given.
  abbrev pub PutsAll : Type 0
  PutsAll = (text stream : Bytes) → put_str text stream ≡ (length text, stream ++ text)

  put-all : (text stream : Bytes) → PutsAll → put p put_str text stream ≡ completed (stream ++ text)
  unfolding put
  put-all text stream h = rw (h text stream, ==_self (length text)) refl

  -- Where `FCGX_PutStr` puts all that it is given, `mp_fcgi_putkv` puts a pair on the stream from which a
  -- reader by the protocol gets the key and the value, and then what is put behind them.
  pub fcgi_putkv-decode_pair :
      (key value stream rest : Bytes)
      → PutsAll
      → length key < 2 ^ 31
      → length value < 2 ^ 31
      → (pair : Bytes) × (fcgi_putkv p put_str key value stream ≡ completed (stream ++ pair))
        × (decode_pair (pair ++ rest) ≡ some (key, value, rest))
  unfolding fcgi_putkv
  fcgi_putkv-decode_pair key value stream rest h hk hv =
      let lengths = encode_length (length key) ++ encode_length (length value) in
      let at_end : ((stream ++ lengths) ++ key) ++ value ≡ stream ++ (lengths ++ (key ++ value)) =
        simp append_assoc in
      let spread : (lengths ++ (key ++ value)) ++ rest
          ≡ encode_length (length key)
            ++ (encode_length (length value) ++ (key ++ (value ++ rest))) =
        simp append_assoc in
      (
        lengths ++ (key ++ value),
        ap (λ o. o >>= (λ s. put p put_str key s >>= put p put_str value))
              (put-all lengths stream h)
            ∙ ap (λ o. o >>= put p put_str value) (put-all key (stream ++ lengths) h)
            ∙ put-all value ((stream ++ lengths) ++ key) h
            ∙ ap completed at_end,
        ap decode_pair spread ∙ decode_pair-encoded key value rest hk hv,
      )
