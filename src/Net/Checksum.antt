-- ===== src/Net/Checksum.antt =====
-- A packet with its checksum in place.
use monitoringplug.Base.{ℕ, ◌+◌, ◌-◌, ◌^◌, ◌<◌, ◌%◌, List, [], ◌∷◌, ◌++◌, ◌≡◌, ap, ◌∙◌, arith}
use monitoringplug.Net.{add_words, fold, ip_csum}

-- The specification of the loop.
abbrev pub total : List ℕ → ℕ
total [] = 0
total (w ∷ ws) = w + total ws

add_words-total : (sum : ℕ) (ws : List ℕ) → add_words sum ws ≡ sum + total ws
unfolding add_words
add_words-total sum [] = omega arith
add_words-total sum (w ∷ ws) = add_words-total (sum + w) ws ∙ omega arith

total-append : (ws vs : List ℕ) → total (ws ++ vs) ≡ total ws + total vs
total-append [] vs = omega arith
total-append (w ∷ ws) vs = omega (arith, total-append ws vs)

fold-complement : (s : ℕ) → s < 2 ^ 31 - 65536 → fold (s + (65535 - fold s % 65536)) % 65536 ≡ 65535
unfolding fold
fold-complement s h = omega arith

-- A packet of words, too few for the sum to overflow, that is completed by its checksum has the checksum
-- 0, by which a receiver accepts it.
pub ip_csum-zero : (ws : List ℕ) → total ws < 2 ^ 31 - 65536 → ip_csum (ws ++ ip_csum ws ∷ []) ≡ 0
unfolding ip_csum
ip_csum-zero ws h =
    let sum = add_words-total 0 ws in
    let c : ℕ = ip_csum ws in
    let all = add_words-total 0 (ws ++ c ∷ []) in
    let value : c ≡ 65535 - fold (total ws) % 65536 =
      ap (λ s. 65535 - fold s % 65536) (sum ∙ omega arith) in
    let whole : add_words 0 (ws ++ c ∷ []) ≡ total ws + (65535 - fold (total ws) % 65536) =
      omega (arith, all, total-append ws (c ∷ []), value) in
    ap (λ s. 65535 - fold s % 65536) whole ∙ ap (λ s. 65535 - s) (fold-complement (total ws) h)
