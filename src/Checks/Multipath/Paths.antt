-- ===== src/Checks/Multipath/Paths.antt =====
-- The paths that check_multipath counts, and what it comes to.
use monitoringplug.Base.{
  ℕ, zero, suc, ◌+◌, ◌<◌, false, ◌||◌, ◌&&◌, Option, none, some, List, [], ◌∷◌, ◌++◌, ◌≡◌, refl, ap,
  ◌∙◌, arith, Bytes, codes, length, ltb, All, ◌==◌, if◌then◌else◌,
}
use monitoringplug.Base.Int.{pos}
use monitoringplug.Text.{starts_with, decimal}
use monitoringplug.Text.Lines.{file_of, fgets_upto-line, length-file_of}
use monitoringplug.Output.{Plugin, Exit, ok, warning, critical}
use monitoringplug.Getopt.{Outcome, completed, fault}
use monitoringplug.Checks.Multipath.{includes, read_loop, leave, judge}

-- A line that fits the buffer with its newline and NUL.
abbrev pub IsLine : Bytes → Type 0
IsLine l = (length l < 127) × All (λ c. (c == b'\n') ≡ false) l

-- How many lines have the word "failed" in them.
unfoldable pub failed_in : List Bytes → ℕ
failed_in [] = 0
failed_in (l ∷ ls) =
    let more = failed_in ls in if includes l (codes "failed") then more + 1 else more

starts_with-end :
    (s needle : Bytes)
    → All (λ c. (b'\n' == c) ≡ false) needle
    → starts_with (s ++ b'\n' ∷ []) needle ≡ starts_with s needle
unfolding starts_with
starts_with-end s [] h = refl
starts_with-end [] (d ∷ needle) (h, hs) = rw h refl
starts_with-end (c ∷ s) (d ∷ needle) (h, hs) = ap (λ b. c == d && b) (starts_with-end s needle hs)

-- A newline at the end of a line is no part of the word.
includes-end :
    (s needle : Bytes)
    → All (λ c. (b'\n' == c) ≡ false) needle
    → includes (s ++ b'\n' ∷ []) needle ≡ includes s needle
unfolding includes
includes-end [] [] h = refl
includes-end [] (d ∷ needle) (h, hs) = rw h refl
includes-end (c ∷ s) needle h =
    ap (λ b. b || includes (s ++ b'\n' ∷ []) needle) (starts_with-end (c ∷ s) needle h)
    ∙ ap (λ b. starts_with (c ∷ s) needle || b) (includes-end s needle h)

-- one line of the loop
abbrev round : ℕ → ℕ → ℕ → Bytes × Bytes → Option (ℕ × ℕ)
round fuel lines failed (line, rest) =
    read_loop fuel rest (lines + 1, if includes line (codes "failed") then failed + 1 else failed)

read_loop-line :
    (fuel : ℕ) (l rest : Bytes) (lines failed : ℕ)
    → IsLine l
    → read_loop (suc fuel) (l ++ b'\n' ∷ rest) (lines, failed)
      ≡ round fuel lines failed (l ++ b'\n' ∷ [], rest)
unfolding read_loop
read_loop-line fuel [] rest lines failed (b, h) =
    ap (round fuel lines failed) (fgets_upto-line 127 [] rest b h)
read_loop-line fuel (c ∷ l) rest lines failed (b, h) =
    ap (round fuel lines failed) (fgets_upto-line 127 (c ∷ l) rest b h)

abbrev counted : ℕ → ℕ → Option (ℕ × ℕ)
counted lines failed = some (lines, failed)

some_pair : {a b c d : ℕ} → a ≡ b → c ≡ d → counted a c ≡ counted b d
some_pair h k = cc

read_loop-lines :
    (fuel : ℕ) (ls : List Bytes) (lines failed : ℕ)
    → All IsLine ls
    → length ls < fuel
    → read_loop fuel (file_of ls) (lines, failed) ≡ some (lines + length ls, failed + failed_in ls)
unfolding failed_in
read_loop-lines zero ls lines failed h b = absurd (omega arith)
read_loop-lines (suc fuel) [] lines failed h b =
    unfold read_loop in some_pair (omega arith) (omega arith)
read_loop-lines (suc fuel) (l ∷ ls) lines failed (h, hs) b =
    read_loop-line fuel l (file_of ls) lines failed h
    ∙ ap (λ b. read_loop fuel (file_of ls) (lines + 1, if b then failed + 1 else failed))
        (includes-end l (codes "failed") (refl, (refl, (refl, (refl, (refl, (refl, tt)))))))
    ∙ read_loop-lines fuel ls (lines + 1)
        (if includes l (codes "failed") then failed + 1 else failed) hs (omega arith)
    ∙ some_pair (omega arith) (ground arith)

-- the end of `judge`
abbrev conclude : Plugin → Option (ℕ × ℕ) → Outcome Exit
conclude p none = fault
conclude p (some counts) = completed (leave (pos 0) counts p)

-- Where `multipath -l` succeeds and each line it prints fits the buffer, the check completes with
-- WARNING without lines, with CRITICAL and their number if lines say "failed", and with OK otherwise.
pub judge-lines :
    (ls : List Bytes) (p : Plugin)
    → All IsLine ls
    → judge (some (file_of ls)) (pos 0) p
      ≡ completed (
          if length ls == 0
          then warning (codes "No paths defined") p
          else if ltb 0 (failed_in ls)
          then critical (decimal (failed_in ls) ++ codes " paths failed") p
          else ok (codes "Multipath") p)
unfolding judge leave
judge-lines ls p h = ap (conclude p) (
    read_loop-lines (length (file_of ls) + 1) ls 0 0 h (omega (arith, length-file_of ls))
    ∙ some_pair {b = length ls} {d = failed_in ls} (omega arith) (omega arith))
