-- ===== src/Text/Lines.antt =====
-- A file as its lines, and `fgets` on it.
use monitoringplug.Base.{
  ℕ, zero, suc, ◌≤◌, ◌<◌, false, List, [], ◌∷◌, ◌++◌, ◌≡◌, refl, ap, arith, Bytes, length,
  length-append, ◌==◌, All,
}
use monitoringplug.Text.{fgets_upto}

-- The lines of a file, each with its newline.
abbrev pub file_of : List Bytes → Bytes
file_of [] = []
file_of (l ∷ ls) = l ++ b'\n' ∷ file_of ls

-- A line that fits the buffer with its newline and NUL.
abbrev pub IsLine : Bytes → Type 0
IsLine l = (length l < 255) × All (λ c. (c == b'\n') ≡ false) l

pub fgets_upto-line :
    (n : ℕ) (l rest : Bytes)
    → length l < n
    → All (λ c. (c == b'\n') ≡ false) l
    → fgets_upto n (l ++ b'\n' ∷ rest) ≡ (l ++ b'\n' ∷ [], rest)
unfolding fgets_upto
fgets_upto-line zero l rest b h = absurd (omega arith)
fgets_upto-line (suc n) [] rest b h = refl
fgets_upto-line (suc n) (c ∷ l) rest b (h, hs) =
    rw h (ap (λ (q : Bytes × Bytes). (c ∷ q.0, q.1)) (fgets_upto-line n l rest (omega arith) hs))

pub length-file_of : (ls : List Bytes) → length ls ≤ length (file_of ls)
length-file_of [] = omega arith
length-file_of (l ∷ ls) = omega (arith, length-file_of ls, length-append l (b'\n' ∷ file_of ls))
