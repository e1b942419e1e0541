-- ===== src/Checks/Memcached/Reply.antt =====
-- The check on a server's whole answer.
use monitoringplug.Base.{
  ℕ, zero, suc, ◌<◌, ◌≤◌, false, not, Option, none, some, List, [], ◌∷◌, ◌++◌, append_assoc, ◌≡◌,
  refl, sym, ap, ◌∙◌, arith, Bytes, codes, length, drop, All, All-append, if◌then◌else◌,
}
use monitoringplug.Base.Int.{ℤ, negsuc}
use monitoringplug.Text.{str_eq, starts_with, strsep}
use monitoringplug.Text.Laws.{strsep-some, starts_with-append}
use monitoringplug.Range.{Doubles, Thresholds, get_status}
use monitoringplug.Output.{Plugin, Exit, ok}
use monitoringplug.Net.{Socket, Received, received, waiting, before_line, is_newline, chomp}
use monitoringplug.Net.Receive.{stream, recv_line-line}
use monitoringplug.Getopt.{Outcome, completed, left, fault, ◌>>=◌}
use monitoringplug.Checks.Memcached.{
  State, is_blank, take_value, take_stat, no_stats, read_stats, leave, measure, finish, check,
}

-- A statistic as the server prints it: key and value.
abbrev pub Stat : Type 0
Stat = Bytes × Bytes

abbrev pub print_stat : Stat → Bytes
print_stat (key, value) = codes "STAT " ++ (key ++ b' ' ∷ (value ++ b'\r' ∷ []))

abbrev pub reply : List Stat → Bytes
reply [] = codes "END\r\n"
reply (s ∷ ss) = print_stat s ++ b'\n' ∷ reply ss

abbrev pub IsStat : Stat → Type 0
IsStat (key, value) =
    All (λ c. is_blank c ≡ false) key
    × All (λ c. is_newline c ≡ false) key
    × All (λ c. is_newline c ≡ false) value

chomp-return : (s : Bytes) → chomp (s ++ b'\r' ∷ []) ≡ s
unfolding chomp
chomp-return [] = refl
chomp-return (c ∷ []) = refl
chomp-return (c ∷ d ∷ s) = ap (◌∷◌ c) (chomp-return (d ∷ s))

module _ (F : Doubles) (of_long : ℤ → F.D) where
  -- The specification: the statistics one after another.
  abbrev pub take_one : Stat → State → State
  take_one (key, value) s =
      if str_eq key (codes "version")
      then record s { version = some value }
      else if not s.plugin.show_perfdata
      then s
      else take_value F of_long key value s

  abbrev pub take_all : List Stat → State → State
  take_all [] s = s
  take_all (x ∷ xs) s = take_all xs (take_one x s)

  take_stat-one :
      (key value : Bytes) (s : State)
      → take_stat F of_long (key, some value) s ≡ completed (take_one (key, value) s)
  unfolding take_stat
  take_stat-one key value s = ground arith

  print_stat-plain : (x : Stat) → IsStat x → All (λ c. is_newline c ≡ false) (print_stat x)
  print_stat-plain (key, value) (blank, plain, flat) =
      All-append (λ c. is_newline c ≡ false) (codes "STAT ") (key ++ b' ' ∷ (value ++ b'\r' ∷ []))
        (refl, (refl, (refl, (refl, (refl, tt)))))
        (All-append (λ c. is_newline c ≡ false) key (b' ' ∷ (value ++ b'\r' ∷ [])) plain
          (refl, All-append (λ c. is_newline c ≡ false) value (b'\r' ∷ []) flat (refl, tt)))

  chomp-print_stat :
      (key value : Bytes) → chomp (print_stat (key, value)) ≡ codes "STAT " ++ (key ++ b' ' ∷ value)
  chomp-print_stat key value =
      ap (λ t. chomp (codes "STAT " ++ t)) (sym (append_assoc key (b' ' ∷ value) (b'\r' ∷ [])))
      ∙ chomp-return (codes "STAT " ++ (key ++ b' ' ∷ value))

  -- the branches of the loop, on a line
  abbrev on_received : Exit → ℕ → State → Received → Outcome State
  on_received alarm fuel s r = elim r [
    | waiting ↦ left alarm
    | before_line ↦ fault
    | received line rest ↦
        if starts_with line (codes "STAT ")
        then take_stat F of_long (strsep is_blank (drop 5 line)) s
          >>= read_stats F of_long alarm fuel rest
        else if starts_with line (codes "END")
        then completed s
        else left (no_stats F of_long s.plugin)
  ]

  on_stat :
      (alarm : Exit) (fuel : ℕ) (s : State) (x : Stat) (t : Socket)
      → IsStat x
      → on_received alarm fuel s (received (chomp (print_stat x)) t)
        ≡ read_stats F of_long alarm fuel t (take_one x s)
  on_stat alarm fuel s (key, value) t (blank, plain, flat) =
      ap (λ l. on_received alarm fuel s (received l t)) (chomp-print_stat key value)
      ∙ ap
          (λ b.
            if b
            then take_stat F of_long (strsep is_blank (key ++ b' ' ∷ value)) s
              >>= read_stats F of_long alarm fuel t
            else if starts_with (codes "STAT " ++ (key ++ b' ' ∷ value)) (codes "END")
            then completed s
            else left (no_stats F of_long s.plugin))
          (starts_with-append (codes "STAT ") (key ++ b' ' ∷ value))
      ∙ ap (λ q. take_stat F of_long q s >>= read_stats F of_long alarm fuel t)
          (strsep-some is_blank key b' ' value blank refl)
      ∙ ap (λ o. o >>= read_stats F of_long alarm fuel t) (take_stat-one key value s)

  read_stats-reply :
      (alarm : Exit) (fuel : ℕ) (xs : List Stat) (socket : Socket) (rest : Bytes) (s : State)
      → length xs < fuel
      → All IsStat xs
      → stream socket ≡ reply xs ++ rest
      → read_stats F of_long alarm fuel socket s ≡ completed (take_all xs s)
  unfolding read_stats
  read_stats-reply alarm zero xs socket rest s b h same = absurd (omega arith)
  read_stats-reply alarm (suc fuel) [] socket rest s b h same =
      let (t, gets, left_over) =
        recv_line-line socket b'E' (codes "ND\r") rest (refl, (refl, (refl, (refl, tt)))) same in
      ap (on_received alarm fuel s) gets ∙ unfold starts_with in unfold chomp in refl
  read_stats-reply alarm (suc fuel) (x ∷ xs) socket rest s b (h, hs) same =
      let (t, gets, left_over) =
        recv_line-line socket b'S' (drop 1 (print_stat x)) (reply xs ++ rest) (print_stat-plain x h)
          (same ∙ append_assoc (print_stat x) (b'\n' ∷ reply xs) rest) in
      ap (on_received alarm fuel s) gets
      ∙ on_stat alarm fuel s x t h
      ∙ read_stats-reply alarm fuel xs t rest (take_one x s) (omega arith) hs left_over

  abbrev pub start_of : Plugin → State
  start_of p = record { version = none; bytes = negsuc 0; limit_maxbytes = negsuc 0; plugin = p }

  leave-ok :
      (status : ℕ) (version : Option Bytes) (p : Plugin)
      → status ≤ 2
      → (leave F of_long status version p).status ≡ 0
  unfolding leave ok
  leave-ok status version p h = ground arith

  get_status-bound : (v : F.D) (t : Option (Thresholds F.D)) → get_status F v t ≤ 2
  unfolding get_status
  get_status-bound v none = omega arith
  get_status-bound v (some t) = ground arith

  finish-ok :
      (print : ℕ → F.D → Bytes) (delta : F.D) (t : Option (Thresholds F.D)) (s : State)
      → (finish F of_long print delta t s).status ≡ 0
  unfolding finish
  finish-ok print delta t s =
      let (p, resolved) = measure F of_long print delta t s in
      leave-ok (get_status F delta resolved) s.version p (get_status-bound delta resolved)

  -- A server's answer of statistics and END, in whatever chunks it comes and whatever follows it, is read
  -- to its end with as much fuel as lines, the statistics one after another; and the check then exits
  -- with status 0, whatever the time it took and the thresholds.
  pub check-reply :
      (print : ℕ → F.D → Bytes) (alarm : Exit) (fuel : ℕ) (delta : F.D)
      (t : Option (Thresholds F.D)) (xs : List Stat) (socket : Socket) (rest : Bytes) (p : Plugin)
      → length xs < fuel
      → All IsStat xs
      → stream socket ≡ reply xs ++ rest
      → (e : Exit) × (check F of_long print alarm fuel delta t socket p ≡ completed e)
        × (e ≡ finish F of_long print delta t (take_all xs (start_of p)))
        × (e.status ≡ 0)
  unfolding check
  check-reply print alarm fuel delta t xs socket rest p b h same = (
    finish F of_long print delta t (take_all xs (start_of p)),
    ap (λ o. o >>= (λ s. completed (finish F of_long print delta t s)))
        (read_stats-reply alarm fuel xs socket rest (start_of p) b h same),
    refl,
    finish-ok print delta t (take_all xs (start_of p)),
  )
