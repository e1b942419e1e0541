-- ===== src/Getopt/Loop.antt =====
-- The loop around `mp_getopt`, one event after another.
use monitoringplug.Base.{
  Bool-cases, Option-cases, inl, inr, ℕ, zero, suc, ◌+◌, ◌≤◌, ◌<◌, true, false, Option, List, [],
  ◌∷◌, Bytes, ◌≡◌, refl, arith, length, ◌==◌, ==_iff, All, if◌then◌else◌,
}
use monitoringplug.Text.{strtol}
use monitoringplug.Utils.{to_int}
use monitoringplug.Getopt.{
  Outcome, completed, left, fault, ◌>>=◌, Program, Globals, Event, Returned, no_more, for_caller,
  with_arg, use_error, longopt_eopt, set_flag, mp_getopt, process_options,
}

-- What `getopt_long` returns up to its -1, where `mp_eopt` changes what is to come: from the events of
-- the command line those that come in the end. There are none such where it never comes to -1.
pub data Comes (eopt : Option Bytes → List Event → List Event)
    : List Event → List Event → Type 0 where
  ended : Comes eopt [] []
  plain :
      {e : Event} {es fs : List Event}
      → (e.option == longopt_eopt) ≡ false
      → Comes eopt es fs
      → Comes eopt (e ∷ es) (e ∷ fs)
  extended :
      {e : Event} {es fs : List Event}
      → (e.option == longopt_eopt) ≡ true
      → Comes eopt (eopt e.optarg es) fs
      → Comes eopt (e ∷ es) (e ∷ fs)

module _ (g : Program) {A : Type 0} (handle : Event → A → Outcome A) where
  -- The specification: each event in its turn, a default option on the globals, any other by the check.
  unfoldable pub handle_event : Event → Globals × A → Outcome (Globals × A)
  handle_event e (s, a) =
      if e.option == b'?'
      then left (use_error g [])
      else if e.option == b'h'
      then left (record { stdout = g.help; status = 0 })
      else if e.option == b'V'
      then left (record { stdout = g.revision; status = 0 })
      else if e.option == b'v'
      then completed (record s { verbose = s.verbose + 1 }, a)
      else if e.option == longopt_eopt
      then completed (s, a)
      else if e.option == b't'
      then with_arg e.optarg
          (λ optarg. completed (record s { timeout = to_int (strtol optarg).0 }, a))
      else handle e a >>= (λ b. completed (set_flag e s, b))

  unfoldable pub handle_all : List Event → Globals × A → Outcome (Globals × A)
  handle_all [] q = completed q
  handle_all (e ∷ es) q = handle_event e q >>= handle_all es

  -- what the loop does with what `mp_getopt` returns
  abbrev take : ℕ → A → Returned → Outcome (Globals × A)
  take fuel a (no_more t) = completed (t, a)
  take fuel a (for_caller e rest t) = handle e a >>= process_options g handle fuel rest t

  -- a round that hands its option to the check
  hand_over :
      (o : Outcome A) (fuel : ℕ) (es fs : List Event) (s : Globals)
      → ((a : A) → process_options g handle fuel es s a ≡ handle_all fs (s, a))
      → (o >>= process_options g handle fuel es s)
        ≡ ((o >>= (λ b. completed (s, b))) >>= handle_all fs)
  hand_over (completed b) fuel es fs s h = h b
  hand_over (left x) fuel es fs s h = refl
  hand_over fault fuel es fs s h = refl

  module _ (fuel : ℕ)
      (next : (es fs : List Event) (s : Globals) (a : A)
        → Comes g.eopt es fs
        → length fs < fuel
        → process_options g handle fuel es s a ≡ handle_all fs (s, a)) where
    mp_getopt-Comes :
        (rounds : ℕ) {es fs : List Event} (s : Globals) (a : A)
        → Comes g.eopt es fs
        → length fs < rounds
        → length fs ≤ fuel
        → (mp_getopt g rounds es s >>= take fuel a) ≡ handle_all fs (s, a)
    unfolding mp_getopt handle_all handle_event
    mp_getopt-Comes zero s a c b k = absurd (omega arith)
    mp_getopt-Comes (suc rounds) s a ended b k = refl
    mp_getopt-Comes (suc rounds) s a (extended {e} h c) b k =
        let is_eopt : e.option ≡ longopt_eopt = (==_iff _ _).0 h in
        rw is_eopt (mp_getopt-Comes rounds s a c (omega arith) (omega arith))
    mp_getopt-Comes (suc rounds) s a (plain {e} {es} {fs} h c) b k =
        let same = λ (t : Globals). mp_getopt-Comes rounds t a c (omega arith) (omega arith) in
        let handed =
          hand_over (handle e a) fuel es fs (set_flag e s)
            (λ d. next es fs (set_flag e s) d c (omega arith)) in
        elim (Bool-cases (e.option == b'?')) [
          | inl p ↦ rw p refl
          | inr p ↦ elim (Bool-cases (e.option == b'h')) [
            | inl q ↦ rw (p, q) refl
            | inr q ↦ elim (Bool-cases (e.option == b'V')) [
              | inl r ↦ rw (p, q, r) refl
              | inr r ↦ elim (Bool-cases (e.option == b'v')) [
                | inl u ↦ rw (p, q, r, u) (same (record s { verbose = s.verbose + 1 }))
                | inr u ↦ elim (Bool-cases (e.option == b't')) [
                  | inl w ↦ elim (Option-cases e.optarg) [
                    | inl x ↦ rw (p, q, r, u, h, w, x) refl
                    | inr (x, y) ↦
                        rw (p, q, r, u, h, w, y) (same (record s { timeout = to_int (strtol x).0 }))
                  ]
                  | inr w ↦ rw (p, q, r, u, h, w) handed
                ]
              ]
            ]
          ]
        ]

  -- Where `getopt_long` comes to -1 after finitely many options, those counted that `--eopt` puts in
  -- front, the loop of `process_arguments` ends within one round more than these options, and comes to
  -- what they do one by one: `-v`, `-t` and `--perfdata` on the globals, `-h`, `-V` and an unknown option
  -- by leaving the program, and every option but the default ones by the check's own code, in their order.
  pub process_options-events :
      (fuel : ℕ) (es fs : List Event) (s : Globals) (a : A)
      → Comes g.eopt es fs
      → length fs < fuel
      → process_options g handle fuel es s a ≡ handle_all fs (s, a)
  unfolding process_options
  process_options-events zero es fs s a c b = absurd (omega arith)
  process_options-events (suc fuel) es fs s a c b =
      mp_getopt-Comes fuel (process_options-events fuel) (suc fuel) s a c b (omega arith)

  -- Where a section of the file holds an entry `eopt=` for itself, `mp_getopt` never returns: no fuel is
  -- enough.
  pub mp_getopt-endless :
      (fuel : ℕ) (e : Event) (es : List Event) (s : Globals)
      → e.option ≡ longopt_eopt
      → g.eopt e.optarg es ≡ e ∷ es
      → mp_getopt g fuel (e ∷ es) s ≡ fault
  unfolding mp_getopt
  mp_getopt-endless zero e es s h k = refl
  mp_getopt-endless (suc fuel) e es s h k = rw (h, k) (mp_getopt-endless fuel e es s h k)

-- Without `--eopt` the events of the command line are those that come.
pub Comes-plain :
    (eopt : Option Bytes → List Event → List Event) (es : List Event)
    → All (λ e. (e.option == longopt_eopt) ≡ false) es
    → Comes eopt es es
Comes-plain eopt [] h = ended
Comes-plain eopt (e ∷ es) (h, hs) = plain h (Comes-plain eopt es hs)
