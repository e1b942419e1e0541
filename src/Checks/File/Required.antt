-- ===== src/Checks/File/Required.antt =====
-- The arguments of the file check.
use monitoringplug.Base.{
  ℕ, suc, ◌<◌, false, Option, ◌==◌, arith, length, none, some, List, [], ◌∷◌, ◌≡◌, refl, ap, ◌∙◌,
  Bytes, codes,
}
use monitoringplug.Base.Int.{ℤ}
use monitoringplug.Range.{Doubles}
use monitoringplug.Getopt.{
  completed, left, ◌>>=◌, Program, Globals, Event, use_error, take_thresholds, longopt_eopt,
  set_flag,
}
use monitoringplug.Getopt.Loop.{
  Comes, ended, plain, handle_event, handle_all, process_options-events,
}
use monitoringplug.Checks.File.{
  Settings, no_settings, take_option, handle_option, require_filename, process_arguments,
}

-- An option with a text.
pub data Choice : Type 0 where
  file owner group access : Bytes → Choice

abbrev pub event_of : Choice → Event
event_of (file s) = record { option = b'f'; optarg = some s }
event_of (owner s) = record { option = b'o'; optarg = some s }
event_of (group s) = record { option = b'g'; optarg = some s }
event_of (access s) = record { option = b'a'; optarg = some s }

abbrev pub events_of : List Choice → List Event
events_of [] = []
events_of (c ∷ cs) = event_of c ∷ events_of cs

length-events_of : (cs : List Choice) → length (events_of cs) ≡ length cs
length-events_of [] = refl
length-events_of (c ∷ cs) = ap suc (length-events_of cs)

event_of-plain : (c : Choice) → ((event_of c).option == longopt_eopt) ≡ false
event_of-plain (file s) = refl
event_of-plain (owner s) = refl
event_of-plain (group s) = refl
event_of-plain (access s) = refl

events_of-Comes :
    (eopt : Option Bytes → List Event → List Event) (cs : List Choice)
    → Comes eopt (events_of cs) (events_of cs)
events_of-Comes eopt [] = ended
events_of-Comes eopt (c ∷ cs) = plain (event_of-plain c) (events_of-Comes eopt cs)

-- The specification: the last argument of each option.
abbrev pub chosen : {D : Type 0} → Choice → Settings D → Settings D
chosen (file t) s = record s { filename = some t }
chosen (owner t) s = record s { ownername = some t }
chosen (group t) s = record s { groupname = some t }
chosen (access t) s = record s { accessstring = some t }

module _ (F : Doubles) (of_long : ℤ → F.D) (g : Program) where
  abbrev pub settings_of : List Choice → Settings F.D → Settings F.D
  settings_of [] s = s
  settings_of (c ∷ cs) s = settings_of cs (chosen c s)

  handle_event-choice :
      (c : Choice) (t : Globals) (s : Settings F.D)
      → handle_event g (handle_option F of_long g) (event_of c) (t, s) ≡ completed (t, chosen c s)
  unfolding handle_event set_flag handle_option take_thresholds take_option
  handle_event-choice (file u) t s = refl
  handle_event-choice (owner u) t s = refl
  handle_event-choice (group u) t s = refl
  handle_event-choice (access u) t s = refl

  handle_all-choices :
      (cs : List Choice) (t : Globals) (s : Settings F.D)
      → handle_all g (handle_option F of_long g) (events_of cs) (t, s)
        ≡ completed (t, settings_of cs s)
  unfolding handle_all
  handle_all-choices [] t s = refl
  handle_all-choices (c ∷ cs) t s =
      ap (λ o. o >>= handle_all g (handle_option F of_long g) (events_of cs))
        (handle_event-choice c t s)
      ∙ handle_all-choices cs t (chosen c s)

  -- Given -f, -o, -g and -a in any number and order, the file check goes on with the last text of each,
  -- or leaves with the usage if no -f is among them; one round more than options is enough.
  pub process_arguments-choices :
      (fuel : ℕ) (cs : List Choice) (t : Globals)
      → length cs < fuel
      → process_arguments F of_long g fuel (events_of cs) t
        ≡ elim (settings_of cs no_settings).filename [
          | none ↦ left (use_error g (codes "Filename is mandatory."))
          | some filename ↦ completed (t, settings_of cs no_settings)
        ]
  unfolding process_arguments require_filename
  process_arguments-choices fuel cs t b =
      ap (λ o. o >>= require_filename F of_long g)
        (process_options-events g (handle_option F of_long g) fuel (events_of cs) (events_of cs) t
            no_settings (events_of-Comes g.eopt cs) (omega (arith, length-events_of cs))
          ∙ handle_all-choices cs t no_settings)
