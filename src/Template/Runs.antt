-- ===== src/Template/Runs.antt =====
-- Runs of the template machine: code that is switched off leaves the state as it was; code that is
-- switched on appends its text and leaves the conditionals as they were.
use monitoringplug.Base.{
  ℕ, ◌+◌, ◌≤◌, Bool, true, false, not, some, List, [], ◌∷◌, ◌++◌, append-nil, append_assoc, ◌≡◌,
  refl, sym, ap, ◌∙◌, inl, inr, arith, Bytes, if◌then◌else◌, Option-cases,
}
use monitoringplug.Base.Int.{ℤ, eqb_ℤ}
use monitoringplug.Template.{
  Conditional, Template, is_zero, Command, open_if, flip, open_switch, when, close, step, run,
}

pub run-step :
    (c : Command) (cs : List Command) (t : Template) {u : Template}
    → step c t ≡ some u
    → run (c ∷ cs) t ≡ run cs u
unfolding run
run-step c cs t e = rw e

-- A run of `a` that ends well goes on with `b`.
pub run_through :
    (a b : List Command) (t : Template) {u : Template} → run a t ≡ some u → run (a ++ b) t ≡ run b u
unfolding run
run_through [] b t e = ground arith
run_through (c ∷ a) b t {u} e = elim (Option-cases (step c t)) [
  | inl f ↦ cc (rw f at e)
  | inr (v, f) ↦ rw f (run_through a b v (rw f at e))
]

-- The calls change nothing in a state that is switched off, `m` levels deep or more.
abbrev pub Skips : ℕ → List Command → Type 0
Skips m cmds =
    (t : Template) (c : Conditional) (cs : List Conditional)
    → t.disable ≡ true
    → t.conditionals ≡ c ∷ cs
    → m ≤ c.deep
    → run cmds t ≡ some t

-- What a run leads to: the state `u`, with `r` appended and the conditionals kept.
pub record Leads (cmds : List Command) (t : Template) (r : Bytes) : Type 0 where
  pub last : Template
  pub runs : run cmds t ≡ some last
  pub appends : last.output ≡ t.output ++ r
  pub keeps : last.conditionals ≡ t.conditionals

-- The calls append `r` in a state that is switched on, and leave it on.
abbrev pub Yields : List Command → Bytes → Type 0
Yields cmds r = (t : Template) → t.disable ≡ false → (l : Leads cmds t r) × (l.last.disable ≡ false)

-- The calls stand between the start and the end of a conditional with value `i`.
abbrev pub YieldsInside : ℤ → List Command → Bytes → Type 0
YieldsInside i cmds r =
    (t : Template) (c : Conditional) (cs : List Conditional)
    → t.conditionals ≡ c ∷ cs
    → c.deep ≡ 0
    → c.ival ≡ i
    → Leads cmds t r

pub Skips-append : (m : ℕ) (a b : List Command) → Skips m a → Skips m b → Skips m (a ++ b)
Skips-append m a b ha hb t c cs d e h = run_through a b t (ha t c cs d e h) ∙ hb t c cs d e h

pub Skips-suc : (a : List Command) → Skips 0 a → Skips 1 a
Skips-suc a ha t c cs d e h = ha t c cs d e (omega arith)

pub Skips-flip : Skips 1 (flip ∷ [])
unfolding run step
Skips-flip t c cs d e h = ground arith

pub Skips-when : (i : ℤ) → Skips 1 (when i ∷ [])
unfolding run step
Skips-when i t c cs d e h = ground arith

-- The state inside a conditional that is skipped.
abbrev pub deeper : Template → Conditional → List Conditional → Template
deeper t c cs = record t { conditionals = record c { deep = c.deep + 1 } ∷ cs }

close-deeper :
    (t : Template) (c : Conditional) (cs : List Conditional)
    → t.conditionals ≡ c ∷ cs
    → step close (deeper t c cs) ≡ some t
unfolding step
close-deeper t c cs e = ground arith

pub open_if-deeper :
    (i : ℤ) (t : Template) (c : Conditional) (cs : List Conditional)
    → t.disable ≡ true
    → t.conditionals ≡ c ∷ cs
    → step (open_if i) t ≡ some (deeper t c cs)
unfolding step
open_if-deeper i t c cs d e = ground arith

pub open_switch-deeper :
    (i : ℤ) (t : Template) (c : Conditional) (cs : List Conditional)
    → t.disable ≡ true
    → t.conditionals ≡ c ∷ cs
    → step (open_switch i) t ≡ some (deeper t c cs)
unfolding step
open_switch-deeper i t c cs d e = ground arith

pub Skips_bracket :
    (o : Command) (body : List Command)
    → ((t : Template) (c : Conditional) (cs : List Conditional)
        → t.disable ≡ true
        → t.conditionals ≡ c ∷ cs
        → step o t ≡ some (deeper t c cs))
    → Skips 1 body
    → Skips 0 (o ∷ (body ++ close ∷ []))
Skips_bracket o body opens h t c cs d k _ =
    run-step o (body ++ close ∷ []) t (opens t c cs d k)
    ∙ run_through body (close ∷ []) (deeper t c cs) (h (deeper t c cs) _ cs d refl (omega arith))
    ∙ run-step close [] (deeper t c cs) (close-deeper t c cs k)
    ∙ unfold run in refl

-- In a state with a conditional in front, switched off or on.
pub guarded :
    (body : List Command) (r : Bytes)
    → Skips 0 body
    → Yields body r
    → (t : Template) (c : Conditional) (cs : List Conditional) (x : Bool) → t.conditionals ≡ c ∷ cs
    → t.disable ≡ x
    → (l : Leads body t (if x then [] else r)) × (l.last.disable ≡ x)
guarded body r off on t c cs true e d = (
  record {
    last = t;
    runs = off t c cs d e (omega arith);
    appends = sym (append-nil t.output);
    keeps = refl;
  },
  d,
)
guarded body r off on t c cs false e d = on t d

module _ {a b : List Command} {r s : Bytes} where
  -- one run after another
  pub Leads-append : {t : Template} (l : Leads a t r) → Leads b l.last s → Leads (a ++ b) t (r ++ s)
  Leads-append {t} l k = record {
    last = k.last;
    runs = run_through a b t l.runs ∙ k.runs;
    appends = k.appends ∙ ap (λ o. o ++ s) l.appends ∙ append_assoc t.output r s;
    keeps = k.keeps ∙ l.keeps;
  }

  pub Yields-append : Yields a r → Yields b s → Yields (a ++ b) (r ++ s)
  unfolding Leads-append
  Yields-append ha hb t d = let (l, e) = ha t d in let (k, f) = hb l.last e in (Leads-append l k, f)

-- A call that opens a conditional, a body, and the end.
pub Yields-bracket :
    (o : Command) (i : ℤ) (x : Bool) (body : List Command) (r : Bytes)
    → ((t : Template)
        → t.disable ≡ false
        → step o t
          ≡ some (record t {
            conditionals = record { deep = 0; ival = i } ∷ t.conditionals;
            disable = x;
          }))
    → ((t : Template) (c : Conditional) (cs : List Conditional)
        → t.conditionals ≡ c ∷ cs
        → c.deep ≡ 0
        → c.ival ≡ i
        → t.disable ≡ x
        → Leads body t r)
    → Yields (o ∷ (body ++ close ∷ [])) r
Yields-bracket o i x body r opens inner t d =
    let inside : Template = record t {
      conditionals = record { deep = 0; ival = i } ∷ t.conditionals;
      disable = x;
    } in
    let l : Leads body inside r = inner inside _ _ refl refl refl refl in
    let closed : step close l.last
        ≡ some (record l.last { conditionals = t.conditionals; disable = false }) =
      unfold step in rw l.keeps in
    (
      record {
        last = record l.last { conditionals = t.conditionals; disable = false };
        runs =
            run-step o (body ++ close ∷ []) t (opens t d)
            ∙ run_through body (close ∷ []) inside l.runs
            ∙ run-step close [] l.last closed
            ∙ unfold run in refl;
        appends = l.appends;
        keeps = refl;
      },
      refl,
    )

pub open_if-Yields :
    (e : ℤ) (t : Template)
    → t.disable ≡ false
    → step (open_if e) t
      ≡ some (record t {
        conditionals = record { deep = 0; ival = e } ∷ t.conditionals;
        disable = is_zero e;
      })
unfolding step
open_if-Yields e t d = rw d

pub open_switch-Yields :
    (i : ℤ) (t : Template)
    → t.disable ≡ false
    → step (open_switch i) t
      ≡ some (record t {
        conditionals = record { deep = 0; ival = i } ∷ t.conditionals;
        disable = true;
      })
unfolding step
open_switch-Yields i t d = rw d

-- `flip` and `when` in front of a body, inside their conditional
pub flip_inside :
    (t : Template) (c : Conditional) (cs : List Conditional)
    → t.conditionals ≡ c ∷ cs
    → c.deep ≡ 0
    → step flip t ≡ some (record t { disable = not (is_zero c.ival) })
unfolding step
flip_inside t c cs e z = ground arith

pub when_inside :
    (i : ℤ) (t : Template) (c : Conditional) (cs : List Conditional)
    → t.conditionals ≡ c ∷ cs
    → c.deep ≡ 0
    → step (when i) t ≡ some (record t { disable = not (eqb_ℤ c.ival i) })
unfolding step
when_inside i t c cs e z = ground arith

pub Leads-cons :
    {o : Command} {body : List Command} {t u : Template} {r : Bytes}
    → step o t ≡ some u
    → u.output ≡ t.output
    → u.conditionals ≡ t.conditionals
    → Leads body u r
    → Leads (o ∷ body) t r
Leads-cons {o} {body} {t} {u} {r} e same keep l = record {
  last = l.last;
  runs = run-step o body t e ∙ l.runs;
  appends = l.appends ∙ ap (λ x. x ++ r) same;
  keeps = l.keeps ∙ keep;
}
