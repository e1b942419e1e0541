-- ===== src/Template/Meaning.antt =====
-- The machine yields what a template means.
use monitoringplug.Base.{
  Bool, true, false, not, Option, none, some, List, [], ◌∷◌, ◌++◌, append-nil, append_assoc, ◌≡◌,
  refl, sym, ap, subst, ◌∙◌, arith, Bytes, if◌then◌else◌,
}
use monitoringplug.Base.Int.{ℤ, eqb_ℤ}
use monitoringplug.Template.{
  Conditional, Template, start, append, is_zero, Command, put, open_if, flip, open_switch, when,
  close, step, run,
}
use monitoringplug.Template.Runs.{
  Skips, Yields, YieldsInside, Leads, Skips-append, Skips-suc, Skips-flip, Skips-when,
  open_if-deeper, open_switch-deeper, Skips_bracket, guarded, Leads-append, Leads-cons,
  Yields-append, Yields-bracket, open_if-Yields, open_switch-Yields, flip_inside, when_inside,
}
use monitoringplug.Template.Tree.{
  Node, text, branch, branch_else, switch, Nodes, none_left, also, Cases, no_case, a_case, commands,
  commands_of, case_commands, text_of, render, render_of, render_cases,
}

-- The calls of a piece of a template, and its text.
record Acts (cmds : List Command) (r : Bytes) : Type 0 where
  off : Skips 0 cmds
  on : Yields cmds r

record ActsInside (cmds : List Command) (r : ℤ → Bytes) : Type 0 where
  off : Skips 1 cmds
  on : (i : ℤ) → YieldsInside i cmds (r i)

text-Acts : (s : Option Bytes) → Acts (put s ∷ []) (text_of s)
unfolding run step
text-Acts none = record {
  off = λ t c cs d e h. refl;
  on = λ t d.
      (record { last = t; runs = refl; appends = sym (append-nil t.output); keeps = refl }, d);
}
text-Acts (some s) = record {
  off = λ t c cs d e h. unfold append in rw d;
  on = λ t d. (
    record {
      last = append (some s) t;
      runs = refl;
      appends = unfold append in rw d;
      keeps = unfold append in rw d;
    },
    unfold append in ground (arith, d),
  );
}

module _ {b : List Command} {r : Bytes} (acts : Acts b r) where
  branch-Acts : (e : ℤ) → Acts (open_if e ∷ (b ++ close ∷ [])) (if is_zero e then [] else r)
  branch-Acts e = record {
    off = Skips_bracket (open_if e) b (open_if-deeper e) (Skips-suc b acts.off);
    on =
        Yields-bracket (open_if e) e (is_zero e) b _ (open_if-Yields e)
          (λ t c cs k z v d. (guarded b r acts.off acts.on t c cs (is_zero e) k d).0);
  }

  module _ {d : List Command} {s : Bytes} (other : Acts d s) where
    Acts-append : Acts (b ++ d) (r ++ s)
    Acts-append = record {
      off = Skips-append 0 b d acts.off other.off;
      on = Yields-append acts.on other.on;
    }

    either : (z : Bool) → (if z then [] else r) ++ (if not z then [] else s) ≡ (if z then s else r)
    either true = refl
    either false = append-nil r

    else_inside :
        (e : ℤ) (t : Template) (c : Conditional) (cs : List Conditional)
        → t.conditionals ≡ c ∷ cs
        → c.deep ≡ 0
        → c.ival ≡ e
        → t.disable ≡ is_zero e
        → Leads (b ++ flip ∷ d) t (if is_zero e then s else r)
    else_inside e t c cs k z v x =
        let (l, y) = guarded b r acts.off acts.on t c cs (is_zero e) k x in
        let u : Template = record l.last { disable = not (is_zero c.ival) } in
        let (m, w) =
          guarded d s other.off other.on u c cs (not (is_zero e)) (l.keeps ∙ k)
            (ap (λ i. not (is_zero i)) v) in
        subst (Leads (b ++ flip ∷ d) t) (either (is_zero e))
          (Leads-append l (Leads-cons (flip_inside l.last c cs (l.keeps ∙ k) z) refl refl m))

    else-Acts :
        (e : ℤ) → Acts (open_if e ∷ (b ++ flip ∷ (d ++ close ∷ []))) (if is_zero e then s else r)
    else-Acts e =
        subst (λ body. Acts (open_if e ∷ body) (if is_zero e then s else r))
          (append_assoc b (flip ∷ d) (close ∷ []))
          (record {
            off = Skips_bracket (open_if e) (b ++ flip ∷ d) (open_if-deeper e) (
                Skips-append 1 b (flip ∷ d) (Skips-suc b acts.off)
                  (Skips-append 1 (flip ∷ []) d Skips-flip (Skips-suc d other.off)));
            on =
                Yields-bracket (open_if e) e (is_zero e) (b ++ flip ∷ d) _ (open_if-Yields e)
                  (else_inside e);
          })

  when-not : (z : Bool) → (if not z then [] else r) ≡ (if z then r else [])
  when-not true = refl
  when-not false = refl

  case_inside :
      (j i : ℤ) {c : List Command} {s : Bytes}
      → YieldsInside i c s
      → YieldsInside i (when j ∷ (b ++ c)) ((if eqb_ℤ i j then r else []) ++ s)
  case_inside j i {c = more} {s} rest t c cs k z v =
      let u : Template = record t { disable = not (eqb_ℤ c.ival j) } in
      let (l, y) =
        guarded b r acts.off acts.on u c cs (not (eqb_ℤ i j)) k (ap (λ x. not (eqb_ℤ x j)) v) in
      subst (Leads (when j ∷ (b ++ more)) t) (ap (λ x. x ++ s) (when-not (eqb_ℤ i j))) (
        Leads-cons (when_inside j t c cs k z) refl refl
          (Leads-append l (rest l.last c cs (l.keeps ∙ k) z v)))

  case-ActsInside :
      (j : ℤ) {c : List Command} {r' : ℤ → Bytes}
      → ActsInside c r'
      → ActsInside (when j ∷ (b ++ c)) (λ i. (if eqb_ℤ i j then r else []) ++ r' i)
  case-ActsInside j {c = more} {r'} rest = record {
    off =
        Skips-append 1 (when j ∷ []) (b ++ more) (Skips-when j)
          (Skips-append 1 b more (Skips-suc b acts.off) rest.off);
    on = λ i. case_inside j i (rest.on i);
  }

no_case-ActsInside : ActsInside [] (λ i. [])
unfolding run
no_case-ActsInside = record {
  off = λ t c cs d e h. refl;
  on = λ i t c cs k z v. record {
    last = t;
    runs = refl;
    appends = sym (append-nil t.output);
    keeps = refl;
  };
}

none_left-Acts : Acts [] []
unfolding run
none_left-Acts = record {
  off = λ t c cs d e h. refl;
  on = λ t d.
      (record { last = t; runs = refl; appends = sym (append-nil t.output); keeps = refl }, d);
}

switch-Acts :
    (i : ℤ) {c : List Command} {r : ℤ → Bytes}
    → ActsInside c r
    → Acts (open_switch i ∷ (c ++ close ∷ [])) (r i)
switch-Acts i {c} {r} h = record {
  off = Skips_bracket (open_switch i) c (open_switch-deeper i) h.off;
  on =
      Yields-bracket (open_switch i) i true c (r i) (open_switch-Yields i)
        (λ t k cs e z v d. h.on i t k cs e z v);
}

mutual
  unfolding commands

  commands-Acts : (n : Node) → Acts (commands n) (render n)
  commands-Acts (text s) = text-Acts s
  commands-Acts (branch e b) = branch-Acts (commands_of-Acts b) e
  commands-Acts (branch_else e b d) = else-Acts (commands_of-Acts b) (commands_of-Acts d) e
  commands-Acts (switch i c) = switch-Acts i (case_commands-ActsInside c)

  commands_of-Acts : (ns : Nodes) → Acts (commands_of ns) (render_of ns)
  commands_of-Acts none_left = none_left-Acts
  commands_of-Acts (also n ns) = Acts-append (commands-Acts n) (commands_of-Acts ns)

  case_commands-ActsInside : (c : Cases) → ActsInside (case_commands c) (λ i. render_cases i c)
  case_commands-ActsInside no_case = no_case-ActsInside
  case_commands-ActsInside (a_case j b c) =
      case-ActsInside (commands_of-Acts b) j (case_commands-ActsInside c)

-- From the start, the calls for any template run without a fault, whatever conditionals it nests,
-- and leave as output the text that it stands for, with no conditional open and nothing switched off.
pub run-render :
    (ns : Nodes)
    → (t : Template) × (run (commands_of ns) start ≡ some t)
      × (t.output ≡ render_of ns)
      × (t.disable ≡ false)
      × (t.conditionals ≡ [])
run-render ns =
    let (l, on) = (commands_of-Acts ns).on start refl in (l.last, l.runs, l.appends, on, l.keeps)

-- Inside a part that is switched off, the calls for any template change nothing.
pub run_skipped :
    (ns : Nodes) (t : Template) (c : Conditional) (cs : List Conditional)
    → t.disable ≡ true
    → t.conditionals ≡ c ∷ cs
    → run (commands_of ns) t ≡ some t
run_skipped ns t c cs d e = (commands_of-Acts ns).off t c cs d e (omega arith)
