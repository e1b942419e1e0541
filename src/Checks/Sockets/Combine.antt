-- ===== src/Checks/Sockets/Combine.antt =====
-- The status of the sockets check from those of its tables.
use monitoringplug.Base.{
  ℕ, zero, suc, max, ◌≤◌, ◌&&◌, Bool, false, not, Option, none, some, List, [], ◌∷◌, ◌++◌, ◌≡◌,
  refl, sym, ap, ◌∙◌, arith, Bytes, codes, ◌==◌, if◌then◌else◌, Bool-cases, inl, inr, All,
}
use monitoringplug.Base.Int.{ℤ, pos, ltb_ℤ}
use monitoringplug.Range.{Doubles, Thresholds, get_status}
use monitoringplug.Args.{Family, unspec, inet, inet6}
use monitoringplug.Utils.{strcat_comma, strcat_with}
use monitoringplug.Output.{Plugin, Exit, ok, warning, critical, unknown}
use monitoringplug.Getopt.{Outcome, completed, ◌>>=◌}
use monitoringplug.Getopt.Bind.{bind_assoc, bind_completed, bind_agree}
use monitoringplug.Checks.Sockets.{
  Block, tcp, tcp6, udp, udp6, raw, raw6, State, next_status, next_output, Settings, count_socket,
  judge, run_block, is_inet, is_inet6, run_port, run_ports, leave, check,
}

-- The severity of a status: unknown is worse than OK only.
abbrev pub rank : ℕ → ℕ
rank status = if status == 1 then 2 else if status == 2 then 3 else if status == 3 then 1 else 0

-- What a table's status counts for: a critical one of a block that does not raise the status, nothing.
abbrev pub counted : Bool → ℕ → ℕ
counted raises lstatus = if lstatus == 2 && not raises then 0 else rank lstatus

abbrev pub IsStatus : ℕ → Type 0
IsStatus status = status ≤ 3

next_status-rank :
    (raises : Bool) (lstatus status : ℕ)
    → IsStatus status
    → (rank (next_status raises lstatus status) ≡ max (rank status) (counted raises lstatus))
      × IsStatus (next_status raises lstatus status)
unfolding next_status
next_status-rank raises lstatus status h = ground arith

-- The tables that the options select, in order.
abbrev pub tables : Family → Block → Block → ℤ → List (Block × ℤ)
tables ipv v4 v6 port =
    if ltb_ℤ port (pos 0)
    then []
    else (if is_inet ipv then (v4, port) ∷ [] else [])
      ++ (if is_inet6 ipv then (v6, port) ∷ [] else [])

abbrev pub selected : {D : Type 0} → Settings D → List (Block × ℤ)
selected g =
    tables g.ipv tcp tcp6 g.tcpport
    ++ (tables g.ipv udp udp6 g.udpport ++ tables g.ipv raw raw6 g.rawport)

-- A status with its text: only OK has none.
abbrev pub Told : ℕ → Option Bytes → Type 0
Told status none = ◌≡◌ {A = ℕ} status 0
Told status (some output) = Unit

next_output-Told :
    (b : Block) (lstatus status : ℕ) (output : Option Bytes)
    → Told status output
    → Told (next_status b.raises lstatus status) (next_output b.name lstatus output)
unfolding next_status next_output strcat_comma strcat_with
next_output-Told b lstatus status none h = ground arith
next_output-Told b lstatus status (some output) h = ground arith

if_false {ℓ} : {A : Type ℓ} (x y : A) (b : Bool) → b ≡ false → (if b then x else y) ≡ y
if_false x y b h = rw h refl

module _ (F : Doubles) (of_long : ℤ → F.D) (fopen : Bytes → Option Bytes)
    (t : Option (Thresholds F.D)) (p : Plugin) where
  run_tables : List (Block × ℤ) → State F.D → Outcome (State F.D)
  run_tables [] s = completed s
  run_tables ((b, port) ∷ bs) s = run_block F of_long fopen b port s >>= run_tables bs

  run_tables-append :
      (bs cs : List (Block × ℤ)) (s : State F.D)
      → run_tables (bs ++ cs) s ≡ (run_tables bs s >>= run_tables cs)
  unfolding run_tables
  run_tables-append [] cs s = refl
  run_tables-append ((b, port) ∷ bs) cs s =
      bind_agree (run_block F of_long fopen b port s) (run_tables (bs ++ cs))
        (λ u. run_tables bs u >>= run_tables cs) (run_tables-append bs cs)
      ∙ sym (bind_assoc (run_block F of_long fopen b port s) (run_tables bs) (run_tables cs))

  run_port-tables :
      (ipv : Family) (v4 v6 : Block) (port : ℤ) (s : State F.D)
      → run_port F of_long fopen ipv v4 v6 port s ≡ run_tables (tables ipv v4 v6 port) s
  unfolding run_port run_tables
  run_port-tables unspec v4 v6 port s = elim (Bool-cases (ltb_ℤ port (pos 0))) [
    | inl h ↦ rw h refl
    | inr h ↦ rw h (
        sym (
          bind_agree (run_block F of_long fopen v4 port s) (run_tables ((v6, port) ∷ []))
            (run_block F of_long fopen v6 port)
            (λ u. bind_completed (run_block F of_long fopen v6 port u))))
  ]
  run_port-tables inet v4 v6 port s = elim (Bool-cases (ltb_ℤ port (pos 0))) [
    | inl h ↦ rw h refl
    | inr h ↦ rw h (refl)
  ]
  run_port-tables inet6 v4 v6 port s = elim (Bool-cases (ltb_ℤ port (pos 0))) [
    | inl h ↦ rw h refl
    | inr h ↦ rw h (sym (bind_completed (run_block F of_long fopen v6 port s)))
  ]

  -- What the tables hold, as `countSocket` finds it.
  abbrev pub Found : (Block → ℤ → Option ℕ) → List (Block × ℤ) → Type 0
  Found found = All (λ (bp : Block × ℤ).
      count_socket F of_long fopen p bp.0.table bp.1 ≡ completed (found bp.0 bp.1))

  abbrev pub status_of : Option ℕ → ℕ
  status_of none = 3
  status_of (some count) = get_status F (of_long (pos count)) t

  -- The specification: the worst rank of the tables, at least `base`.
  abbrev pub worst : (Block → ℤ → Option ℕ) → ℕ → List (Block × ℤ) → ℕ
  worst found base [] = base
  worst found base ((b, port) ∷ bs) =
      worst found (max base (counted b.raises (status_of (found b port)))) bs

  -- The state while no performance data is shown.
  record Quiet (s : State F.D) : Type 0 where
    plugin_is : s.plugin ≡ p
    thresholds_are : s.thresholds ≡ t
    known : IsStatus s.status
    told : Told s.status s.output

  -- where no performance data is shown, a table changes but the status and the text
  told_of : State F.D → Block → ℕ → State F.D
  told_of s b lstatus = record s {
    output = next_output b.name lstatus s.output;
    status = next_status b.raises lstatus s.status;
  }

  abbrev tell : Block → ℕ × State F.D → Outcome (State F.D)
  tell b (lstatus, u) = completed (told_of u b lstatus)

  judge-Quiet :
      (b : Block) (c : Option ℕ) (s : State F.D)
      → p.show_perfdata ≡ false
      → Quiet s
      → judge F of_long fopen b c s ≡ (status_of c, s)
  unfolding judge
  judge-Quiet b none s h q = refl
  judge-Quiet b (some count) s h q =
      if_false _ _ s.plugin.show_perfdata (ap (λ (r : Plugin). r.show_perfdata) q.plugin_is ∙ h)
      ∙ ap (λ u. (get_status F (of_long (pos count)) u, s)) q.thresholds_are

  run_block-Quiet :
      (b : Block) (port : ℤ) (c : Option ℕ) (s : State F.D)
      → p.show_perfdata ≡ false
      → Quiet s
      → count_socket F of_long fopen p b.table port ≡ completed c
      → run_block F of_long fopen b port s ≡ completed (told_of s b (status_of c))
  unfolding run_block told_of
  run_block-Quiet b port c s h q found =
      ap
        (λ r.
          count_socket F of_long fopen r b.table port
          >>= (λ d. tell b (judge F of_long fopen b d s)))
        q.plugin_is
      ∙ ap (λ o. o >>= (λ d. tell b (judge F of_long fopen b d s))) found
      ∙ ap (tell b) (judge-Quiet b c s h q)

  told_of-Quiet : (s : State F.D) (b : Block) (lstatus : ℕ) → Quiet s → Quiet (told_of s b lstatus)
  unfolding told_of
  told_of-Quiet s b lstatus q = record {
    plugin_is = q.plugin_is;
    thresholds_are = q.thresholds_are;
    known = (next_status-rank b.raises lstatus s.status q.known).1;
    told = next_output-Told b lstatus s.status s.output q.told;
  }

  run_tables-worst :
      (found : Block → ℤ → Option ℕ) (bs : List (Block × ℤ)) (s : State F.D)
      → p.show_perfdata ≡ false
      → Quiet s
      → Found found bs
      → (u : State F.D) × (run_tables bs s ≡ completed u)
        × Quiet u
        × (rank u.status ≡ worst found (rank s.status) bs)
  unfolding run_tables
  run_tables-worst found [] s h q f = (s, refl, q, refl)
  run_tables-worst found ((b, port) ∷ bs) s h q (f, fs) =
      let lstatus = status_of (found b port) in
      let next = told_of s b lstatus in
      let (u, runs, quiet, ranked) =
        run_tables-worst found bs next h (told_of-Quiet s b lstatus q) fs in
      (
        u,
        ap (λ o. o >>= run_tables bs) (run_block-Quiet b port (found b port) s h q f) ∙ runs,
        quiet,
        ranked
            ∙ ap (λ r. worst found r bs)
                (unfold told_of in (next_status-rank b.raises lstatus s.status q.known).0),
      )

  run_ports-tables :
      (g : Settings F.D) (s : State F.D) → run_ports F of_long fopen g s ≡ run_tables (selected g) s
  unfolding run_ports
  run_ports-tables g s =
      let first = run_tables (tables g.ipv tcp tcp6 g.tcpport) in
      let third = run_tables (tables g.ipv raw raw6 g.rawport) in
      ap
        (λ o. o >>= (λ u.
          run_port F of_long fopen g.ipv udp udp6 g.udpport u
          >>= run_port F of_long fopen g.ipv raw raw6 g.rawport))
        (run_port-tables g.ipv tcp tcp6 g.tcpport s)
      ∙ bind_agree (first s)
          (λ u.
            run_port F of_long fopen g.ipv udp udp6 g.udpport u
            >>= run_port F of_long fopen g.ipv raw raw6 g.rawport)
          (run_tables (tables g.ipv udp udp6 g.udpport ++ tables g.ipv raw raw6 g.rawport))
          (λ u.
            bind_agree (run_port F of_long fopen g.ipv udp udp6 g.udpport u)
              (run_port F of_long fopen g.ipv raw raw6 g.rawport) third
              (run_port-tables g.ipv raw raw6 g.rawport)
            ∙ ap (λ o. o >>= third) (run_port-tables g.ipv udp udp6 g.udpport u)
            ∙ sym (
                run_tables-append (tables g.ipv udp udp6 g.udpport)
                  (tables g.ipv raw raw6 g.rawport) u))
      ∙ sym (
          run_tables-append (tables g.ipv tcp tcp6 g.tcpport)
            (tables g.ipv udp udp6 g.udpport ++ tables g.ipv raw raw6 g.rawport) s)

  leave-fields :
      (vprintf : Bytes → Bytes) (status : ℕ) (output : Option Bytes)
      → IsStatus status
      → Told status output
      → (e : Exit) × (leave F of_long fopen vprintf
            (record { output = output; status = status; thresholds = t; plugin = p })
          ≡ completed e)
        × (e.status ≡ status)
  unfolding leave ok warning critical unknown
  leave-fields vprintf zero output k h = (ok (codes "Everithing ok.") p, refl, refl)
  leave-fields vprintf (suc zero) (some o) k h = (warning (vprintf o) p, refl, refl)
  leave-fields vprintf (suc (suc zero)) (some o) k h = (critical (vprintf o) p, refl, refl)
  leave-fields vprintf (suc (suc (suc zero))) (some o) k h = (unknown (vprintf o) p, refl, refl)
  leave-fields vprintf (suc (suc (suc (suc n)))) (some o) k h = absurd (omega arith)
  leave-fields vprintf (suc n) none k h = absurd (omega arith)

  -- Where no performance data is shown, the sockets check completes, and of the selected tables the worst
  -- decides its status, in the order CRITICAL, WARNING, UNKNOWN, OK, where a table that cannot be read is
  -- UNKNOWN, except that a critical count in tcp6 counts for nothing. `found` is what `countSocket`
  -- comes to for each table that the options select.
  pub check-counted :
      (vprintf : Bytes → Bytes) (g : Settings F.D) (found : Block → ℤ → Option ℕ)
      → p.show_perfdata ≡ false
      → g.socket_thresholds ≡ t
      → Found found (selected g)
      → (e : Exit) × (check F of_long fopen vprintf g p ≡ completed e)
        × (rank e.status ≡ worst found 0 (selected g))
  unfolding check
  check-counted vprintf g found h same f =
      let begin : State F.D = record {
        output = none;
        status = 0;
        thresholds = g.socket_thresholds;
        plugin = p;
      } in
      let (u, runs, quiet, ranked) =
        run_tables-worst found (selected g) begin h
          (record { plugin_is = refl; thresholds_are = same; known = omega arith; told = refl })
          f in
      let (e, leaves, status) = leave-fields vprintf u.status u.output quiet.known quiet.told in
      (
        e,
        ap (λ o. o >>= leave F of_long fopen vprintf) (run_ports-tables g begin ∙ runs)
            ∙ ap
                (λ (q : Plugin × Option (Thresholds F.D)).
                  leave F of_long fopen vprintf (record {
                    output = u.output;
                    status = u.status;
                    thresholds = q.1;
                    plugin = q.0;
                  }))
                (λ i. (quiet.plugin_is i, quiet.thresholds_are i))
            ∙ leaves,
        ap rank status ∙ ranked,
      )
