-- ===== src/Fns/Cli/Running/Refining.antt =====
-- Invoke of a service, on processes that are those of the steps, is an execution of the steps.
use fnrun.Prelude.{
  ℕ, suc, ◌≡◌, refl, sym, ap, ap₂, subst, ◌⊎◌, inl, inr, ◌∙◌, Bool, true, false, Bool-cases,
  Option-cases, String, none, some, [], ◌∷◌, ◌++◌,
}
use fnrun.Value.{Value, null, str}
use fnrun.Exec.{Error, wrap, Context, Result, ok, err, panic, hang, Reply, returns}
use fnrun.Fns.Cli.Os.{Process}
use fnrun.Fns.Cli.Service
use fnrun.Fns.Cli.Service.{
  Selected, response, done, failed, Select, invoke, conclude, after_start, after_print, after_kill,
}
use fnrun.Fns.Cli.Running.{
  Running, start, Step, find_dead, find_alive, launch, misprint, print, respond, cancel, fail,
  ReachBy, more,
}
use fnrun.Fns.Cli.Running.Answers.{split_one}
use fnrun.Fns.Cli.Running.Simulation.{
  AService, Matches, Faults, or_fault, numbered, ReachBy-Idle, Idle-IsUntouched, Begins, Waits,
  IsRefusal, IsUnkilled, Outcome,
}

module _ (g : String → String) (P : (t u : Running) → Step g t u → Type 0) (faults : Faults)
    (print_value : Value → String) (message_of : Error → String) (ctx_err : Context → Error)
    (error_of : ℕ → Error) (select : Select Running)
    (selects : (ctx : Context) (u : Running)
      → Waits g P error_of u (select ctx u).0 (select ctx u).1)
    (begins : Begins g P) where
  abbrev os : Process (Unit {0}) ℕ ℕ Running
  os = numbered faults print_value message_of ctx_err

  abbrev Leads : Context → Value → Running → Reply × AService × Running → Type 0
  Leads = Outcome g P faults print_value message_of ctx_err error_of

  -- A service with its process.
  abbrev alive_on : Unit {0} → ℕ → AService
  alive_on base p = record { alive = true; base_cmd = base; process = some p; stdin = some p }

  killed : Unit {0} → ℕ → AService
  killed base p = record (alive_on base p) { alive = false }

  -- The invocation is in its select.
  abbrev IsIn : ℕ → Value → Running → Running → Type 0
  IsIn p input w u =
      ReachBy g P start u
      × (u.waiting ≡ print_value input ∷ [])
      × (u.current ≡ some p)
      × (u.answers ≡ w.answers)
      × (u.failures ≡ w.failures)
      × (u.cancelled ≡ w.cancelled)

  responded :
      (ctx : Context) (input : Value) (base : Unit {0}) (p : ℕ) (w u u' : Running) (x : String)
      (b : Bool)
      → IsIn p input w u
      → Waits g P error_of u (ok (response x, b)) u'
      → Leads ctx input w (returns (str x) none, record (alive_on base p) { alive = b }, u')
  responded ctx input base p w u u' x b (r, waits, current, answers, failures, cancels)
        (t, q, given, rest, before, after, idle, e, e', allowed, alive, at) =
      let (same_waiting, same_current, same_answers, same_failures, same_cancelled) =
        Idle-IsUntouched g P idle in
      let (none_left, same) =
        split_one given (print_value input) before after t.waiting e (same_waiting ∙ waits) in
      let at_p = same_current ∙ current in
      subst
        (λ z. Leads ctx input w (returns (str x) none, record (alive_on base p) { alive = b }, z))
        (sym at)
        (
          more (ReachBy-Idle g P r idle) (respond q given x rest before after e e') allowed,
          (alive, sym at_p, sym at_p, none_left, λ h. (p, at_p)),
          (
            x,
            refl,
            ap₂ (λ i l. (i, x) ∷ l) same (same_answers ∙ answers),
            same_failures ∙ failures,
            same_cancelled ∙ cancels,
          ),
        )

  -- What kill returns, by whether the process can be killed.
  kill-cases :
      (base : Unit {0}) (p : ℕ) (u : Running)
      → (Service.kill os (alive_on base p) u ≡ (ok tt, killed base p, u))
        ⊎ ((ke : Error) × (faults.kill u ≡ some ke)
            × (Service.kill os (alive_on base p) u ≡ (err ke, killed base p, u)))
  unfolding Service.kill killed
  kill-cases base p u = elim (Option-cases (faults.kill u)) [
    | inl h ↦ inl (rw (Service.kill, h))
    | inr (ke, h) ↦ elim (Bool-cases (faults.is_process_done ke)) [
      | inl d ↦ inl (rw (Service.kill, h, d))
      | inr d ↦ inr (ke, h, rw (Service.kill, h, d))
    ]
  ]

  -- The state after a cancellation, whatever kill returns.
  cancelled :
      (ctx : Context) (input : Value) (base : Unit {0}) (p : ℕ) (w u u' : Running) (b : Bool)
      (e : Error)
      → IsIn p input w u
      → Waits g P error_of u (ok (done, b)) u'
      → (e ≡ ctx_err ctx) ⊎ IsUnkilled g P faults print_value message_of ctx_err error_of e
      → Leads ctx input w (returns null (some e), killed base p, u')
  unfolding killed
  cancelled ctx input base p w u u' b x (r, waits, current, answers, failures, cancels)
        (t, q, given, before, after, idle, e, e', allowed, at) why =
      let (same_waiting, same_current, same_answers, same_failures, same_cancelled) =
        Idle-IsUntouched g P idle in
      let (none_left, same) =
        split_one given (print_value input) before after t.waiting e (same_waiting ∙ waits) in
      let at_p = same_current ∙ current in
      subst (λ z. Leads ctx input w (returns null (some x), killed base p, z)) (sym at)
        (
          more (ReachBy-Idle g P r idle) (cancel q given before after e e') allowed,
          (refl, sym at_p, sym at_p, none_left, λ h. (p, at_p)),
          same_answers ∙ answers,
          inr (
              inl (
                q,
                why,
                same_failures ∙ failures,
                ap₂ (λ i l. (i, q) ∷ l) same (same_cancelled ∙ cancels),
              )),
        )

  -- The state after the error of a process, whatever kill returns.
  broken :
      (ctx : Context) (input : Value) (base : Unit {0}) (p : ℕ) (w u u' : Running) (x y : Error)
      (b : Bool)
      → IsIn p input w u
      → Waits g P error_of u (ok (failed x, b)) u'
      → (y ≡ x)
        ⊎ ((ke : Error) × IsUnkilled g P faults print_value message_of ctx_err error_of ke
            × (y ≡ wrap x (message_of ke)))
      → Leads ctx input w (returns null (some y), killed base p, u')
  unfolding killed
  broken ctx input base p w u u' x y b (r, waits, current, answers, failures, cancels)
        (t, q, given, rest, before, after, idle, e, e', allowed, of_q, at) why =
      let (same_waiting, same_current, same_answers, same_failures, same_cancelled) =
        Idle-IsUntouched g P idle in
      let (none_left, same) =
        split_one given (print_value input) before after t.waiting e (same_waiting ∙ waits) in
      let at_p = same_current ∙ current in
      subst (λ z. Leads ctx input w (returns null (some y), killed base p, z)) (sym at)
        (
          more (ReachBy-Idle g P r idle) (fail q given rest before after e e') allowed,
          (refl, sym at_p, sym at_p, none_left, λ h. (p, at_p)),
          same_answers ∙ answers,
          inr (
              inr (
                q,
                subst
                    (λ z.
                      (y ≡ z)
                      ⊎ ((ke : Error) × IsUnkilled g P faults print_value message_of ctx_err
                            error_of ke
                          × (y ≡ wrap z (message_of ke))))
                    of_q why,
                ap₂ (λ i l. (i, q) ∷ l) same (same_failures ∙ failures),
                same_cancelled ∙ cancels,
              )),
        )

  concluded :
      (ctx : Context) (input : Value) (base : Unit {0}) (p : ℕ) (w u u' : Running)
      (r : Result (Selected × Bool))
      → IsIn p input w u
      → Waits g P error_of u r u'
      → Leads ctx input w (conclude os ctx (alive_on base p) (r, u'))
  unfolding conclude
  concluded ctx input base p w u u' (ok (response x, b)) i h =
      responded ctx input base p w u u' x b i h
  concluded ctx input base p w u u' (ok (done, b)) i h = elim (kill-cases base p u') [
    | inl k ↦
        subst (λ z. Leads ctx input w (after_kill os (λ e. e) (λ v. ctx_err ctx) z)) (sym k)
          (cancelled ctx input base p w u u' b (ctx_err ctx) i h (inl refl))
    | inr (ke, refused, k) ↦
        subst (λ z. Leads ctx input w (after_kill os (λ e. e) (λ v. ctx_err ctx) z)) (sym k)
          (cancelled ctx input base p w u u' b ke i h (inr (u', refused)))
  ]
  concluded ctx input base p w u u' (ok (failed x, b)) i h = elim (kill-cases base p u') [
    | inl k ↦
        subst (λ z. Leads ctx input w (after_kill os (λ ke. wrap x (message_of ke)) (λ v. x) z))
          (sym k) (broken ctx input base p w u u' x x b i h (inl refl))
    | inr (ke, refused, k) ↦
        subst (λ z. Leads ctx input w (after_kill os (λ ke. wrap x (message_of ke)) (λ v. x) z))
          (sym k)
          (broken ctx input base p w u u' x (wrap x (message_of ke)) b i h
            (inr (ke, (u', refused), refl)))
  ]
  concluded ctx input base p w u u' (err x) i h = absurd h
  concluded ctx input base p w u u' panic i h = absurd h
  concluded ctx input base p w u u' hang i idle = ReachBy-Idle g P i.0 idle

  -- A process has been found or started, and the invocation is to print.
  printed :
      (s : AService) (ctx : Context) (input : Value) (p : ℕ) (base : Unit {0}) (w u : Running)
      → alive_on base p ≡ s
      → ReachBy g P start (record u { printing = suc u.printing })
      → u.alive ≡ true
      → u.current ≡ some p
      → u.waiting ≡ []
      → u.answers ≡ w.answers
      → u.failures ≡ w.failures
      → u.cancelled ≡ w.cancelled
      → Leads ctx input w (after_start os select ctx input (ok tt, s, u))
  unfolding Service.print conclude
  printed s ctx input p base w u same r alive current idle answers failures cancels =
      let v : Running = record u {
        stdin = u.stdin ++ (p, print_value input) ∷ [];
        waiting = print_value input ∷ u.waiting;
      } in
      subst (λ z. Leads ctx input w (after_start os select ctx input (ok tt, z, u))) same
        (elim (Option-cases (faults.print u)) [
          | inr (e, h) ↦
              subst
                (λ o.
                  Leads ctx input w
                    (after_print os select ctx (alive_on base p) (or_fault o (tt, v) u)))
                (sym h)
                (
                  more r (misprint u.printing refl) (begins.misprints _ u.printing refl),
                  (sym alive, sym current, sym current, idle, λ h. (p, current)),
                  answers,
                  inl ((u, inr (inr (inr (inr h)))), failures, cancels),
                )
          | inl h ↦
              subst
                (λ o.
                  Leads ctx input w
                    (after_print os select ctx (alive_on base p) (or_fault o (tt, v) u)))
                (sym h)
                (concluded ctx input base p w v (select ctx v).1 (select ctx v).0
                  (
                    more r (print p u.printing (print_value input) refl current)
                        (begins.prints _ p u.printing (print_value input) refl current idle),
                    ap (λ l. print_value input ∷ l) idle,
                    current,
                    answers,
                    failures,
                    cancels,
                  )
                  (selects ctx v))
        ])

  -- The state with a new process.
  launched : Running → Running
  launched w = record w {
    alive = true;
    current = some w.started;
    started = suc w.started;
    live = w.started ∷ w.live;
  }

  launch-cases :
      (base : Unit {0}) (w : Running)
      → (Service.launch os base w ≡ (ok (w.started, w.started), launched w))
        ⊎ ((e : Error) × IsRefusal g P faults print_value message_of ctx_err error_of e
            × (Service.launch os base w ≡ (err e, w)))
  unfolding Service.launch launched
  launch-cases base w = elim (Option-cases (faults.stdin_pipe w)) [
    | inr (e, h) ↦ inr (e, (w, inl h), rw (Service.launch, h))
    | inl h ↦ elim (Option-cases (faults.stdout_pipe w)) [
      | inr (e, h') ↦ inr (e, (w, inr (inl h')), rw (Service.launch, h, h'))
      | inl h' ↦ elim (Option-cases (faults.stderr_pipe w)) [
        | inr (e, h'') ↦ inr (e, (w, inr (inr (inl h''))), rw (Service.launch, h, h', h''))
        | inl h'' ↦ elim (Option-cases (faults.start w)) [
          | inr (e, k) ↦ inr (e, (w, inr (inr (inr (inl k)))), rw (Service.launch, h, h', h'', k))
          | inl k ↦ inl (rw (Service.launch, h, h', h'', k))
        ]
      ]
    ]
  ]

  -- start, on what launch has given
  abbrev on_launch : AService → Result (ℕ × ℕ) × Running → Result (Unit {0}) × AService × Running
  on_launch s (ok (run, stdin), w) =
      (ok tt, record s { process = some run; stdin = some stdin; alive = true }, w)
  on_launch s (err e, w) = (err e, s, w)
  on_launch s (panic, w) = (panic, s, w)
  on_launch s (hang, w) = (hang, s, w)

  on_launch-start_with :
      (s : AService) (w : Running) (x : Result (ℕ × ℕ) × Running)
      → Service.launch os s.base_cmd w ≡ x
      → Service.start_with os false s w ≡ on_launch s x
  unfolding Service.start_with
  on_launch-start_with s w (ok (run, stdin), u) e = rw (Service.start_with, e)
  on_launch-start_with s w (err x, u) e = rw (Service.start_with, e)
  on_launch-start_with s w (panic, u) e = rw (Service.start_with, e)
  on_launch-start_with s w (hang, u) e = rw (Service.start_with, e)

  -- The invocation from its call on, by whether there is a process.
  invoked_as :
      (alive : Bool) (s : AService) (ctx : Context) (input : Value) (w : Running)
      → ReachBy g P start w
      → Matches s w
      → w.alive ≡ alive
      → Leads ctx input w (after_start os select ctx input (Service.start_with os alive s w))
  unfolding Service.start_with launched
  invoked_as false s ctx input w r (alive, process, stdin, idle, wired) e =
      elim (launch-cases s.base_cmd w) [
        | inl h ↦
            subst (λ z. Leads ctx input w (after_start os select ctx input z))
              (sym (on_launch-start_with s w (ok (w.started, w.started), launched w) h))
              (printed (alive_on s.base_cmd w.started) ctx input w.started s.base_cmd w (launched w)
                refl
                (more (more r (find_dead e) (begins.finds_dead w e)) (launch w.entering refl)
                  (begins.launches _ w.entering refl))
                refl refl idle refl refl refl)
        | inr (x, refused, h) ↦
            subst (λ z. Leads ctx input w (after_start os select ctx input z))
              (sym (on_launch-start_with s w (err x, w) h))
              (r, (alive, process, stdin, idle, wired), refl, inl (refused, refl, refl))
      ]
  invoked_as true s ctx input w r (alive, process, stdin, idle, wired) e =
      let (p, current) = wired e in
      let same : alive_on s.base_cmd p ≡ s = λ i. record {
        alive = sym (alive ∙ e) i;
        base_cmd = s.base_cmd;
        process = sym (process ∙ current) i;
        stdin = sym (stdin ∙ current) i;
      } in
      printed s ctx input p s.base_cmd w w same (more r (find_alive e) (begins.finds_alive w e)) e
        current idle refl refl refl

  -- An invocation from a state that the steps reach, with a matching service, is an execution of the
  -- steps to a state that matches again, unless it waits for ever. It never panics.
  pub invoked :
      (s : AService) (ctx : Context) (input : Value) (w : Running)
      → ReachBy g P start w
      → Matches s w
      → Leads ctx input w (invoke os select s ctx input w)
  unfolding invoke Service.start
  invoked s ctx input w r matches =
      subst (λ b. Leads ctx input w (after_start os select ctx input (Service.start_with os b s w)))
        (sym matches.0) (invoked_as w.alive s ctx input w r matches refl)
