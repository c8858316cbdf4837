-- ===== src/Fns/Cli/Running/Living.antt =====
-- A service through any number of invocations, and whatever its processes do in between.
use fnrun.Prelude.{
  no_middle, [], ◌≡◌, ◌≢◌, refl, ap, subst, ◌∙◌, String, ℕ, none, some, All, List, ◌∷◌, inl, inr,
}
use fnrun.Value.{Value, str}
use fnrun.Exec.{Error, Context, Reply, returns, panics, hangs}
use fnrun.Fns.Cli.Service.{Select, invoke, exited}
use fnrun.Fns.Cli.Configuring.{unstarted}
use fnrun.Fns.Cli.Running.{
  Running, start, Step, find_dead, find_alive, give_up, launch, misprint, print, answer, scan, exit,
  exit_failing, report, respond, cancel, fail, ReachBy, still, more,
}
use fnrun.Fns.Cli.Running.Answers.{IsCalm, calm_answers}
use fnrun.Fns.Cli.Running.Simulation.{
  IsBackground, Faults, numbered, IsRefusal, Waits, Begins, AService, Matches, Outcome,
}
use fnrun.Fns.Cli.Running.Refining.{invoked}

-- What a step in the background does to the service: the goroutine of start notes the end of a process.
abbrev pub after_step : {g : String → String} {t u : Running} → Step g t u → AService → AService
after_step (exit p older younger e) s = exited s
after_step (exit_failing p older younger e) s = exited s
after_step step s = s

module _ (g : String → String) (P : (t u : Running) → Step g t u → Type 0) (faults : Faults)
    (print_value : Value → String) (message_of : Error → String) (ctx_err : Context → Error)
    (select : Select Running) where
  -- The services, and the states of their processes, that there are after some invocations and steps in
  -- the background.
  pub data Lives : AService → Running → Type 0 where
    fresh : (base : Unit {0}) → Lives (unstarted base) start
    idle :
        {s : AService} {t u : Running}
        → Lives s t
        → (step : Step g t u) → IsBackground t u step
        → P t u step
        → Lives (after_step step s) u
    again :
        {s s' : AService} {w w' : Running} {r : Reply}
        → Lives s w
        → (ctx : Context) (input : Value)
        → invoke (numbered faults print_value message_of ctx_err) select s ctx input w ≡ (r, s', w')
        → r ≢ hangs
        → Lives s' w'

-- A step in the background keeps the service in agreement with the state.
after_step-Matches :
    {g : String → String} {s : AService} {t u : Running} (step : Step g t u)
    → IsBackground t u step
    → Matches s t
    → Matches (after_step step s) u
unfolding after_step exited
after_step-Matches (find_dead e) b m = absurd b
after_step-Matches (find_alive e) b m = absurd b
after_step-Matches (give_up n e) b m = absurd b
after_step-Matches (launch n e) b m = absurd b
after_step-Matches (misprint n e) b m = absurd b
after_step-Matches (print p n input e e') b m = absurd b
after_step-Matches (respond p input x rest before after e e') b m = absurd b
after_step-Matches (cancel p input before after e e') b m = absurd b
after_step-Matches (fail p input rest before after e e') b m = absurd b
after_step-Matches (exit p older younger e) b (_, process, stdin, waiting, wired) =
    (refl, process, stdin, waiting, λ h. cc)
after_step-Matches (exit_failing p older younger e) b (_, process, stdin, waiting, wired) =
    (refl, process, stdin, waiting, λ h. cc)
after_step-Matches (answer p x before after older younger e e' first) b m = m
after_step-Matches (scan p x before after e first room) b m = m
after_step-Matches (report p before after e room) b m = m

module _ (g : String → String) (P : (t u : Running) → Step g t u → Type 0) (faults : Faults)
    (print_value : Value → String) (message_of : Error → String) (ctx_err : Context → Error)
    (error_of : ℕ → Error) where
  Outcome-Matches :
      (ctx : Context) (input : Value) (w : Running) (r : Reply) (s' : AService) (w' : Running)
      → r ≢ hangs
      → Outcome g P faults print_value message_of ctx_err error_of ctx input w (r, s', w')
      → ReachBy g P start w' × Matches s' w'
  Outcome-Matches ctx input w (returns v none) s' w' h o = (o.0, o.1)
  Outcome-Matches ctx input w (returns v (some e)) s' w' h o = (o.0, o.1)
  Outcome-Matches ctx input w panics s' w' h o = absurd o
  Outcome-Matches ctx input w hangs s' w' h o = absurd (h refl)

module _ (g : String → String) (P : (t u : Running) → Step g t u → Type 0) (faults : Faults)
    (print_value : Value → String) (message_of : Error → String) (ctx_err : Context → Error)
    (error_of : ℕ → Error) (select : Select Running)
    (selects : (ctx : Context) (u : Running)
      → Waits g P error_of u (select ctx u).0 (select ctx u).1)
    (begins : Begins g P) where
  Lives-Matches :
      {s : AService} {w : Running}
      → Lives g P faults print_value message_of ctx_err select s w
      → ReachBy g P start w × Matches s w
  Lives-Matches (fresh base) = (still, (refl, refl, refl, refl, λ h. cc))
  Lives-Matches (idle lives step background allowed) =
      let (r, m) = Lives-Matches lives in
      (more r step allowed, after_step-Matches step background m)
  Lives-Matches (again {s} {s'} {w} {w'} {r} lives ctx input e returned) =
      let (reached, m) = Lives-Matches lives in
      Outcome-Matches g P faults print_value message_of ctx_err error_of ctx input w r s' w'
        returned
        (subst (Outcome g P faults print_value message_of ctx_err error_of ctx input w) e (
          invoked g P faults print_value message_of ctx_err error_of select selects begins s ctx
            input w reached m))

  -- The operating system may refuse a pipe, a start, a print or a kill in any state. Suppose that
  -- an input is printed as one line, that invocations do not overlap, and that the wait of a select is an execution of steps in the background that ends by one
  -- of its cases. Whatever a new service has been through, by invocations that have returned and by its
  -- processes, the next invocation is an execution of the steps; unless it waits for ever, its end agrees with the
  -- service's fields. It never panics. With a line, the state has the input and this line as its newest
  -- answer; an error is that of the call that was refused before the select, or the context's, or that of a
  -- process, where the state has the newest cancellation or failure, or tells that the kill was refused.
  pub invoke-Outcome :
      {s : AService} {w : Running} (ctx : Context) (input : Value)
      → Lives g P faults print_value message_of ctx_err select s w
      → Outcome g P faults print_value message_of ctx_err error_of ctx input w
          (invoke (numbered faults print_value message_of ctx_err) select s ctx input w)
  invoke-Outcome {s} {w} ctx input lives =
      let (reached, m) = Lives-Matches lives in
      invoked g P faults print_value message_of ctx_err error_of select selects begins s ctx input w
        reached m

-- The process' answer to the input, if there is an answer, and no error but one that is allowed.
abbrev pub IsOwn : (Error → Type 0) → (String → String) → String → Reply → Type 0
IsOwn Allowed g line (returns v none) = v ≡ str (g line)
IsOwn Allowed g line (returns v (some e)) = Allowed e
IsOwn Allowed g line panics = ⊥
IsOwn Allowed g line hangs = Unit

module _ (g : String → String) (faults : Faults) (print_value : Value → String)
    (message_of : Error → String) (ctx_err : Context → Error) (error_of : ℕ → Error)
    (select : Select Running)
    (selects : (ctx : Context) (u : Running)
      → Waits g IsCalm error_of u (select ctx u).0 (select ctx u).1) where
  begins : Begins g IsCalm
  begins = record {
    finds_dead = λ t e. tt;
    finds_alive = λ t e. tt;
    launches = λ t n e. tt;
    misprints = λ t n e. tt;
    prints = λ t p n input e e' idle. idle;
  }

  abbrev pub IsRefused : Error → Type 0
  IsRefused = IsRefusal g IsCalm faults print_value message_of ctx_err error_of

  newest :
      (x : String) (line : String) (before answers : List (String × String))
      → answers ≡ (line, x) ∷ before
      → All (λ (answer : String × String). answer.1 ≡ g answer.0) answers
      → x ≡ g line
  newest x line before answers e all =
      (subst (All (λ (answer : String × String). answer.1 ≡ g answer.0)) e all).0

  Outcome-IsOwn :
      (ctx : Context) (input : Value) (w : Running) (r : Reply) (s' : AService) (w' : Running)
      → Outcome g IsCalm faults print_value message_of ctx_err error_of ctx input w (r, s', w')
      → IsOwn IsRefused g (print_value input) r
  Outcome-IsOwn ctx input w (returns v none) s' w'
        (reached, m, (x, e, answers, failures, cancels)) =
      e
      ∙ ap str
          (newest x (print_value input) w.answers w'.answers answers (calm_answers g reached).0)
  Outcome-IsOwn ctx input w (returns v (some e)) s' w' (reached, m, answers, inl (refused, _, _)) =
      refused
  Outcome-IsOwn ctx input w (returns v (some e)) s' w'
        (reached, m, answers, inr (inl (p, why, failures, cancels))) =
      let (all, none_failed, none_cancelled) = calm_answers g reached in
      no_middle (print_value input, p) [] w.cancelled w'.cancelled cancels none_cancelled
  Outcome-IsOwn ctx input w (returns v (some e)) s' w'
        (reached, m, answers, inr (inr (p, why, failures, cancels))) =
      let (all, none_failed, none_cancelled) = calm_answers g reached in
      no_middle (print_value input, p) [] w.failures w'.failures failures none_failed
  Outcome-IsOwn ctx input w panics s' w' o = absurd o
  Outcome-IsOwn ctx input w hangs s' w' o = tt

  -- Let the processes answer each line `x` by `g x`, and suppose that invocations do not overlap, no
  -- process ends and no context is done. Whatever a new service has been through, an invocation of
  -- it that returns gives the process' answer to its own input, printed as a line, or the error of a
  -- pipe, a start or a print that the operating system has refused.
  pub invoke-IsOwn :
      {s : AService} {w : Running} (ctx : Context) (input : Value)
      → Lives g IsCalm faults print_value message_of ctx_err select s w
      → IsOwn IsRefused g
          (print_value input)
          (invoke (numbered faults print_value message_of ctx_err) select s ctx input w).0
  invoke-IsOwn {s} {w} ctx input lives =
      let (r, s', w') =
        invoke (numbered faults print_value message_of ctx_err) select s ctx input w in
      Outcome-IsOwn ctx input w r s' w' (
        invoke-Outcome g IsCalm faults print_value message_of ctx_err error_of select selects begins
          ctx input lives)
