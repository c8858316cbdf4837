-- ===== src/Fns/Cli/Running/Simulation.antt =====
-- What it means that a service, as the code has it, follows the steps of its processes.
use fnrun.Prelude.{
  ℕ, suc, ◌≡◌, refl, ◌∙◌, ◌⊎◌, Bool, true, false, String, Option, none, some, List, [], ◌∷◌, ◌++◌,
}
use fnrun.Value.{Value, str}
use fnrun.Exec.{Error, wrap, Context, Result, ok, err, panic, hang, Reply, returns, panics, hangs}
use fnrun.Fns.Cli.Os.{Process}
use fnrun.Fns.Cli.Service.{Service, Selected, response, done, failed}
use fnrun.Fns.Cli.Running.{
  Running, start, Step, find_dead, find_alive, give_up, launch, misprint, print, answer, scan, exit,
  exit_failing, report, respond, cancel, fail, ReachBy, still, more,
}

-- The steps of the processes and of the goroutines.
abbrev pub IsBackground : {g : String → String} (t u : Running) → Step g t u → Type 0
IsBackground t u (find_dead e) = ⊥
IsBackground t u (find_alive e) = ⊥
IsBackground t u (give_up n e) = ⊥
IsBackground t u (launch n e) = ⊥
IsBackground t u (misprint n e) = ⊥
IsBackground t u (print p n input e e') = ⊥
IsBackground t u (respond p input x rest before after e e') = ⊥
IsBackground t u (cancel p input before after e e') = ⊥
IsBackground t u (fail p input rest before after e e') = ⊥
IsBackground t u step = Unit

-- Whether a call of the operating system fails, in a state, and its error.
pub record Faults : Type 0 where
  pub stdin_pipe : Running → Option Error
  pub stdout_pipe : Running → Option Error
  pub stderr_pipe : Running → Option Error
  pub start : Running → Option Error
  pub print : Running → Option Error
  pub kill : Running → Option Error
  pub is_process_done : Error → Bool

abbrev pub or_fault : {A : Type 0} → Option Error → A × Running → Running → Result A × Running
or_fault none (a, w') w = (ok a, w')
or_fault (some e) given w = (err e, w)

-- The operating system of the steps: a process is its number. A process that is killed ends by a step
-- of its own.
abbrev pub numbered :
    Faults
    → (Value → String)
    → (Error → String)
    → (Context → Error)
    → Process (Unit {0}) ℕ ℕ Running
numbered faults print_value message_of ctx_err = record {
  parse_cmd = λ s w. (ok tt, w);
  environ = [];
  with_env = λ cmd env. cmd;
  clone_cmd = λ cmd w. (ok tt, w);
  stdin_pipe = λ cmd w. or_fault (faults.stdin_pipe w) (w.started, w) w;
  stdout_pipe = λ cmd w. or_fault (faults.stdout_pipe w) (tt, w) w;
  stderr_pipe = λ cmd w. or_fault (faults.stderr_pipe w) (tt, w) w;
  start = λ cmd w.
      or_fault (faults.start w)
        (
          w.started,
          record w {
            alive = true;
            current = some w.started;
            started = suc w.started;
            live = w.started ∷ w.live;
          },
        )
        w;
  print_line = λ p input w.
      or_fault (faults.print w)
        (
          tt,
          record w {
            stdin = w.stdin ++ (p, print_value input) ∷ [];
            waiting = print_value input ∷ w.waiting;
          },
        )
        w;
  kill = λ p w. or_fault (faults.kill w) (tt, w) w;
  is_process_done = faults.is_process_done;
  ctx_err = λ ctx w. ctx_err ctx;
  message_of = message_of;
}

abbrev pub AService : Type 0
AService = Service (Unit {0}) ℕ ℕ

-- The fields of the service are those of the state, and no invocation waits.
abbrev pub Matches : AService → Running → Type 0
Matches s w =
    (s.alive ≡ w.alive)
    × (s.process ≡ w.current)
    × (s.stdin ≡ w.current)
    × (w.waiting ≡ [])
    × (w.alive ≡ true → (p : ℕ) × (w.current ≡ some p))

module _ (g : String → String) (P : (t u : Running) → Step g t u → Type 0) where
  -- An execution in the background, by steps that are allowed.
  abbrev pub Idle : Running → Running → Type 0
  Idle = ReachBy g (λ t u step. IsBackground t u step × P t u step)

  pub ReachBy-Idle : {s t u : Running} → ReachBy g P s t → Idle t u → ReachBy g P s u
  ReachBy-Idle r still = r
  ReachBy-Idle r (more i step (background, allowed)) = more (ReachBy-Idle r i) step allowed

  -- What the background leaves alone.
  abbrev pub IsUntouched : Running → Running → Type 0
  IsUntouched t u =
      (u.waiting ≡ t.waiting)
      × (u.current ≡ t.current)
      × (u.answers ≡ t.answers)
      × (u.failures ≡ t.failures)
      × (u.cancelled ≡ t.cancelled)

  IsUntouched-step : {t u : Running} (step : Step g t u) → IsBackground t u step → IsUntouched t u
  IsUntouched-step (find_dead e) b = absurd b
  IsUntouched-step (find_alive e) b = absurd b
  IsUntouched-step (give_up n e) b = absurd b
  IsUntouched-step (launch n e) b = absurd b
  IsUntouched-step (misprint n e) b = absurd b
  IsUntouched-step (print p n input e e') b = absurd b
  IsUntouched-step (respond p input x rest before after e e') b = absurd b
  IsUntouched-step (cancel p input before after e e') b = absurd b
  IsUntouched-step (fail p input rest before after e e') b = absurd b
  IsUntouched-step (answer p x before after older younger e e' first) b =
      (refl, refl, refl, refl, refl)
  IsUntouched-step (scan p x before after e first room) b = (refl, refl, refl, refl, refl)
  IsUntouched-step (exit p older younger e) b = (refl, refl, refl, refl, refl)
  IsUntouched-step (exit_failing p older younger e) b = (refl, refl, refl, refl, refl)
  IsUntouched-step (report p before after e room) b = (refl, refl, refl, refl, refl)

  pub Idle-IsUntouched : {t u : Running} → Idle t u → IsUntouched t u
  Idle-IsUntouched still = (refl, refl, refl, refl, refl)
  Idle-IsUntouched (more i step (background, allowed)) =
      let (a, b, c, d, e) = Idle-IsUntouched i in
      let (a', b', c', d', e') = IsUntouched-step step background in
      (a' ∙ a, b' ∙ b, c' ∙ c, d' ∙ d, e' ∙ e)

  -- The steps by which an invocation starts, while no other one is in its select, are allowed.
  pub record Begins : Type 0 where
    pub finds_dead : (t : Running) (e : t.alive ≡ false) → P t _ (find_dead e)
    pub finds_alive : (t : Running) (e : t.alive ≡ true) → P t _ (find_alive e)
    pub launches : (t : Running) (n : ℕ) (e : t.entering ≡ suc n) → P t _ (launch n e)
    pub misprints : (t : Running) (n : ℕ) (e : t.printing ≡ suc n) → P t _ (misprint n e)
    pub prints :
        (t : Running) (p n : ℕ) (input : String) (e : t.printing ≡ suc n) (e' : t.current ≡ some p)
        → t.waiting ≡ []
        → P t _ (print p n input e e')

  -- The select of an invocation goes on from `u` to `u'` by an execution in the background and, unless it
  -- waits for ever, one of its cases.
  abbrev pub Waits : (ℕ → Error) → Running → Result (Selected × Bool) → Running → Type 0
  Waits error_of u (ok (response x, still_alive)) u' =
      (t : Running) × (p : ℕ) × (input : String) × (rest : List (ℕ × String)) × (before : List
        String)
      × (after : List String) × Idle u t
      × (e : t.waiting ≡ before ++ input ∷ after) × (e' : t.outputs ≡ (p, x) ∷ rest) × P t _
          (respond p input x rest before after e e')
      × (still_alive ≡ t.alive)
      × (u' ≡ record t {
        outputs = rest;
        waiting = before ++ after;
        answers = (input, x) ∷ t.answers;
      })
  Waits error_of u (ok (done, still_alive)) u' =
      (t : Running) × (p : ℕ) × (input : String) × (before : List String) × (after : List String)
      × Idle u t
      × (e : t.waiting ≡ before ++ input ∷ after) × (e' : t.current ≡ some p) × P t _
          (cancel p input before after e e')
      × (u' ≡ record t {
        alive = false;
        waiting = before ++ after;
        cancelled = (input, p) ∷ t.cancelled;
      })
  Waits error_of u (ok (failed x, still_alive)) u' =
      (t : Running) × (p : ℕ) × (input : String) × (rest : List ℕ) × (before : List String)
      × (after : List String) × Idle u t
      × (e : t.waiting ≡ before ++ input ∷ after) × (e' : t.errors ≡ p ∷ rest) × P t _
          (fail p input rest before after e e')
      × (x ≡ error_of p)
      × (u' ≡ record t {
        alive = false;
        errors = rest;
        waiting = before ++ after;
        failures = (input, p) ∷ t.failures;
      })
  Waits error_of u (err x) u' = ⊥
  Waits error_of u panic u' = ⊥
  Waits error_of u hang u' = Idle u u'

  module _ (faults : Faults) (print_value : Value → String) (message_of : Error → String)
      (ctx_err : Context → Error) (error_of : ℕ → Error) where
    -- A call of the operating system before the select has failed.
    abbrev pub IsRefusal : Error → Type 0
    IsRefusal e =
        (u : Running) × ((faults.stdin_pipe u ≡ some e)
          ⊎ ((faults.stdout_pipe u ≡ some e)
              ⊎ ((faults.stderr_pipe u ≡ some e)
                  ⊎ ((faults.start u ≡ some e) ⊎ (faults.print u ≡ some e)))))

    -- The process cannot be killed.
    abbrev pub IsUnkilled : Error → Type 0
    IsUnkilled e = (u : Running) × (faults.kill u ≡ some e)

    -- The error of an invocation for `input`, by what has become of the invocation.
    abbrev pub IsErrorOf : Context → Value → Running → Running → Error → Type 0
    IsErrorOf ctx input w w' e =
        (IsRefusal e × (w'.failures ≡ w.failures) × (w'.cancelled ≡ w.cancelled))
        ⊎ (((p : ℕ) × ((e ≡ ctx_err ctx) ⊎ IsUnkilled e)
              × (w'.failures ≡ w.failures)
              × (w'.cancelled ≡ (print_value input, p) ∷ w.cancelled))
            ⊎ ((p : ℕ) × ((e ≡ error_of p)
                  ⊎ ((ke : Error) × IsUnkilled ke × (e ≡ wrap (error_of p) (message_of ke))))
                × (w'.failures ≡ (print_value input, p) ∷ w.failures)
                × (w'.cancelled ≡ w.cancelled)))

    -- What an invocation for `input` that starts in the state `w` leads to, by its reply.
    abbrev pub Outcome : Context → Value → Running → Reply × AService × Running → Type 0
    Outcome ctx input w (returns v none, s', w') =
        ReachBy g P start w'
        × Matches s' w'
        × ((x : String) × (v ≡ str x)
            × (w'.answers ≡ (print_value input, x) ∷ w.answers)
            × (w'.failures ≡ w.failures)
            × (w'.cancelled ≡ w.cancelled))
    Outcome ctx input w (returns v (some e), s', w') =
        ReachBy g P start w' × Matches s' w' × (w'.answers ≡ w.answers) × IsErrorOf ctx input w w' e
    Outcome ctx input w (panics, s', w') = ⊥
    Outcome ctx input w (hangs, s', w') = ReachBy g P start w'
