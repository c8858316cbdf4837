-- ===== src/Tests/Living.antt =====
-- A service whose processes answer each line by itself, and a select that waits for such an answer.
use fnrun.Prelude.{ℕ, zero, ◌≡◌, refl, Bool, true, false, String, Option, none, some, List, [], ◌∷◌}
use fnrun.Value.{Value, null, str}
use fnrun.Exec.{Error, text, Context, Result, ok, hang, returns}
use fnrun.Fns.Cli.Service
use fnrun.Fns.Cli.Service.{Selected, response, Select, invoke}
use fnrun.Fns.Cli.Running.{Running, start, answer, scan, still, more}
use fnrun.Fns.Cli.Running.Answers.{IsCalm}
use fnrun.Fns.Cli.Running.Simulation.{AService, Begins, Faults, Waits, Outcome, numbered}
use fnrun.Fns.Cli.Running.Living.{
  Lives, fresh, again, IsOwn, IsRefused, invoke-Outcome, invoke-IsOwn,
}
use fnrun.Tests.World.{background}

abbrev same : String → String
same x = x

abbrev print_value : Value → String
print_value (str s) = s
print_value v = ""

-- Printing fails on a service that has answered two inputs.
abbrev fault : Faults
fault = record {
  stdin_pipe = λ w. none;
  stdout_pipe = λ w. none;
  stderr_pipe = λ w. none;
  start = λ w. none;
  print = λ w. elim w.answers [
    | [] ↦ none
    | _ ∷ older ↦ elim older [ [] ↦ none | _ ∷ _ ↦ some (text "broken pipe") ]
  ];
  kill = λ w. none;
  is_process_done = λ e. false;
}

abbrev message_of : Error → String
message_of e = "message"

abbrev ctx_err : Context → Error
ctx_err ctx = text "context canceled"

abbrev error_of : ℕ → Error
error_of p = text "exit status 1"

abbrev Lines : Type 0
Lines = List (ℕ × String)

module _ (alive : Bool) (current : Option ℕ) (started : ℕ) (errors failed : List ℕ)
    (answers : List (String × String)) (failures cancelled : List (String × ℕ))
    (entering printing : ℕ) where
  abbrev state : List ℕ → Lines → Lines → Lines → List String → List (String × String) → Running
  state live stdin stdout outputs waiting answered = record {
    alive = alive;
    current = current;
    started = started;
    live = live;
    stdin = stdin;
    stdout = stdout;
    outputs = outputs;
    errors = errors;
    failed = failed;
    waiting = waiting;
    answers = answered;
    failures = failures;
    cancelled = cancelled;
    entering = entering;
    printing = printing;
  }

  -- The first process answers the line that is left for it, and its answer is received; or nothing happens.
  abbrev selected :
      List ℕ → Lines → Lines → Lines → List String → Result (Selected × Bool) × Running
  selected (zero ∷ live) ((zero, x) ∷ stdin) [] [] (input ∷ []) =
      (ok (response x, alive), state (zero ∷ live) stdin [] [] [] ((input, x) ∷ answers))
  selected live stdin stdout outputs waiting =
      (hang, state live stdin stdout outputs waiting answers)

  selected-Waits :
      (live : List ℕ) (stdin stdout outputs : Lines) (waiting : List String)
      → Waits same IsCalm error_of
          (state live stdin stdout outputs waiting answers)
          (selected live stdin stdout outputs waiting).0
          (selected live stdin stdout outputs waiting).1
  selected-Waits (zero ∷ live) ((zero, x) ∷ stdin) [] [] (input ∷ []) = (
    state (zero ∷ live) stdin [] ((zero, x) ∷ []) (input ∷ []) answers,
    zero,
    input,
    [],
    [],
    [],
    more (more still (answer zero x [] stdin [] live refl refl tt) (tt, tt))
        (scan zero x [] [] refl tt refl) (tt, tt),
    refl,
    refl,
    tt,
    refl,
    refl,
  )
  selected-Waits _ _ _ _ _ = still

abbrev select : Select Running
select ctx u =
    selected u.alive u.current u.started u.errors u.failed u.answers u.failures u.cancelled
      u.entering u.printing u.live u.stdin u.stdout u.outputs u.waiting

selects :
    (ctx : Context) (u : Running) → Waits same IsCalm error_of u (select ctx u).0 (select ctx u).1
selects ctx u =
    selected-Waits u.alive u.current u.started u.errors u.failed u.answers u.failures u.cancelled
      u.entering u.printing u.live u.stdin u.stdout u.outputs u.waiting

-- The service after it has answered "a".
abbrev warm : AService
warm = record { alive = true; base_cmd = tt; process = some 0; stdin = some 0 }

abbrev answered : Running
answered = record start {
  alive = true;
  current = some 0;
  started = 1;
  live = 0 ∷ [];
  answers = ("a", "a") ∷ [];
}

warm-Lives : Lives same IsCalm fault print_value message_of ctx_err select warm answered
unfolding invoke Service.start
warm-Lives = again (fresh tt) background (str "a") refl (λ h. cc)

warm_run :
    invoke (numbered fault print_value message_of ctx_err) select warm background (str "b") answered
    ≡ (returns (str "b") none, warm, record answered { answers = ("b", "b") ∷ ("a", "a") ∷ [] })
unfolding invoke Service.start Service.conclude
warm_run = refl

begins : Begins same IsCalm
begins = record {
  finds_dead = λ t e. tt;
  finds_alive = λ t e. tt;
  launches = λ t n e. tt;
  misprints = λ t n e. tt;
  prints = λ t p n input e e' idle. idle;
}

refused_run :
    (invoke
      (numbered fault print_value message_of ctx_err)
      select
      warm
      background
      (str "c")
      (record answered { answers = ("b", "b") ∷ ("a", "a") ∷ [] })).0
    ≡ returns null (some (text "broken pipe"))
unfolding invoke Service.start Service.print
refused_run = refl

invoke-Outcome_example :
    Outcome same IsCalm fault print_value message_of ctx_err error_of background
      (str "b")
      answered
      (invoke
        (numbered fault print_value message_of ctx_err)
        select
        warm
        background
        (str "b")
        answered)
invoke-Outcome_example =
    invoke-Outcome same IsCalm fault print_value message_of ctx_err error_of select selects begins
      background (str "b") warm-Lives

invoke-IsOwn_example :
    IsOwn
      (IsRefused same fault print_value message_of ctx_err error_of select selects)
      same
      "b"
      (invoke
        (numbered fault print_value message_of ctx_err)
        select
        warm
        background
        (str "b")
        answered).0
invoke-IsOwn_example =
    invoke-IsOwn same fault print_value message_of ctx_err error_of select selects background
      (str "b") warm-Lives
