-- ===== src/Tests/Cli.antt =====
-- Scripts and services over a small operating system, whose world counts the calls.
use fnrun.Prelude.{
  ◌++◌, ℕ, ◌+◌, ◌≡◌, refl, ◌≢◌, ◌↔◌, true, false, String, none, some, List, [], ◌∷◌, All, str_eq,
  if◌then◌else◌,
}
use fnrun.Value.{str, end}
use fnrun.Exec.{text, Result, ok, err, panic, returns, panics}
use fnrun.Tests.World.{background}
use fnrun.Fns.Cli
use fnrun.Fns.Cli.{CliConfig, CliFn}
use fnrun.Fns.Cli.Os.{Process, create_base_cmd}
use fnrun.Fns.Cli.Script
use fnrun.Fns.Cli.Script.{prepare, Prepares, invoke-result_iff}
use fnrun.Fns.Cli.Service
use fnrun.Fns.Cli.Service.{new_service}
use fnrun.Fns.Cli.Service.Wiring.{IsCalm, Event, invoked, ended, replies, replies-ne-panics}
use fnrun.Fns.Cli.Running.{
  Running, start, Step, find_dead, find_alive, launch, print, answer, scan, respond, ReachBy, still,
  more,
}
use fnrun.Fns.Cli.Running.Answers
use fnrun.Fns.Cli.Running.Answers.{calm_answers}
use fnrun.Fns.Cli.Running.Stale.{after_exit, abandoned_waits}
use fnrun.Fns.Cli.Configuring.{unstarted, Becomes, configure_cli_iff}

-- A process is the number that the world was at when it was started.
abbrev os : Process String ℕ ℕ ℕ
os = record {
  parse_cmd = λ s w. if str_eq s "" then (err (text "empty"), w) else (ok s, w);
  environ = "HOME=/" ∷ [];
  with_env = λ cmd env. cmd;
  clone_cmd = λ cmd w. (ok cmd, w + 1);
  stdin_pipe = λ cmd w. (ok w, w);
  stdout_pipe = λ cmd w. (ok tt, w);
  stderr_pipe = λ cmd w. (ok tt, w);
  start = λ cmd w. (ok w, w + 10);
  print_line = λ p v w. (ok tt, w + 100);
  kill = λ run w. (ok tt, w + 1000);
  is_process_done = λ e. false;
  ctx_err = λ ctx w. text "context deadline exceeded";
  message_of = λ e. "";
}

abbrev answered : Script.Outputs String ℕ ℕ
answered = record {
  output = λ cmd w. (ok "out", w + 5);
  process = λ cmd w. some w;
  interrupted = λ cmd ctx w. none;
}

invoke-result_iff_example :
    (Script.invoke os answered "cat" background (str "in") 0 ≡ (returns (str "out") none, 106)) ↔ (
      (cmd : String) × (u : ℕ) × (output : String) × Prepares os answered "cat" (str "in") 0 cmd u
      × (answered.interrupted cmd background u ≡ none)
      × (answered.output cmd u ≡ (ok output, 106))
      × (str "out" ≡ str output))
invoke-result_iff_example =
    invoke-result_iff os answered "cat" background (str "in") (str "out") 0 106

script_run :
    Script.invoke os answered "cat" background (str "in") 0 ≡ (returns (str "out") none, 106)
unfolding Script.invoke Script.conclude prepare Script.select Script.selected_of Script.sent
script_run = refl

-- cmd.Output fails, as the command is not found.
abbrev not_started : Script.Outputs String ℕ ℕ
not_started = record {
  output = λ cmd w. (err (text "not found"), w + 5);
  process = λ cmd w. none;
  interrupted = λ cmd ctx w. none;
}

unstarted_run : Script.invoke os not_started "cat" background (str "in") 0 ≡ (panics, 106)
unfolding Script.invoke Script.conclude prepare Script.select Script.selected_of Script.sent
unstarted_run = refl

-- A service whose process answers, and that is seen to end meanwhile.
abbrev once_alive : Service.Select ℕ
once_alive ctx w = (ok (Service.response "out", false), w + 5)

ok-ne-panic : {A : Type 0} (a : A) → ◌≢◌ {A = Result A} (ok a) panic
ok-ne-panic a h = cc

calm : IsCalm os once_alive
unfolding Service.launch
calm = record {
  launch_calm = λ c w. ok-ne-panic _;
  print_calm = λ p v w. ok-ne-panic tt;
  kill_calm = λ r w. ok-ne-panic tt;
  select_calm = λ ctx w. ok-ne-panic _;
}

abbrev three_events : List Event
three_events = invoked background (str "a") ∷ ended ∷ invoked background (str "b") ∷ []

replies-ne-panics_example :
    All (λ r. r ≢ panics) (replies os once_alive three_events (unstarted "cat") 0)
replies-ne-panics_example =
    replies-ne-panics os once_alive calm three_events (unstarted "cat") 0 (λ p. cc)

service_run :
    replies os once_alive three_events (unstarted "cat") 0
    ≡ returns (str "out") none ∷ returns (str "out") none ∷ []
unfolding replies Service.invoke Service.start Service.start_with Service.launch Service.print
    Service.conclude Service.exited
service_run = refl

-- Two invocations of one process, each answered.
two_answers : (t : Running) × ReachBy (λ x. x) Answers.IsCalm start t
two_answers = (
  _,
  more
      (more
        (more
          (more
            (more
              (more
                (more
                  (more
                    (more (more (more still (find_dead refl) tt) (launch 0 refl) tt)
                      (print 0 0 "a" refl refl) refl)
                    (answer 0 "a" [] [] [] [] refl refl tt) tt)
                  (scan 0 "a" [] [] refl tt refl) tt)
                (respond 0 "a" "a" [] [] [] refl refl) tt)
              (find_alive refl) tt)
            (print 0 0 "b" refl refl) refl)
          (answer 0 "b" [] [] [] [] refl refl tt) tt)
        (scan 0 "b" [] [] refl tt refl) tt)
      (respond 0 "b" "b" [] [] [] refl refl) tt,
)

calm_answers_example :
    All (λ (answer : String × String). answer.1 ≡ answer.0) two_answers.0.answers
    × (two_answers.0.failures ≡ [])
    × (two_answers.0.cancelled ≡ [])
calm_answers_example = calm_answers (λ x. x) two_answers.1

-- A process that has read its input, and will end with status 0, without an answer.
abbrev lone : Running
lone = record start {
  alive = true;
  started = 1;
  current = some 0;
  live = 0 ∷ [];
  waiting = "a" ∷ [];
}

abandoned_waits_example :
    Step (λ x. x) lone (after_exit lone)
    × (after_exit lone ≡ after_exit lone)
    × (lone.waiting ≡ "a" ∷ [])
abandoned_waits_example =
    abandoned_waits {g = λ x. x} 0 "a" {s = lone} {t = after_exit lone}
      (record {
        waits = refl;
        unentered = refl;
        printed = refl;
        alone = refl;
        unsent = refl;
        unheard = refl;
        unfailed = refl;
        errorless = refl;
      })
      still

abbrev cli_config : CliConfig
cli_config = record { command = "cat"; env = []; script = false }

abbrev cli_fn : CliFn String ℕ ℕ
cli_fn = record { f = Cli.service (unstarted "cat") }

configure_cli_iff_example :
    (Cli.configure_map os (λ fs. ok cli_config) end Cli.new 0 ≡ (ok tt, cli_fn, 1)) ↔ (
      (cfg : CliConfig) × (cmd : String) × (u : ℕ) × (◌≡◌ {A = Result CliConfig}
        (ok cli_config)
        (ok cfg))
      × (os.parse_cmd cfg.command 0 ≡ (ok cmd, u))
      × Becomes os cfg.script (os.with_env cmd (os.environ ++ cfg.env)) u cli_fn.f 1)
configure_cli_iff_example = configure_cli_iff os (λ fs. ok cli_config) end Cli.new cli_fn 0 1

cli_configured : Cli.configure_map os (λ fs. ok cli_config) end Cli.new 0 ≡ (ok tt, cli_fn, 1)
unfolding Cli.configure_map create_base_cmd Cli.new_inner new_service
cli_configured = refl
