-- ===== src/Fns/Cli/Service.antt =====
-- run/fn/cli/service.go: a long-running process that answers line by line.
pub mod Wiring
use fnrun.Prelude.{String, Bool, true, false, Option, none, some, not, ◌&&◌, if◌then◌else◌}
use fnrun.Value.{Value, null, str}
use fnrun.Exec.{
  Error, wrap, Context, Result, ok, err, panic, hang, Reply, returns, panics, hangs, Exec, crash,
  Method, then_method, then_assign, pure, ◌>>=◌,
}
use fnrun.Fns.Cli.Os.{Process, kill_process}

-- service. The process of `cmd` and the pipe are nil until the first start; the channels and
-- the goroutines that send on them belong to the world.
pub record Service (Cmd Run Stdin : Type 0) : Type 0 where
  pub alive : Bool
  pub base_cmd : Cmd
  pub process : Option Run
  pub stdin : Option Stdin

-- What the goroutine of start does once cmd.Wait has returned.
unfoldable pub exited : {Cmd Run Stdin : Type 0} → Service Cmd Run Stdin → Service Cmd Run Stdin
exited s = record s { alive = false }

-- The case that the select of Invoke takes: a line of outputChannel, the context, or an error of
-- errorChannel.
pub data Selected : Type 0 where
  response : String → Selected
  done : Selected
  failed : Error → Selected

-- The select: the case that is taken, and whether the process has not been seen to end; the wait may
-- be endless.
abbrev pub Select : Type 0 → Type 0
Select W = Context → Exec W (Selected × Bool)

-- newService
unfoldable pub new_service :
    {Cmd Run Stdin W : Type 0} → Process Cmd Run Stdin W → Cmd → Exec W (Service Cmd Run Stdin)
new_service os base_cmd = do
  cmd ← os.clone_cmd base_cmd
  pure (record { alive = false; base_cmd = cmd; process = none; stdin = none })

module _ {Cmd Run Stdin W : Type 0} (os : Process Cmd Run Stdin W) where
  -- os.ErrProcessDone is no error.
  abbrev pub unless_done : Result (Unit {0}) × W → Result (Unit {0}) × W
  unless_done (err e, w) = (if os.is_process_done e then ok tt else err e, w)
  unless_done r = r

  -- kill
  unfoldable pub kill : Service Cmd Run Stdin → Method (Service Cmd Run Stdin) W
  kill s w =
      let (r, w') = unless_done (kill_process os s.process w) in (r, record s { alive = false }, w')

  -- getAlive
  abbrev pub get_alive : Service Cmd Run Stdin → Bool
  get_alive s = s.alive

  -- The pipes, and the start, of a clone of the base command.
  unfoldable pub launch : Cmd → Exec W (Run × Stdin)
  launch base_cmd = do
    cmd ← os.clone_cmd base_cmd
    stdin ← os.stdin_pipe cmd
    _ ← os.stdout_pipe cmd
    _ ← os.stderr_pipe cmd
    run ← os.start cmd
    pure (run, stdin)

  -- start, by whether the process is alive.
  unfoldable pub start_with : Bool → Service Cmd Run Stdin → Method (Service Cmd Run Stdin) W
  unfolding launch
  start_with true s w = (ok tt, s, w)
  start_with false s w =
      then_assign (launch s.base_cmd)
        (λ (run, stdin). record s { process = some run; stdin = some stdin; alive = true }) s w

  unfoldable pub start : Service Cmd Run Stdin → Method (Service Cmd Run Stdin) W
  unfolding start_with
  start s w = start_with (get_alive s) s w

  -- fmt.Fprintln; a nil pipe is dereferenced
  unfoldable pub print : Option Stdin → Value → Exec W (Unit {0})
  print none input = crash
  print (some stdin) input = os.print_line stdin input

  -- The reply for the error of kill, if there is one, and else the given one.
  abbrev pub after_kill :
      (Error → Error)
      → (W → Error)
      → Result (Unit {0}) × Service Cmd Run Stdin × W
      → Reply × Service Cmd Run Stdin × W
  after_kill of_kill otherwise (ok _, s, w) = (returns null (some (otherwise w)), s, w)
  after_kill of_kill otherwise (err e, s, w) = (returns null (some (of_kill e)), s, w)
  after_kill of_kill otherwise (panic, s, w) = (panics, s, w)
  after_kill of_kill otherwise (hang, s, w) = (hangs, s, w)

  -- The cases of the select. Meanwhile the goroutine of start may have seen the process end.
  unfoldable pub conclude :
      Context
      → Service Cmd Run Stdin
      → Result (Selected × Bool) × W
      → Reply × Service Cmd Run Stdin × W
  unfolding kill
  conclude ctx s (ok (response line, still_alive), w) =
      (returns (str line) none, record s { alive = s.alive && still_alive }, w)
  conclude ctx s (ok (done, still_alive), w) = after_kill (λ e. e) (os.ctx_err ctx) (kill s w)
  conclude ctx s (ok (failed e, still_alive), w) =
      after_kill (λ ke. wrap e (os.message_of ke)) (λ u. e) (kill s w)
  conclude ctx s (err e, w) = (returns null (some e), s, w)
  conclude ctx s (panic, w) = (panics, s, w)
  conclude ctx s (hang, w) = (hangs, s, w)

  abbrev pub after_print :
      Select W
      → Context
      → Service Cmd Run Stdin
      → Result (Unit {0}) × W
      → Reply × Service Cmd Run Stdin × W
  after_print select ctx s (ok _, w) = conclude ctx s (select ctx w)
  after_print select ctx s (err e, w) = (returns null (some e), s, w)
  after_print select ctx s (panic, w) = (panics, s, w)
  after_print select ctx s (hang, w) = (hangs, s, w)

  abbrev pub after_start :
      Select W
      → Context
      → Value
      → Result (Unit {0}) × Service Cmd Run Stdin × W
      → Reply × Service Cmd Run Stdin × W
  after_start select ctx input (ok _, s, w) = after_print select ctx s (print s.stdin input w)
  after_start select ctx input (err e, s, w) = (returns null (some e), s, w)
  after_start select ctx input (panic, s, w) = (panics, s, w)
  after_start select ctx input (hang, s, w) = (hangs, s, w)

  -- Invoke
  unfoldable pub invoke :
      Select W → Service Cmd Run Stdin → Context → Value → W → Reply × Service Cmd Run Stdin × W
  unfolding start print conclude
  invoke select s ctx input w = after_start select ctx input (start s w)
