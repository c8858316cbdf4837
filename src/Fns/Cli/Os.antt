-- ===== src/Fns/Cli/Os.antt =====
-- os/exec and executil, as run/fn/cli uses them.
use fnrun.Prelude.{String, Bool, List, Option, none, some, ◌++◌}
use fnrun.Value.{Value}
use fnrun.Exec.{Error, Context, ok, err, hang, Exec, pure, crash, ◌>>=◌}

-- `Cmd` is a command before it is started, `Run` an os.Process, and `Stdin` the pipe to its input.
pub record Process (Cmd Run Stdin W : Type 0) : Type 0 where
  -- executil.ParseCmd, os.Environ, an assignment of cmd.Env, executil.CloneCmd
  pub parse_cmd : String → Exec W Cmd
  pub environ : List String
  pub with_env : Cmd → List String → Cmd
  -- a new command, known by its identity: the pipes and the process become part of it
  pub clone_cmd : Cmd → Exec W Cmd
  pub stdin_pipe : Cmd → Exec W Stdin
  pub stdout_pipe : Cmd → Exec W (Unit {0})
  pub stderr_pipe : Cmd → Exec W (Unit {0})
  pub start : Cmd → Exec W Run
  -- fmt.Fprintln of a value to the pipe
  pub print_line : Stdin → Value → Exec W (Unit {0})
  -- os.Process.Kill, and the test for os.ErrProcessDone
  pub kill : Run → Exec W (Unit {0})
  pub is_process_done : Error → Bool
  pub ctx_err : Context → W → Error
  pub message_of : Error → String

-- What a scanner reads of a stream: its lines, and then the end or an error, or nothing for ever.
pub data Scanned : Type 0 where
  line : String → Scanned → Scanned
  ends : Option Error → Scanned
  silent : Scanned

-- scanAndLogMessages, with log.Println and the deferred Close
unfoldable pub scan_and_log_messages :
    {W : Type 0} → (String → W → W) → (W → W) → Scanned → Exec W (Unit {0})
scan_and_log_messages log close (line message rest) w =
    scan_and_log_messages log close rest (log message w)
scan_and_log_messages log close (ends none) w = (ok tt, close w)
scan_and_log_messages log close (ends (some e)) w = (err e, close w)
scan_and_log_messages log close silent w = (hang, w)

module _ {Cmd Run Stdin W : Type 0} (os : Process Cmd Run Stdin W) where
  -- createBaseCmd
  unfoldable pub create_base_cmd : String → List String → Exec W Cmd
  create_base_cmd command_str env = do
    cmd ← os.parse_cmd command_str
    pure (os.with_env cmd (os.environ ++ env))

  -- `cmd.Process.Kill()`, which dereferences a nil pointer where the command has not been started
  abbrev pub kill_process : Option Run → Exec W (Unit {0})
  kill_process none = crash
  kill_process (some run) = os.kill run
