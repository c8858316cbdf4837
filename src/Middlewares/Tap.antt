-- ===== src/Middlewares/Tap.antt =====
-- run/middleware/tap: what goes in and out is copied to an external program.
pub mod Transparent
pub mod Sharing
use fnrun.Prelude.{
  String, ◌≡◌, refl, ap, ◌∙◌, sym, Bool, true, false, Option, none, some, List, [], ◌∷◌, ◌++◌,
  append_assoc, append-nil, if◌then◌else◌, arith, not,
}
use fnrun.Value.{Value, null, Fields}
use fnrun.Exec.{
  Error, errorf, Context, Result, ok, err, panic, hang, Reply, returns, panics, hangs, Fn,
  Middleware, Method, then_assign, then_method, Exec, pure, ◌>>=◌,
}

-- What Invoke prints to the program: the input or an output, by Fprintln, and an error, by Fprintf.
pub data Message : Type 0 where
  line : Value → Message
  failure : Error → Message

-- tapMiddleware, over the command and the pipe of os/exec; `cmd` is written and never read
pub record Tap (Cmd Pipe : Type 0) : Type 0 where
  pub alive : Bool
  pub base_cmd : Option Cmd
  pub stdin : Option Pipe
  pub tap_input : Bool
  pub tap_output : Bool
  pub tap_error : Bool

-- The struct that ConfigureMap decodes into, with its default flags.
pub record TapConfig : Type 0 where
  pub command : String
  pub env : List String
  pub tap_input : Bool
  pub tap_output : Bool
  pub tap_error : Bool

abbrev pub default_config : TapConfig
default_config = record {
  command = "";
  env = [];
  tap_input = true;
  tap_output = true;
  tap_error = true;
}

abbrev pub unconfigured_cmd : Error
unconfigured_cmd = errorf "tap: unconfigured command" []

-- os/exec, os and executil: parsing a command, the environment, setting a command's environment,
-- starting a copy of a command with a pipe to its input, and writing to the pipe, whose errors are
-- ignored.
pub record Process (Cmd Pipe W : Type 0) : Type 0 where
  pub parse_cmd : String → Exec W Cmd
  pub environ : List String
  pub with_env : Cmd → List String → Cmd
  pub start : Cmd → Exec W Pipe
  pub write : Option Pipe → Message → W → W

module _ {Cmd Pipe W : Type 0} (os : Process Cmd Pipe W) where
  -- createBaseCmd
  unfoldable pub create_base_cmd : String → List String → Exec W Cmd
  create_base_cmd command_str env = do
    cmd ← os.parse_cmd command_str
    pure (os.with_env cmd (os.environ ++ env))

  -- ConfigureString
  unfoldable pub configure_string : String → Tap Cmd Pipe → Method (Tap Cmd Pipe) W
  unfolding create_base_cmd
  configure_string config m =
      then_assign (create_base_cmd config []) (λ cmd. record m { base_cmd = some cmd }) m

  -- ConfigureMap; the parameter is mapstructure.Decode from the defaults
  unfoldable pub configure_map :
      (Fields → TapConfig → Result TapConfig) → Fields → Tap Cmd Pipe → Method (Tap Cmd Pipe) W
  unfolding create_base_cmd
  configure_map decode fs m =
      then_method (λ w. (decode fs default_config, w))
        (λ cfg.
          then_assign (create_base_cmd cfg.command cfg.env)
            (λ cmd. record m {
              base_cmd = some cmd;
              tap_input = cfg.tap_input;
              tap_output = cfg.tap_output;
              tap_error = cfg.tap_error;
            })
            m)
        m

  -- getAlive
  abbrev pub get_alive : Tap Cmd Pipe → Bool
  get_alive m = m.alive

  -- start, for a middleware that has a command
  unfoldable pub start : Cmd → Tap Cmd Pipe → Method (Tap Cmd Pipe) W
  start cmd m =
      if get_alive m
      then (λ w. (ok tt, m, w))
      else then_assign (os.start cmd) (λ pipe. record m { stdin = some pipe; alive = true }) m

  -- What the goroutine of start does once the program has ended.
  unfoldable pub exited : Tap Cmd Pipe → Tap Cmd Pipe
  exited m = record m { alive = false }

  abbrev write_if : Bool → Option Pipe → Message → W → W
  write_if b stdin message w = if b then os.write stdin message w else w

  -- Invoke once the fn has returned.
  unfoldable pub tap_reply : Tap Cmd Pipe → Reply → W → W
  unfolding write_if
  tap_reply m (returns output none) w = write_if m.tap_output m.stdin (line output) w
  tap_reply m (returns output (some e)) w =
      write_if m.tap_error m.stdin (failure e) (write_if m.tap_output m.stdin (line output) w)
  tap_reply m panics w = w
  tap_reply m hangs w = w

  -- Invoke once the program runs.
  unfoldable pub tapped : Tap Cmd Pipe → Middleware W
  unfolding tap_reply write_if
  tapped m ctx input f w =
      let (r, w') = f ctx input (write_if m.tap_input m.stdin (line input) w) in
      (r, tap_reply m r w')

  abbrev pub after_start :
      Context → Value → Fn W → Result (Unit {0}) × Tap Cmd Pipe × W → Tap Cmd Pipe × Reply × W
  after_start ctx input f (ok _, m, w) = let (r, w') = tapped m ctx input f w in (m, r, w')
  after_start ctx input f (err e, m, w) = (m, returns null (some e), w)
  after_start ctx input f (panic, m, w) = (m, panics, w)
  after_start ctx input f (hang, m, w) = (m, hangs, w)

  unfoldable pub invoke_with :
      Option Cmd → Tap Cmd Pipe → Context → Value → Fn W → W → Tap Cmd Pipe × Reply × W
  unfolding start tapped
  invoke_with none m ctx input f w = (m, returns null (some unconfigured_cmd), w)
  invoke_with (some cmd) m ctx input f w = after_start ctx input f (start cmd m w)

  -- Invoke
  unfoldable pub invoke : Tap Cmd Pipe → Context → Value → Fn W → W → Tap Cmd Pipe × Reply × W
  unfolding invoke_with
  invoke m ctx input f w = invoke_with m.base_cmd m ctx input f w

-- New
unfoldable pub new : {Cmd Pipe : Type 0} → Tap Cmd Pipe
new = record {
  alive = false;
  base_cmd = none;
  stdin = none;
  tap_input = true;
  tap_output = true;
  tap_error = true;
}

-- A world with what each pipe has been sent, and a fn that does not look at it.
abbrev pub Piped : Type 0 → Type 0 → Type 0
Piped Pipe W = List (Option Pipe × Message) × W

abbrev pub append_message : {Pipe W : Type 0} → Option Pipe → Message → Piped Pipe W → Piped Pipe W
append_message pipe message (sent, w) = (sent ++ (pipe, message) ∷ [], w)

abbrev pub silent : {Pipe W : Type 0} → Fn W → Fn (Piped Pipe W)
silent f ctx input (sent, w) = ((f ctx input w).0, (sent, (f ctx input w).1))

abbrev pub if_set : {Pipe : Type 0} → Bool → Option Pipe → Message → List (Option Pipe × Message)
if_set true pipe message = (pipe, message) ∷ []
if_set false pipe message = []

-- What is sent of a reply.
abbrev pub reply_messages :
    {Cmd Pipe : Type 0} → Tap Cmd Pipe → Reply → List (Option Pipe × Message)
reply_messages m (returns output none) = if_set m.tap_output m.stdin (line output)
reply_messages m (returns output (some e)) =
    if_set m.tap_output m.stdin (line output) ++ if_set m.tap_error m.stdin (failure e)
reply_messages m panics = []
reply_messages m hangs = []
