-- ===== src/Main.antt =====
-- cmd/fnrunner/main.go: the program.
pub mod Objects
pub mod Cells
pub mod Pooled
pub mod Placed
pub mod Isolation
pub mod Packaged
pub mod Served
pub mod Assembling
pub mod Program
pub mod Starting
pub mod Depth
pub mod Restarting
pub mod Ending
pub mod Vain
use fnrun.Prelude.{
  ℕ, zero, suc, String, Bool, true, false, Option, none, some, List, [], ◌∷◌, str_eq, if◌then◌else◌,
}
use fnrun.Value.{Value, object, Fields}
use fnrun.Value.Int.{ℤ}
use fnrun.Exec.{
  Error, Context, Result, ok, err, panic, hang, Exec, pure, ◌>>=◌, Fn, Middleware, Source,
  configured_by,
}
use fnrun.Config.{Configurable, bare, configure}
use fnrun.Registry.{Factory, Finders, Registry, new_registry, find_source, find_middleware, find_fn}
use fnrun.Registry.Laws.{
  Registration, source_with_registry, middleware_with_registry, fn_with_registry, register_all,
}
use fnrun.Loader.{configurable_fn, configurable_source}
use fnrun.Pipeline.{configurable}
use fnrun.Runner.{Runner, RunnerConfig}
use fnrun.Runner
use fnrun.Main.Objects.{
  Libraries, identity_object, key_object, http_object, healthcheck_object, debug_object,
  json_object, timeout_object, jq_object, pool_object,
}

-- The factories New of the packages whose objects hold more than their configuration, such as
-- channels, clients, limiters and processes.
pub record Packages (W : Type 0) : Type 0 where
  pub cli : Factory W (Fn W)
  pub circuitbreaker : Factory W (Middleware W)
  pub kafka_middleware : Factory W (Middleware W)
  pub ratelimiter : Factory W (Middleware W)
  pub tap : Factory W (Middleware W)
  pub servicebus : Factory W (Source W)
  pub cron : Factory W (Source W)
  pub http : Factory W (Source W)
  pub kafka : Factory W (Source W)
  pub lambda : Factory W (Source W)
  pub sqs : Factory W (Source W)

-- The lines of log.Println and log.Printf.
pub data Line : Type 0 where
  running : Line
  received_error : Option Error → Line
  restarting_in : ℤ → Line
  restarting : Line

-- The flags, the environment, the files and the clock.
pub record Platform (W : Type 0) : Type 0 where
  pub file_path : String
  pub auto_restart : Bool
  pub restart_wait : ℤ
  pub getenv : String → String
  pub read_file : String → Exec W String
  pub expand_env : String → String
  -- yaml.Unmarshal into a map, and mapstructure.Decode in the runner's ConfigureMap
  pub unmarshal : String → Result Fields
  pub decode : Fields → RunnerConfig
  pub log : Line → W → W
  -- the receive from time.After
  pub wait : ℤ → W → W

-- `if err != nil { panic(err) }`
abbrev pub or_panic : {A : Type 0} → Result A → Result A
or_panic (err e) = panic
or_panic r = r

abbrev pub must : {W A : Type 0} → Exec W A → Exec W A
must m w = (or_panic (m w).0, (m w).1)

module _ {Code W : Type 0} (libs : Libraries Code W) (packages : Packages W) where
  abbrev pub MainRegistration : Type 0
  MainRegistration =
      Registration (Finders W) (Factory W (Source W)) (Factory W (Middleware W)) (Factory W (Fn W))

  -- The calls of the Register methods, in order.
  unfoldable pub registrations : List MainRegistration
  unfolding identity_object key_object http_object healthcheck_object debug_object json_object
      timeout_object jq_object pool_object configurable_fn configurable_source configurable
  registrations =
      Registration.fn "fnrun.fn/cli" packages.cli
      ∷ Registration.fn "fnrun.fn/http" (pure (http_object libs))
      ∷ Registration.fn "fnrun.fn/identity" (pure identity_object)
      ∷ fn_with_registry "fnrun.fn/pool" (λ registry. pure (pool_object libs registry))
      ∷ fn_with_registry "fn" (λ registry. pure (configurable_fn registry))
      ∷ Registration.middleware "fnrun.middleware/circuitbreaker" packages.circuitbreaker
      ∷ Registration.middleware "fnrun.middleware/debug" (pure (debug_object libs))
      ∷ Registration.middleware "fnrun.middleware/healthcheck" (pure (healthcheck_object libs))
      ∷ Registration.middleware "fnrun.middleware/jq" (pure (jq_object libs))
      ∷ Registration.middleware "fnrun.middleware/json" (pure (json_object libs))
      ∷ Registration.middleware "fnrun.middleware/kafka" packages.kafka_middleware
      ∷ Registration.middleware "fnrun.middleware/key" (pure key_object)
      ∷ Registration.middleware "fnrun.middleware/ratelimiter" packages.ratelimiter
      ∷ Registration.middleware "fnrun.middleware/tap" packages.tap
      ∷ Registration.middleware "fnrun.middleware/timeout" (pure (timeout_object libs))
      ∷ middleware_with_registry "middleware" (λ registry. pure (configurable registry))
      ∷ Registration.source "fnrun.source/azure/servicebus" packages.servicebus
      ∷ Registration.source "fnrun.source/cron" packages.cron
      ∷ Registration.source "fnrun.source/http" packages.http
      ∷ Registration.source "fnrun.source/kafka" packages.kafka
      ∷ Registration.source "fnrun.source/lambda" packages.lambda
      ∷ Registration.source "fnrun.source/sqs" packages.sqs
      ∷ source_with_registry "source" (λ registry. pure (configurable_source registry))
      ∷ []

  -- The finders of the registry that main fills, where its own pointer leads to the given finders.
  unfoldable pub main_finders : Finders W → Finders W
  unfolding registrations new_registry register_all find_source find_middleware find_fn
  main_finders self =
      let registry = register_all registrations (new_registry self) in
      record {
        find_source = find_source registry;
        find_middleware = find_middleware registry;
        find_fn = find_fn registry;
      }

  -- The pointer leads to the registry itself: it is followed for the number of times that is given, and
  -- nothing is found behind.
  unfoldable pub finders : ℕ → Finders W
  unfolding main_finders
  finders zero = record {
    find_source = λ key. none;
    find_middleware = λ key. none;
    find_fn = λ key. none;
  }
  finders (suc depth) = main_finders (finders depth)

module _ {W : Type 0} (platform : Platform W) where
  -- The override of the flag by the environment.
  unfoldable pub config_path : String
  config_path =
      if str_eq (platform.getenv "CONFIG_FILE") ""
      then platform.file_path
      else platform.getenv "CONFIG_FILE"

  -- runner.New, as config.Configure finds it
  unfoldable pub runner_object : Finders W → Configurable W (Runner W)
  unfolding Runner.new Runner.configure_map
  runner_object registry = record (bare "*runner.Runner" (Runner.new registry)) {
    requires_config = some true;
    configure_map = some (λ fs.
        configured_by (λ r. r) (Runner.configure_map platform.decode fs (Runner.new registry)));
  }

  -- Up to the configured runner.
  unfoldable pub set_up : Finders W → Exec W (Runner W)
  unfolding config_path runner_object configure
  set_up registry = do
    config_bytes ← must (platform.read_file config_path)
    config_map ← must (λ w. (platform.unmarshal (platform.expand_env config_bytes), w))
    must (configure (runner_object registry) (object config_map))

  abbrev pub background : Context
  background = record { deadline = none }

  -- The end of a round of the loop; panic(err) panics also if the error is nil.
  abbrev pub restart :
      Bool
      → (W → Option (Result (Unit {0}) × W))
      → Option Error
      → W
      → Option (Result (Unit {0}) × W)
  restart false next e w = some (panic, w)
  restart true next e w = next (
      platform.log restarting (
        platform.wait platform.restart_wait
          (platform.log (restarting_in platform.restart_wait) (platform.log (received_error e) w))))

  unfoldable pub after_run :
      (W → Option (Result (Unit {0}) × W)) → Result (Unit {0}) × W → Option (Result (Unit {0}) × W)
  after_run next (ok _, w) = restart platform.auto_restart next none w
  after_run next (err e, w) = restart platform.auto_restart next (some e) w
  after_run next (panic, w) = some (panic, w)
  after_run next (hang, w) = some (hang, w)

  -- The loop, for the number of rounds that is given; none while it is not over.
  unfoldable pub rounds : ℕ → Runner W → W → Option (Result (Unit {0}) × W)
  unfolding after_run Runner.run
  rounds zero r w = none
  rounds (suc n) r w = after_run (λ u. rounds n r u) (Runner.run r background w)

  abbrev pub after_set_up : ℕ → Result (Runner W) × W → Option (Result (Unit {0}) × W)
  after_set_up n (ok r, w) = rounds n r (platform.log running w)
  after_set_up n (err e, w) = some (err e, w)
  after_set_up n (panic, w) = some (panic, w)
  after_set_up n (hang, w) = some (hang, w)

  -- main, with its registry
  unfoldable pub main : ℕ → Finders W → W → Option (Result (Unit {0}) × W)
  unfolding set_up rounds
  main n registry w = after_set_up n (set_up registry w)
