-- ===== src/Main/Placed.antt =====
-- What the factories make whose objects change when they are invoked: each is at an address, and the
-- method of the package works on what is there.
use fnrun.Prelude.{ℕ, true, some}
use fnrun.Value.{Fields}
use fnrun.Value.Int.{ℤ}
use fnrun.Exec.{Context, Result, Reply, Fn, Middleware}
use fnrun.Config.{Configurable, bare}
use fnrun.Registry.{Factory}
use fnrun.Fns.Cli
use fnrun.Fns.Cli.{CliFn, CliConfig}
use fnrun.Fns.Cli.Os
use fnrun.Fns.Cli.Script
use fnrun.Fns.Cli.Service
use fnrun.Middlewares.Tap
use fnrun.Middlewares.Tap.{Tap, TapConfig}
use fnrun.Middlewares.Kafka
use fnrun.Middlewares.Kafka.{KafkaMiddleware, KafkaConfig, Client}
use fnrun.Middlewares.Limits
use fnrun.Middlewares.Limits.{
  RateLimiter, CircuitBreaker, BreakerConfig, new_limited, invoke_limited, new_broken,
  configure_breaker, invoke_broken,
}
use fnrun.Main.Cells.{Cells, factory, configured_at, fn_at, middleware_at}

-- Each record: where the objects are, mapstructure.Decode, and the libraries of the package.
pub record CliPackage (Cmd Run Stdin W : Type 0) : Type 0 where
  pub cells : Cells (CliFn Cmd Run Stdin) W
  pub decode : Fields → Result CliConfig
  pub os : Os.Process Cmd Run Stdin W
  -- the waits of the two kinds of inner fn
  pub of_service : Service.Select W
  pub of_script : Script.Outputs Cmd Run W

pub record TapPackage (Cmd Pipe W : Type 0) : Type 0 where
  pub cells : Cells (Tap Cmd Pipe) W
  pub decode : Fields → TapConfig → Result TapConfig
  pub os : Tap.Process Cmd Pipe W

pub record KafkaPackage (Producer W : Type 0) : Type 0 where
  pub cells : Cells (KafkaMiddleware Producer) W
  pub decode : Fields → KafkaConfig → Result (Unit {0}) × KafkaConfig
  pub client : Client Producer W

pub record RatelimiterPackage (L W : Type 0) : Type 0 where
  pub cells : Cells (RateLimiter L) W
  pub decode : Fields → ℤ × ℤ → Result (Unit {0}) × ℤ × ℤ
  pub new_limiter : ℤ → ℤ → L
  pub wait : L → Context → W → Result (Unit {0}) × W

pub record CircuitbreakerPackage (Cb W : Type 0) : Type 0 where
  pub cells : Cells (CircuitBreaker Cb) W
  pub decode : Fields → BreakerConfig
  pub new_breaker : BreakerConfig → Cb
  pub execute : Cb → (W → Reply × W) → W → Reply × W

module _ {Cmd Run Stdin W : Type 0} (p : CliPackage Cmd Run Stdin W) where
  unfoldable pub cli_fn : ℕ → Fn W
  unfolding fn_at Cli.invoke
  cli_fn = fn_at p.cells (Cli.invoke p.os p.of_service p.of_script)

  unfoldable pub cli_object : ℕ → Configurable W (Fn W)
  unfolding cli_fn configured_at Cli.configure_string Cli.configure_map
  cli_object a = record (bare "*cli.cliFn" (cli_fn a)) {
    requires_config = some true;
    configure_string = some (λ s. configured_at p.cells a (cli_fn a) (Cli.configure_string p.os s));
    configure_map =
        some (λ fs. configured_at p.cells a (cli_fn a) (Cli.configure_map p.os p.decode fs));
  }

  unfoldable pub cli_factory : Factory W (Fn W)
  unfolding factory cli_object Cli.new
  cli_factory = factory p.cells Cli.new cli_object

module _ {Cmd Pipe W : Type 0} (p : TapPackage Cmd Pipe W) where
  unfoldable pub tap_middleware : ℕ → Middleware W
  unfolding middleware_at Tap.invoke
  tap_middleware = middleware_at p.cells (Tap.invoke p.os)

  unfoldable pub tap_object : ℕ → Configurable W (Middleware W)
  unfolding tap_middleware configured_at Tap.configure_string Tap.configure_map
  tap_object a = record (bare "*tap.tapMiddleware" (tap_middleware a)) {
    requires_config = some true;
    configure_string =
        some (λ s. configured_at p.cells a (tap_middleware a) (Tap.configure_string p.os s));
    configure_map =
        some
          (λ fs. configured_at p.cells a (tap_middleware a) (Tap.configure_map p.os p.decode fs));
  }

  unfoldable pub tap_factory : Factory W (Middleware W)
  unfolding factory tap_object Tap.new
  tap_factory = factory p.cells Tap.new tap_object

module _ {Producer W : Type 0} (p : KafkaPackage Producer W) where
  unfoldable pub kafka_middleware : ℕ → Middleware W
  unfolding middleware_at Kafka.invoke
  kafka_middleware = middleware_at p.cells (Kafka.invoke p.client)

  unfoldable pub kafka_object : ℕ → Configurable W (Middleware W)
  unfolding kafka_middleware configured_at Kafka.configure_map
  kafka_object a = record (bare "*kafka.kafkaMiddleware" (kafka_middleware a)) {
    requires_config = some true;
    configure_map =
        some (λ fs. configured_at p.cells a (kafka_middleware a) (Kafka.configure_map p.decode fs));
  }

  unfoldable pub kafka_factory : Factory W (Middleware W)
  unfolding factory kafka_object Kafka.new
  kafka_factory = factory p.cells Kafka.new kafka_object

module _ {L W : Type 0} (p : RatelimiterPackage L W) where
  unfoldable pub ratelimiter_middleware : ℕ → Middleware W
  unfolding middleware_at invoke_limited
  ratelimiter_middleware = middleware_at p.cells (invoke_limited p.new_limiter p.wait)

  unfoldable pub ratelimiter_object : ℕ → Configurable W (Middleware W)
  unfolding ratelimiter_middleware configured_at Limits.configure_map
  ratelimiter_object a = record (bare "*ratelimiter.rlmiddleware" (ratelimiter_middleware a)) {
    configure_map = some (λ fs.
        configured_at p.cells a (ratelimiter_middleware a) (Limits.configure_map p.decode fs));
  }

  unfoldable pub ratelimiter_factory : Factory W (Middleware W)
  unfolding factory ratelimiter_object new_limited
  ratelimiter_factory = factory p.cells new_limited ratelimiter_object

module _ {Cb W : Type 0} (p : CircuitbreakerPackage Cb W) where
  -- Invoke leaves the object as it is.
  unfoldable pub circuitbreaker_middleware : ℕ → Middleware W
  unfolding invoke_broken
  circuitbreaker_middleware a ctx input f w =
      invoke_broken p.execute (p.cells.read a w) ctx input f w

  unfoldable pub circuitbreaker_object : ℕ → Configurable W (Middleware W)
  unfolding circuitbreaker_middleware configured_at configure_breaker
  circuitbreaker_object a =
      record (bare "*circuitbreaker.circuitBreakerMiddleware" (circuitbreaker_middleware a)) {
        configure_map = some (λ fs.
            configured_at p.cells a (circuitbreaker_middleware a)
              (configure_breaker p.decode p.new_breaker fs));
      }

  unfoldable pub circuitbreaker_factory : Factory W (Middleware W)
  unfolding factory circuitbreaker_object new_broken
  circuitbreaker_factory = factory p.cells new_broken circuitbreaker_object
