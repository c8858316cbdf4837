-- ===== src/Main/Packaged.antt =====
-- The packages that main imports, with the objects that their factories make.
use fnrun.Prelude.{◌<◌, ◌≡◌, sym, ap, ◌∙◌, arith}
use fnrun.Value.{Value, null}
use fnrun.Exec.{Error, Context, ok, panics, pure, Fn}
use fnrun.Registry.{Finders}
use fnrun.Making.{make}
use fnrun.Sources.Cron.{Cron}
use fnrun.Middlewares.Limits.{new_broken, invoke_broken}
use fnrun.Main.{Packages, main_finders}
use fnrun.Main.Objects.{Libraries}
use fnrun.Main.Assembling.{open_main}
use fnrun.Main.Cells.{Memory, Keeps}
use fnrun.Main.Placed
use fnrun.Main.Placed.{
  CliPackage, TapPackage, RatelimiterPackage, CircuitbreakerPackage, cli_factory, tap_factory,
  kafka_factory, ratelimiter_factory, circuitbreaker_factory, circuitbreaker_middleware,
}
use fnrun.Main.Served
use fnrun.Main.Served.{
  ServiceBusPackage, SqsPackage, LambdaPackage, HttpPackage, cron_object, servicebus_object,
  sqs_object, lambda_object, http_source_object, kafka_source_factory,
}

module _
    {Cmd Run Stdin TapCmd Pipe Producer L Cb Queue Config Service Listener Version Group
      W : Type 0} where
  unfoldable pub packages :
      CliPackage Cmd Run Stdin W
      → CircuitbreakerPackage Cb W
      → Placed.KafkaPackage Producer W
      → RatelimiterPackage L W
      → TapPackage TapCmd Pipe W
      → ServiceBusPackage Queue W
      → Cron W
      → HttpPackage Listener W
      → Served.KafkaPackage Version Group W
      → LambdaPackage W
      → SqsPackage Config Service W
      → Packages W
  unfolding cli_factory circuitbreaker_factory kafka_factory ratelimiter_factory tap_factory
      servicebus_object cron_object http_source_object kafka_source_factory lambda_object sqs_object
  packages cli circuitbreaker kafka_middleware ratelimiter tap servicebus cron http kafka lambda
        sqs =
      record {
        cli = cli_factory cli;
        circuitbreaker = circuitbreaker_factory circuitbreaker;
        kafka_middleware = kafka_factory kafka_middleware;
        ratelimiter = ratelimiter_factory ratelimiter;
        tap = tap_factory tap;
        servicebus = pure (servicebus_object servicebus);
        cron = pure (cron_object cron);
        http = pure (http_source_object http);
        kafka = kafka_source_factory kafka;
        lambda = pure (lambda_object lambda);
        sqs = pure (sqs_object sqs);
      }

module _ {Code Cb W : Type 0} (libs : Libraries Code W) (others : Packages W) (self : Finders W)
    (p : CircuitbreakerPackage Cb W) (memory : Memory p.cells) where
  abbrev pub with_breaker : Finders W
  with_breaker =
      main_finders libs (record others { circuitbreaker = circuitbreaker_factory p }) self

  abbrev placed : W → W
  placed w = (p.cells.alloc new_broken w).1

  -- A circuit breaker that is named without a configuration is made without an error, and panics at
  -- every invocation, whatever the fn, for as long as its object stays as it is.
  pub unconfigured_breaker :
      (missing : Error) (ctx : Context) (input : Value) (f : Fn W) (w v : W)
      → Keeps memory (p.cells.alloc new_broken w).1 v
      → (make with_breaker.find_middleware missing "fnrun.middleware/circuitbreaker" null w
          ≡ (ok (circuitbreaker_middleware p (memory.next w)), (p.cells.alloc new_broken w).1))
        × (circuitbreaker_middleware p (memory.next w) ctx input f v ≡ (panics, v))
  unfolding open_main circuitbreaker_factory circuitbreaker_middleware invoke_broken new_broken
  unconfigured_breaker missing ctx input f w v kept =
      let at : (p.cells.alloc new_broken w).0 ≡ memory.next w = memory.alloc-next new_broken w in
      let below : memory.next w < memory.next (placed w) =
        omega (arith, memory.next-alloc new_broken w) in
      let unset : p.cells.read (memory.next w) v ≡ new_broken =
        kept.same (memory.next w) below
        ∙ ap (λ a. p.cells.read a (placed w)) (sym at)
        ∙ memory.read_new new_broken w in
      (
        ap (λ a. (ok (circuitbreaker_middleware p a), placed w)) at,
        ap (λ c. invoke_broken p.execute c ctx input f v) unset,
      )
