-- ===== src/Main/Objects.antt =====
-- What the factories make whose objects hold nothing but their configuration.
use fnrun.Prelude.{String, true, Option, some}
use fnrun.Value.{Value, Fields}
use fnrun.Value.Int.{ℤ}
use fnrun.Exec.{Context, Result, Exec, Fn, Middleware, configured_by, ◌>>=◌, pure}
use fnrun.Config.{Configurable, bare}
use fnrun.Registry.{Finders}
use fnrun.Pool
use fnrun.Pool.{Channel, PoolFn, PoolConfig}
use fnrun.Main.Pooled.{Pools, place_pool}
use fnrun.Fns.{identity_fn}
use fnrun.Fns.Http
use fnrun.Fns.Http.{HttpFnConfig, Response}
use fnrun.Middlewares.Key
use fnrun.Middlewares.Key.{healthcheck, configure_healthcheck}
use fnrun.Middlewares.Timeout
use fnrun.Middlewares.Debug
use fnrun.Middlewares.Debug.{LogLine}
use fnrun.Middlewares.Json
use fnrun.Middlewares.Json.{Json, JsonConfig}
use fnrun.Middlewares.Jq
use fnrun.Middlewares.Jq.{JqConfig, JqMiddleware, Iter}

-- The libraries that these objects call.
pub record Libraries (Code W : Type 0) : Type 0 where
  -- http.Post, and the goroutine around http.ListenAndServe
  pub post : String → String → String → Exec W Response
  pub listen : W → W
  -- mapstructure.Decode into the configurations
  pub decode_http : Fields → HttpFnConfig → Result (Unit {0}) × HttpFnConfig
  pub decode_json : Fields → JsonConfig → Result (Unit {0}) × JsonConfig
  pub decode_jq : Fields → Result JqConfig
  pub json : Json
  -- gojq.Parse and gojq.Compile, and RunWithContext
  pub gojq : String → Result Code
  pub run_jq : Code → Context → Value → W → Iter
  -- mapstructure.Decode in the pool's ConfigureMap, and the channels of the configured pools
  pub decode_pool : Fields → Result PoolConfig
  pub pools : Pools W
  pub parse_duration : String → Result ℤ
  pub now : W → ℤ
  pub log : LogLine → W → W

module _ {W : Type 0} where
  unfoldable pub identity_object : Configurable W (Fn W)
  unfolding identity_fn
  identity_object = bare "*identity.identityFn" identity_fn

  unfoldable pub key_object : Configurable W (Middleware W)
  unfolding Key.new Key.invoke Key.configure_string
  key_object = record (bare "*key.keyMiddleware" (Key.invoke Key.new)) {
    configure_string = some (λ key. pure (Key.invoke (Key.configure_string key Key.new)));
  }

-- What of a pool its Invoke reads.
abbrev pub invoked_part : {W : Type 0} → PoolFn W → ℤ × Option (Channel (Fn W))
invoked_part p = (p.max_wait_duration, p.fn_chan)

module _ {Code W : Type 0} where
  -- mapstructure may have changed the configuration that it fails on, but the object is then dropped
  unfoldable pub http_object : Libraries Code W → Configurable W (Fn W)
  unfolding Http.new Http.invoke Http.configure_map
  http_object libs = record (bare "*http.httpFn" (Http.invoke libs.post Http.new)) {
    requires_config = some true;
    configure_map = some (λ fs.
        configured_by (Http.invoke libs.post) (Http.configure_map libs.decode_http fs Http.new));
  }

  unfoldable pub healthcheck_object : Libraries Code W → Configurable W (Middleware W)
  unfolding healthcheck configure_healthcheck
  healthcheck_object libs = record (bare "*healthcheck.healthcheckMiddleware" healthcheck) {
    configure_empty = some (do _ ← configure_healthcheck libs.listen; pure healthcheck);
  }

  unfoldable pub debug_object : Libraries Code W → Configurable W (Middleware W)
  unfolding Debug.new Debug.invoke Debug.configure_bool
  debug_object libs = record (bare "*debug.debugMiddleware" (Debug.invoke libs.log Debug.new)) {
    configure_bool =
        some (λ enabled. pure (Debug.invoke libs.log (Debug.configure_bool enabled Debug.new)));
  }

  unfoldable pub json_object : Libraries Code W → Configurable W (Middleware W)
  unfolding Json.invoke Json.configure_map Json.new
  json_object libs = record (bare "*json.jsonMiddleware" (Json.invoke libs.json Json.new)) {
    configure_map = some (λ fs.
        configured_by (Json.invoke libs.json) (Json.configure_map libs.decode_json fs Json.new));
  }

  unfoldable pub timeout_object : Libraries Code W → Configurable W (Middleware W)
  unfolding Timeout.new Timeout.invoke Timeout.configure_string
  timeout_object libs =
      record (bare "*timeout.timeoutMiddleware" (Timeout.invoke libs.now Timeout.new)) {
        configure_string = some (λ s.
            configured_by (Timeout.invoke libs.now)
              (Timeout.configure_string libs.parse_duration s Timeout.new));
      }

  unfoldable pub jq_object : Libraries Code W → Configurable W (Middleware W)
  unfolding Jq.new Jq.invoke Jq.configure_map
  jq_object libs = record (bare "*jq.jqMiddleware" (Jq.invoke libs.run_jq Jq.new)) {
    requires_config = some true;
    configure_map = some (λ fs.
        configured_by (Jq.invoke libs.run_jq)
          (Jq.configure_map libs.decode_jq libs.gojq fs Jq.new));
  }

  -- A pool that is not configured has no fn to wait for.
  unfoldable pub pool_object : Libraries Code W → Finders W → Configurable W (Fn W)
  unfolding Pool.new Pool.invoke Pool.configure_map place_pool
  pool_object libs registry =
      record (bare "*pool.poolFn" (λ ctx input w.
        let (p, w') = Pool.invoke true (Pool.new registry) ctx input w in (p.1, w'))) {
          requires_config = some true;
          configure_map = some (λ fs.
              configured_by invoked_part
                (Pool.configure_map libs.decode_pool libs.parse_duration fs (Pool.new registry))
              >>= λ (duration, fn_chan). place_pool libs.pools duration fn_chan);
        }
