-- ===== src/Runner.antt =====
-- run/runner/runner.go: the processing pipeline of a source, middlewares and a fn.
pub mod Building
pub mod Laws
use fnrun.Prelude.{String, Option, none, some}
use fnrun.Value.{Value, null, Fields}
use fnrun.Exec.{
  Error, text, panic, panics, Exec, pure, raise, ◌>>=◌, Context, Fn, Middleware, Source, Result,
  Method, then_assign,
}
use fnrun.Registry.{Finders}
use fnrun.Making.{make}
use fnrun.Fns.{middleware_fn}

-- Runner; `source` and `fn` are nil until it is configured
pub record Runner (W : Type 0) : Type 0 where
  pub registry : Finders W
  pub source : Option (Source W)
  pub fn : Option (Fn W)

-- The struct that ConfigureMap decodes into.
pub record RunnerConfig : Type 0 where
  pub source : Value
  pub middleware : Value
  pub fn : Value

abbrev pub source_required : Error
source_required = text "source is a required configuration key"

abbrev pub fn_required : Error
fn_required = text "fn is a required configuration key"

abbrev pub no_fn : Error
no_fn = text "a registered fn not found for key \"fn\""

abbrev pub no_middleware : Error
no_middleware = text "a registered middleware not found for key \"middleware\""

abbrev pub no_source : Error
no_source = text "a registered source not found for key \"source\""

module _ {W : Type 0} where
  -- `if v == nil { return e }`
  abbrev pub require : Value → Error → Exec W (Unit {0})
  require null e = raise e
  require v e = pure tt

  -- `if cfg.Middleware != nil { ... }`
  unfoldable pub wrap_fn : Finders W → Value → Fn W → Exec W (Fn W)
  unfolding make middleware_fn
  wrap_fn registry null f = pure f
  wrap_fn registry c f = do
    m ← make registry.find_middleware no_middleware "middleware" c
    pure (middleware_fn m f)

  -- ConfigureMap, up to the assignments of its last lines.
  unfoldable pub build : Finders W → RunnerConfig → Exec W (Fn W × Source W)
  unfolding wrap_fn
  build registry cfg = do
    _ ← require cfg.source source_required
    _ ← require cfg.fn fn_required
    f ← make registry.find_fn no_fn "fn" cfg.fn
    f' ← wrap_fn registry cfg.middleware f
    source ← make registry.find_source no_source "source" cfg.source
    pure (f', source)

  -- ConfigureMap. `decode` is mapstructure.Decode into the struct, whose error the code drops.
  unfoldable pub configure_map : (Fields → RunnerConfig) → Fields → Runner W → Method (Runner W) W
  unfolding build
  configure_map decode config_map r =
      then_assign (build r.registry (decode config_map))
        (λ (f, source). record r { source = some source; fn = some f }) r

  -- A call of Invoke on a nil fn panics.
  abbrev pub nil_fn : Fn W
  nil_fn ctx input w = (panics, w)

  abbrev pub fn_of : Option (Fn W) → Fn W
  fn_of none = nil_fn
  fn_of (some f) = f

  -- Runner.Run; the call through a nil source panics
  unfoldable pub run : Runner W → Context → W → Result (Unit {0}) × W
  run r ctx w = elim r.source [ none ↦ (panic, w) | some source ↦ source ctx (fn_of r.fn) w ]

  -- New
  unfoldable pub new : Finders W → Runner W
  new registry = record { registry = registry; source = none; fn = none }
