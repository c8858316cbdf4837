-- ===== src/Tests/Assembly.antt =====
-- Loaders, pipelines and runners, made from data.
use fnrun.Prelude.{ℕ, ◌≡◌, refl, none, some, [], ◌∷◌}
use fnrun.Value.{null, str, object, Items, nil, cons, Fields, end, field, get_or_null}
use fnrun.Exec.{ok, returns}
use fnrun.Config.{configure}
use fnrun.Fns.{middleware_fn}
use fnrun.Pipeline
use fnrun.Pipeline.{PipelineMiddleware, compose, composed_middleware}
use fnrun.Pipeline.Compose.{nest, compose-nest}
use fnrun.Loader
use fnrun.Loader.{WrappedFn, WrappedSource}
use fnrun.Runner
use fnrun.Runner.{Runner, RunnerConfig, source_required, fn_required}
use fnrun.Tests.World.{background, echo, counting, replacing, once, registry}

compose-nest_example :
    compose (counting ∷ replacing ∷ []) background (str "in") echo 0
    ≡ nest (counting ∷ replacing ∷ []) echo background (str "in") 0
compose-nest_example = compose-nest (counting ∷ replacing ∷ []) echo background (str "in") 0

compose_run :
    compose (counting ∷ replacing ∷ []) background (str "in") echo 0
    ≡ (returns (str "replaced") none, 1100)
unfolding compose composed_middleware Pipeline.identity_middleware
compose_run = refl

abbrev pipeline : PipelineMiddleware ℕ
pipeline = record { middleware = replacing; registry = registry }

abbrev two : Items
two = cons (str "counting") (cons (object (field "middleware" (str "x") end)) nil)

configure_array_run :
    Pipeline.configure_array two pipeline 0
    ≡ (ok tt, record pipeline { middleware = compose (counting ∷ replacing ∷ []) }, 12)
unfolding Pipeline.configure_array configure
configure_array_run = refl

abbrev fn_loader : WrappedFn ℕ
fn_loader = record { fn = none; registry = registry }

abbrev echo_config : Fields
echo_config = field "echo" null end

abbrev loaded : WrappedFn ℕ
loaded = record fn_loader { fn = some echo }

fn_loaded : Loader.configure_fn_map echo_config fn_loader 0 ≡ (ok tt, loaded, 1)
unfolding Loader.configure_fn_map configure
fn_loaded = refl

abbrev source_loader : WrappedSource ℕ
source_loader = record { source = none; registry = registry }

abbrev source_config : Fields
source_config = field "source" (str "x") end

abbrev source_loaded : WrappedSource ℕ
source_loaded = record source_loader { source = some once }

source_loads :
    Loader.configure_source_map source_config source_loader 0 ≡ (ok tt, source_loaded, 11)
unfolding Loader.configure_source_map configure
source_loads = refl

-- A decoder that reads the three keys.
unfoldable pub decode : Fields → RunnerConfig
unfolding get_or_null
decode fs = record {
  source = get_or_null "source" fs;
  middleware = get_or_null "middleware" fs;
  fn = get_or_null "fn" fs;
}

abbrev runner : Runner ℕ
runner = record { registry = registry; source = none; fn = none }

abbrev full : Fields
full = field "source" (str "s") (field "middleware" (str "m") (field "fn" (str "f") end))

abbrev assembled : Runner ℕ
assembled = record runner { source = some once; fn = some (middleware_fn replacing echo) }

runner_configured : Runner.configure_map decode full runner 0 ≡ (ok tt, assembled, 33)
unfolding Runner.configure_map decode configure
runner_configured = refl

runner_run : Runner.run assembled background 5 ≡ (ok tt, 105)
unfolding Runner.run middleware_fn
runner_run = refl
