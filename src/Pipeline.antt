-- ===== src/Pipeline.antt =====
-- run/middleware/pipeline/pipeline.go: several middlewares as one.
pub mod Compose
pub mod Configuring
use fnrun.Prelude.{
  ℕ, zero, suc, String, Bool, true, false, Option, none, some, List, [], ◌∷◌, ◌++◌, length,
  get_elem?, ◌==◌, if◌then◌else◌,
}
use fnrun.Value.{
  Value, null, str, object, Items, nil, cons, Fields, end, field, type_name, size, get_or_null,
}
use fnrun.Exec.{
  Error, text, errorf, Exec, pure, raise, ◌>>=◌, Middleware, Method, then_assign, configured_by,
}
use fnrun.Config.{Configurable}
use fnrun.Registry.{Finders}
use fnrun.Making.{make}
use fnrun.Fns.{middleware_fn}

abbrev pub err_single_key : Error
err_single_key = text "middleware config should be object with single key"

abbrev pub no_middleware : String → Error
no_middleware key = errorf "no middleware registered with key %s" (key ∷ [])

-- `key := ""; for k := range mapConfig { key = k }`, for a map of one entry
unfoldable pub only_key : Fields → String
only_key end = ""
only_key (field k v fs) = k

module _ {W : Type 0} where
  -- identityMiddleware.Invoke
  unfoldable pub identity_middleware : Middleware W
  identity_middleware ctx input f w = f ctx input w

  -- composedMiddleware.Invoke
  unfoldable pub composed_middleware : Middleware W → Middleware W → Middleware W
  unfolding middleware_fn
  composed_middleware a b ctx input f w = a ctx input (middleware_fn b f) w

  -- The loop of compose: `i` counts the elements that are left, the next one is `middlewares[i - 1]`.
  -- An index past the end, which the loop never has, changes nothing.
  unfoldable pub compose_from : List (Middleware W) → ℕ → Middleware W → Middleware W
  compose_from middlewares zero current = current
  compose_from middlewares (suc i) current =
      compose_from middlewares i
        (elim (get_elem? middlewares i) [ some m ↦ composed_middleware m current | none ↦ current ])

  unfoldable pub compose : List (Middleware W) → Middleware W
  unfolding compose_from
  compose middlewares = compose_from middlewares (length middlewares) identity_middleware

-- pipelineMiddleware
pub record PipelineMiddleware (W : Type 0) : Type 0 where
  pub middleware : Middleware W
  pub registry : Finders W

module _ {W : Type 0} where
  -- pipelineMiddleware.Invoke
  unfoldable pub invoke : PipelineMiddleware W → Middleware W
  invoke p ctx input f w = p.middleware ctx input f w

  -- The body of the loop of ConfigureArray, on one middlewareConfig.
  unfoldable pub load_middleware : Finders W → Value → Exec W (Middleware W)
  unfolding make only_key size get_or_null
  load_middleware registry (str key) = make registry.find_middleware (no_middleware key) key null
  load_middleware registry (object map_config) =
      if size map_config == 1
      then make registry.find_middleware (no_middleware (only_key map_config)) (only_key map_config)
          (get_or_null (only_key map_config) map_config)
      else raise err_single_key
  load_middleware registry value = raise (
      errorf "wrong middleware configuration type: %T, expected string or object"
        (type_name value ∷ []))

  -- The loop, with the middlewares that it has appended so far.
  unfoldable pub load_all : Finders W → Items → List (Middleware W) → Exec W (List (Middleware W))
  unfolding load_middleware
  load_all registry nil middlewares = pure middlewares
  load_all registry (cons c cfg) middlewares = do
    middleware ← load_middleware registry c
    load_all registry cfg (middlewares ++ middleware ∷ [])

  -- ConfigureArray: `p.middleware` is assigned after the loop.
  unfoldable pub configure_array : Items → PipelineMiddleware W → Method (PipelineMiddleware W) W
  unfolding load_all compose
  configure_array cfg p =
      then_assign (load_all p.registry cfg [])
        (λ middlewares. record p { middleware = compose middlewares }) p

  -- NewWithRegistry
  unfoldable pub new_with_registry : Finders W → PipelineMiddleware W
  unfolding identity_middleware
  new_with_registry registry = record { middleware = identity_middleware; registry = registry }

  -- The object that the factory of the key "middleware" makes: it implements ConfigureArray alone.
  unfoldable pub configurable : Finders W → Configurable W (Middleware W)
  unfolding new_with_registry invoke configure_array
  configurable registry = record {
    type_of = "*pipeline.pipelineMiddleware";
    unconfigured = invoke (new_with_registry registry);
    requires_config = none;
    configure_string = none;
    configure_integer = none;
    configure_float = none;
    configure_bool = none;
    configure_map = none;
    configure_array =
        some (λ cfg. configured_by invoke (configure_array cfg (new_with_registry registry)));
    configure_generic = none;
    configure_empty = none;
  }
