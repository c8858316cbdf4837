-- ===== src/Loader.antt =====
-- run/fn/loader and run/source/loader: the fn and the source that stand for another one, which
-- their configuration names.
pub mod Laws
use fnrun.Prelude.{String, Option, none, some, [], ◌∷◌}
use fnrun.Value.{Value, null, Fields}
use fnrun.Exec.{
  Error, errorf, panic, Exec, ◌>>=◌, panics, Fn, Source, Method, then_assign, then_method,
  configured_by,
}
use fnrun.Config.{Configurable, get_single_pair}
use fnrun.Registry.{Finders}
use fnrun.Making.{make, make_single}
use fnrun.Prelude.{true}

-- wrappedFn; `fn` is nil until the loader is configured
pub record WrappedFn (W : Type 0) : Type 0 where
  pub fn : Option (Fn W)
  pub registry : Finders W

-- wrappedSource
pub record WrappedSource (W : Type 0) : Type 0 where
  pub source : Option (Source W)
  pub registry : Finders W

abbrev pub fn_not_found : String → Error
fn_not_found key = errorf "a registered fn not found for key %q" (key ∷ [])

abbrev pub source_not_found : String → Error
source_not_found key = errorf "a registered source not found for key %q" (key ∷ [])

module _ {W : Type 0} where
  -- wrappedFn.ConfigureString
  unfoldable pub configure_fn_string : String → WrappedFn W → Method (WrappedFn W) W
  unfolding make
  configure_fn_string fn_key l =
      then_assign (make l.registry.find_fn (fn_not_found fn_key) fn_key null)
        (λ f. record l { fn = some f }) l

  -- wrappedFn.ConfigureMap
  unfoldable pub configure_fn_map : Fields → WrappedFn W → Method (WrappedFn W) W
  unfolding make get_single_pair
  configure_fn_map config_map l =
      then_assign (make_single l.registry.find_fn fn_not_found config_map)
        (λ f. record l { fn = some f }) l

  -- wrappedFn.Invoke; the call through a nil interface panics
  unfoldable pub invoke : WrappedFn W → Fn W
  invoke l ctx input w = elim l.fn [ none ↦ (panics, w) | some f ↦ f ctx input w ]

  -- run/fn/loader.New
  unfoldable pub new_fn : Finders W → WrappedFn W
  new_fn registry = record { fn = none; registry = registry }

  -- wrappedSource.configure
  unfoldable pub configure_source : String → Value → WrappedSource W → Method (WrappedSource W) W
  unfolding make
  configure_source source_key source_config l =
      then_assign
        (make l.registry.find_source (source_not_found source_key) source_key source_config)
        (λ s. record l { source = some s }) l

  -- wrappedSource.ConfigureString
  unfoldable pub configure_source_string : String → WrappedSource W → Method (WrappedSource W) W
  unfolding configure_source
  configure_source_string source_key l = configure_source source_key null l

  -- wrappedSource.ConfigureMap
  unfoldable pub configure_source_map : Fields → WrappedSource W → Method (WrappedSource W) W
  unfolding configure_source get_single_pair
  configure_source_map config_map l =
      then_method (get_single_pair config_map)
        (λ (source_key, source_config). configure_source source_key source_config l) l

  -- wrappedSource.Serve
  unfoldable pub serve : WrappedSource W → Source W
  serve l ctx f w = elim l.source [ none ↦ (panic, w) | some s ↦ s ctx f w ]

  -- run/source/loader.New
  unfoldable pub new_source : Finders W → WrappedSource W
  new_source registry = record { source = none; registry = registry }

  -- What the factories of the keys "fn" and "source" make.
  unfoldable pub configurable_fn : Finders W → Configurable W (Fn W)
  unfolding new_fn invoke configure_fn_string configure_fn_map
  configurable_fn registry = record {
    type_of = "*loader.wrappedFn";
    unconfigured = invoke (new_fn registry);
    requires_config = some true;
    configure_string =
        some (λ key. configured_by invoke (configure_fn_string key (new_fn registry)));
    configure_integer = none;
    configure_float = none;
    configure_bool = none;
    configure_map = some (λ fs. configured_by invoke (configure_fn_map fs (new_fn registry)));
    configure_array = none;
    configure_generic = none;
    configure_empty = none;
  }

  unfoldable pub configurable_source : Finders W → Configurable W (Source W)
  unfolding new_source serve configure_source_string configure_source_map
  configurable_source registry = record {
    type_of = "*loader.wrappedSource";
    unconfigured = serve (new_source registry);
    requires_config = some true;
    configure_string =
        some (λ key. configured_by serve (configure_source_string key (new_source registry)));
    configure_integer = none;
    configure_float = none;
    configure_bool = none;
    configure_map =
        some (λ fs. configured_by serve (configure_source_map fs (new_source registry)));
    configure_array = none;
    configure_generic = none;
    configure_empty = none;
  }
