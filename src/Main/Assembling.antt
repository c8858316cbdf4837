-- ===== src/Main/Assembling.antt =====
-- What main's registry makes for the keys of the runner: a fn loader, a pipeline and a source loader,
-- which are what their configuration names.
use fnrun.Prelude.{String, ◌≡◌, refl, sym, ap, subst, ◌∙◌, ◌↔◌, Option, some, List, lookup, insert}
use fnrun.Value.{Value, null, str, object, array, Items, Fields, end, field}
use fnrun.Exec.{
  Result, ok, err, panic, hang, Fn, Middleware, Source, as_configured, configured_by, Method,
}
use fnrun.Config.{configure}
use fnrun.Registry.{
  Factory, Finders, register_fn, register_middleware, register_source, register_fn_with_registry,
  register_middleware_with_registry, register_source_with_registry,
}
use fnrun.Registry.Laws.{register}
use fnrun.Making.{make, Makes, MakesSingle}
use fnrun.Loader
use fnrun.Loader.{
  WrappedSource, configurable_fn, configurable_source, new_fn, configure_fn_map, new_source,
  configure_source_map, serve,
}
use fnrun.Loader.Laws.{
  configure_fn_map_iff, configure_fn_string-map, configure_source_map_iff,
  configure_source_string-map,
}
use fnrun.Pipeline
use fnrun.Pipeline.{configurable, compose, new_with_registry, configure_array}
use fnrun.Pipeline.Configuring.{LoadsAll, configure_array_iff}
use fnrun.Runner.{no_fn, no_middleware, no_source}
use fnrun.Main.{Packages, main_finders}
use fnrun.Main.Objects.{Libraries}

-- An object that is configured by a method.
module _ {S W I : Type 0} (view : S → I) where
  configured_result_iff :
      (r : Result (Unit {0})) (s : S) (u : W) (x : I) (w' : W)
      → (◌≡◌ {A = Result I × W} (as_configured view r s, u) (ok x, w')) ↔ (
          (s' : S) × (◌≡◌ {A = Result (Unit {0}) × S × W} (r, s, u) (ok tt, s', w'))
          × (x ≡ view s'))
  configured_result_iff (ok a) s u x w' = (λ h. (s, cc, cc), λ (b, e, e'). cc)
  configured_result_iff (err e) s u x w' = (λ h. cc, λ (b, e, e'). cc)
  configured_result_iff panic s u x w' = (λ h. cc, λ (b, e, e'). cc)
  configured_result_iff hang s u x w' = (λ h. cc, λ (b, e, e'). cc)

  pub configured_by_iff :
      (m : Method S W) (w : W) (x : I) (w' : W)
      → (configured_by view m w ≡ (ok x, w')) ↔ ((s' : S) × (m w ≡ (ok tt, s', w')) × (x ≡ view s'))
  configured_by_iff m w x w' = configured_result_iff (m w).0 (m w).1 (m w).2 x w'

-- The data names an object: a string does, without a configuration, and a map of one entry, with one.
abbrev pub Chosen : {W I : Type 0} → (String → Option (Factory W I)) → Value → W → I → W → Type 0
Chosen find (str key) w x w' = Makes find key null w x w'
Chosen find (object fs) w x w' = MakesSingle find fs w x w'
Chosen find _ w x w' = ⊥

-- A name for the line `unfolding` of the proofs about main's registry.
unfoldable pub open_main : Unit {0}
unfolding main_finders make configure lookup insert register register_fn register_middleware
    register_source register_fn_with_registry register_middleware_with_registry
    register_source_with_registry
open_main = tt

module _ {Code W : Type 0} (libs : Libraries Code W) (packages : Packages W)
    (self : Finders W) where
  abbrev pub filled : Finders W
  filled = main_finders libs packages self

  -- What main's registry makes for the three keys of the runner.
  pub make_fn : (c : Value) → make filled.find_fn no_fn "fn" c ≡ configure (configurable_fn self) c
  unfolding open_main
  make_fn c = refl

  pub make_middleware :
      (c : Value)
      → make filled.find_middleware no_middleware "middleware" c ≡ configure (configurable self) c
  unfolding open_main
  make_middleware c = refl

  pub make_source :
      (c : Value)
      → make filled.find_source no_source "source" c ≡ configure (configurable_source self) c
  unfolding open_main
  make_source c = refl

-- A map of one entry without a configuration.
module _ {W I : Type 0} (find : String → Option (Factory W I)) (key : String) (w : W) (x : I)
    (w' : W) where
  single-Makes : MakesSingle find (field key null end) w x w' → Makes find key null w x w'
  single-Makes (k, c, e, made) =
      let same : (k ≡ key) × (c ≡ null) = (cc, cc) in
      subst (λ j. Makes find j null w x w') same.0 (subst (λ d. Makes find k d w x w') same.1 made)

  Makes-single : Makes find key null w x w' → MakesSingle find (field key null end) w x w'
  Makes-single made = (key, null, refl, made)

module _ {W : Type 0} (registry : Finders W) (w w' : W) where
  module _ (f : Fn W) where
    fn_map_iff :
        (fs : Fields)
        → (configured_by Loader.invoke (configure_fn_map fs (new_fn registry)) w ≡ (ok f, w'))
          ↔ MakesSingle registry.find_fn fs w f w'
    unfolding Loader.invoke new_fn
    fn_map_iff fs =
        let step = configured_by_iff Loader.invoke (configure_fn_map fs (new_fn registry)) w f w' in
        (
          λ h.
              let (l, configured, e) = step.0 h in
              let (g, made, e') = (configure_fn_map_iff fs (new_fn registry) w l w').0 configured in
              subst (λ x. MakesSingle registry.find_fn fs w x w') (sym (e ∙ ap Loader.invoke e'))
                made,
          λ made. step.1 (
            record { fn = some f; registry = registry },
            (configure_fn_map_iff fs (new_fn registry) w _ w').1 (f, made, refl),
            refl,
          ),
        )

    -- A configured fn loader is the fn that its data names.
    pub fn_loader_iff :
        (c : Value)
        → (configure (configurable_fn registry) c w ≡ (ok f, w')) ↔ Chosen registry.find_fn c w f w'
    unfolding configure configurable_fn
    fn_loader_iff (str key) = (
      λ h. single-Makes registry.find_fn key w f w' (
          (fn_map_iff (field key null end)).0 (
            ap (λ (m : Method (Loader.WrappedFn W) W). configured_by Loader.invoke m w)
              (sym (configure_fn_string-map key (new_fn registry)))
            ∙ h)),
      λ made.
          ap (λ (m : Method (Loader.WrappedFn W) W). configured_by Loader.invoke m w)
            (configure_fn_string-map key (new_fn registry))
          ∙ (fn_map_iff (field key null end)).1 (Makes-single registry.find_fn key w f w' made),
    )
    fn_loader_iff (object fs) = fn_map_iff fs
    fn_loader_iff _ = (λ h. cc, λ no. absurd no)

  module _ (s : Source W) where
    source_map_iff :
        (fs : Fields)
        → (configured_by serve (configure_source_map fs (new_source registry)) w ≡ (ok s, w'))
          ↔ MakesSingle registry.find_source fs w s w'
    unfolding serve new_source
    source_map_iff fs =
        let step = configured_by_iff serve (configure_source_map fs (new_source registry)) w s w' in
        (
          λ h.
              let (l, configured, e) = step.0 h in
              let (t, made, e') =
                (configure_source_map_iff fs (new_source registry) w l w').0 configured in
              subst (λ x. MakesSingle registry.find_source fs w x w') (sym (e ∙ ap serve e')) made,
          λ made. step.1 (
            record { source = some s; registry = registry },
            (configure_source_map_iff fs (new_source registry) w _ w').1 (s, made, refl),
            refl,
          ),
        )

    -- A configured source loader is the source that its data names.
    pub source_loader_iff :
        (c : Value)
        → (configure (configurable_source registry) c w ≡ (ok s, w'))
          ↔ Chosen registry.find_source c w s w'
    unfolding configure configurable_source
    source_loader_iff (str key) = (
      λ h. single-Makes registry.find_source key w s w' (
          (source_map_iff (field key null end)).0 (
            ap (λ (m : Method (WrappedSource W) W). configured_by serve m w)
              (sym (configure_source_string-map key (new_source registry)))
            ∙ h)),
      λ made.
          ap (λ (m : Method (WrappedSource W) W). configured_by serve m w)
            (configure_source_string-map key (new_source registry))
          ∙ (source_map_iff (field key null end)).1
              (Makes-single registry.find_source key w s w' made),
    )
    source_loader_iff (object fs) = source_map_iff fs
    source_loader_iff _ = (λ h. cc, λ no. absurd no)

  module _ (m : Middleware W) where
    -- A configured pipeline is the composition of the middlewares that the array names.
    pub pipeline_iff :
        (items : Items)
        → (configure (configurable registry) (array items) w ≡ (ok m, w'))
          ↔ ((ms : List (Middleware W)) × LoadsAll registry items w ms w' × (m ≡ compose ms))
    unfolding configure configurable Pipeline.invoke new_with_registry
    pipeline_iff items =
        let p = new_with_registry registry in
        let step = configured_by_iff Pipeline.invoke (configure_array items p) w m w' in
        (
          λ h.
              let (q, configured, e) = step.0 h in
              let (ms, loaded, e') = (configure_array_iff items p w q w').0 configured in
              (ms, loaded, e ∙ ap Pipeline.invoke e'),
          λ (ms, loaded, e). step.1 (
            record p { middleware = compose ms },
            (configure_array_iff items p w _ w').1 (ms, loaded, refl),
            e,
          ),
        )
