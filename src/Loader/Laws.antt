-- ===== src/Loader/Laws.antt =====
-- What configuring a loader does, and what it stands for afterwards.
use fnrun.Prelude.{String, ◌≡◌, refl, ◌≢◌, ◌↔◌, some}
use fnrun.Value.{Value, null, Fields, end, field}
use fnrun.Exec.{
  Context, ok, Exec, Fn, Source, then_assign, then_assign_iff, then_assign-failed,
  then_method-assign,
}
use fnrun.Config.{get_single_pair}
use fnrun.Making.{make_single, MakesSingle, make_single_iff}
use fnrun.Loader.{
  WrappedFn, WrappedSource, fn_not_found, source_not_found, configure_fn_string, configure_fn_map,
  invoke, configure_source_string, configure_source_map, serve,
}

module _ {W : Type 0} where
  -- A string configures a loader as the map from that string to null does.
  pub configure_fn_string-map :
      (key : String) (l : WrappedFn W)
      → configure_fn_string key l ≡ configure_fn_map (field key null end) l
  unfolding configure_fn_string configure_fn_map
  configure_fn_string-map key l = refl

  pub configure_source_string-map :
      (key : String) (l : WrappedSource W)
      → configure_source_string key l ≡ configure_source_map (field key null end) l
  unfolding configure_source_string configure_source_map
  configure_source_string-map key l = refl

  module _ (fs : Fields) (l : WrappedFn W) (w : W) where
    make_fn : Exec W (Fn W)
    make_fn = make_single l.registry.find_fn fn_not_found fs

    -- Configuring a fn loader with a map succeeds exactly when the map has one entry and the registry
    -- makes a fn for it; the loader then holds that fn, and the world is as making it left it.
    pub configure_fn_map_iff :
        (l' : WrappedFn W) (w' : W)
        → (configure_fn_map fs l w ≡ (ok tt, l', w')) ↔ (
            (f : Fn W) × MakesSingle l.registry.find_fn fs w f w' × (l' ≡ record l { fn = some f }))
    unfolding configure_fn_map make_fn
    configure_fn_map_iff l' w' =
        let step = then_assign_iff (λ f. record l { fn = some f }) l make_fn w l' w' in
        let made = λ (f : Fn W). make_single_iff l.registry.find_fn fn_not_found fs w f w' in
        (
          λ h. let (f, e, e') = step.0 h in (f, (made f).0 e, e'),
          λ r. step.1 (r.0, (made r.0).1 r.1, r.2),
        )

    -- A fn loader whose configuration fails keeps what it held.
    pub configure_fn_map-failed :
        (configure_fn_map fs l w).0 ≢ ok tt → (configure_fn_map fs l w).1 ≡ l
    unfolding configure_fn_map make_fn
    configure_fn_map-failed h = then_assign-failed (λ f. record l { fn = some f }) l make_fn w h

    -- Once a map has configured it, the loader invokes the fn that the registry made for the map's one
    -- entry: same output, same error, same effects.
    invoke-configure_fn_map :
        (l' : WrappedFn W) (w' : W)
        → configure_fn_map fs l w ≡ (ok tt, l', w')
        → (f : Fn W) × MakesSingle l.registry.find_fn fs w f w'
          × ((ctx : Context) (input : Value) (u : W) → invoke l' ctx input u ≡ f ctx input u)
    unfolding invoke
    invoke-configure_fn_map l' w' h =
        let (f, m, e) = (configure_fn_map_iff l' w').0 h in (f, m, λ ctx input u. rw (e, invoke))

  module _ (fs : Fields) (l : WrappedSource W) (w : W) where
    make_source : Exec W (Source W)
    make_source = make_single l.registry.find_source source_not_found fs

    configure_source_map-make :
        configure_source_map fs l w
        ≡ then_assign make_source (λ s. record l { source = some s }) l w
    unfolding configure_source_map make_source
    configure_source_map-make =
        then_method-assign (λ s. record l { source = some s }) l (get_single_pair fs) _ w

    -- Configuring a source loader with a map succeeds exactly when the map has one entry and the
    -- registry makes a source for it, and the loader then holds that source.
    pub configure_source_map_iff :
        (l' : WrappedSource W) (w' : W)
        → (configure_source_map fs l w ≡ (ok tt, l', w')) ↔ (
            (s : Source W) × MakesSingle l.registry.find_source fs w s w'
            × (l' ≡ record l { source = some s }))
    unfolding make_source
    configure_source_map_iff l' w' =
        let step = then_assign_iff (λ s. record l { source = some s }) l make_source w l' w' in
        let made =
          λ (s : Source W). make_single_iff l.registry.find_source source_not_found fs w s w' in
        (
          λ h. let (s, e, e') = step.0 (rw configure_source_map-make at h) in (s, (made s).0 e, e'),
          λ r. rw configure_source_map-make (step.1 (r.0, (made r.0).1 r.1, r.2)),
        )

    -- Once a map has configured it, a source loader serves as the source does that the registry made
    -- for the map's one entry: same result, same effects.
    serve-configure_source_map :
        (l' : WrappedSource W) (w' : W)
        → configure_source_map fs l w ≡ (ok tt, l', w')
        → (s : Source W) × MakesSingle l.registry.find_source fs w s w'
          × ((ctx : Context) (f : Fn W) (u : W) → serve l' ctx f u ≡ s ctx f u)
    unfolding serve
    serve-configure_source_map l' w' h =
        let (s, m, e) = (configure_source_map_iff l' w').0 h in (s, m, λ ctx f u. rw (e, serve))

    -- A source loader whose configuration fails keeps what it held.
    pub configure_source_map-failed :
        (configure_source_map fs l w).0 ≢ ok tt → (configure_source_map fs l w).1 ≡ l
    unfolding make_source
    configure_source_map-failed h = rw configure_source_map-make (
        then_assign-failed (λ s. record l { source = some s }) l make_source w
          (rw configure_source_map-make at h))
