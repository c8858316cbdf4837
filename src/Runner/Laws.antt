-- ===== src/Runner/Laws.antt =====
-- ConfigureMap of the runner, and what Run does afterwards.
use fnrun.Prelude.{◌≡◌, ap, ◌≢◌, ◌↔◌, some}
use fnrun.Value.{null, Fields}
use fnrun.Exec.{ok, err, Context, Fn, Source, then_assign_iff, then_assign-failed, then_assign-err}
use fnrun.Runner.{Runner, RunnerConfig, source_required, fn_required, build, configure_map, run}
use fnrun.Runner.Building.{Builds, build_iff, build_missing_source, build_missing_fn}

module _ {W : Type 0} (decode : Fields → RunnerConfig) (fs : Fields) (r : Runner W) (w : W) where
  abbrev set : Fn W × Source W → Runner W
  set (f, source) = record r { source = some source; fn = some f }

  -- Configuring a runner succeeds exactly when source and fn are given and the registry makes, in
  -- this order, the fn, the middleware if one is given, and the source; the runner then holds the
  -- source, and the fn within the middleware.
  pub configure_map_iff :
      (r' : Runner W) (w' : W)
      → (configure_map decode fs r w ≡ (ok tt, r', w')) ↔ (
          (f : Fn W) × (s : Source W) × Builds r.registry (decode fs) w f s w'
          × (r' ≡ record r { source = some s; fn = some f }))
  unfolding configure_map
  configure_map_iff r' w' =
      let step = then_assign_iff set r (build r.registry (decode fs)) w r' w' in
      (
        λ h.
            let ((f, s), e, e') = step.0 h in
            (f, s, (build_iff r.registry (decode fs) w f s w').0 e, e'),
        λ (f, s, b, e). step.1 ((f, s), (build_iff r.registry (decode fs) w f s w').1 b, e),
      )

  -- A runner whose configuration fails keeps the source and the fn that it had.
  configure_map-failed :
      (configure_map decode fs r w).0 ≢ ok tt → (configure_map decode fs r w).1 ≡ r
  unfolding configure_map
  configure_map-failed h = then_assign-failed set r (build r.registry (decode fs)) w h

  -- Running a configured runner is the made source serving the fn within the made middleware.
  run-configure_map :
      (r' : Runner W) (w' : W)
      → configure_map decode fs r w ≡ (ok tt, r', w')
      → (f : Fn W) × (s : Source W) × Builds r.registry (decode fs) w f s w'
        × ((ctx : Context) (u : W) → run r' ctx u ≡ s ctx f u)
  unfolding run
  run-configure_map r' w' h =
      let (f, s, b, e) = (configure_map_iff r' w').0 h in
      (f, s, b, λ ctx u. ap (λ (q : Runner W). run q ctx u) e)

  -- Without a source or a fn no factory is called: the error comes with the world unchanged.
  configure_map-missing :
      (((decode fs).source ≡ null) → configure_map decode fs r w ≡ (err source_required, r, w))
      × (((decode fs).source ≢ null)
          → (decode fs).fn ≡ null
          → configure_map decode fs r w ≡ (err fn_required, r, w))
  unfolding configure_map
  configure_map-missing = (
    λ e.
        then_assign-err set r (build r.registry (decode fs)) w
          (build_missing_source r.registry (decode fs) w e),
    λ given e.
        then_assign-err set r (build r.registry (decode fs)) w
          (build_missing_fn r.registry (decode fs) w given e),
  )
