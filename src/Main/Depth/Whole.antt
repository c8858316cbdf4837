-- ===== src/Main/Depth/Whole.antt =====
-- The program does not depend on how often main's registry is followed into itself.
use fnrun.Prelude.{ℕ, zero, suc, ◌<◌, ◌≤◌, String, ◌≡◌, refl, ap, ◌∙◌, fun_ext, Option, some}
use fnrun.Value.{Value, null, Fields, object}
use fnrun.Exec.{
  Result, ok, err, panic, hang, Exec, pure, ◌>>=◌, continue, Fn, Middleware, Source, as_configured,
  assign_result, configured_by, then_assign,
}
use fnrun.Config.{configure}
use fnrun.Registry.{Finders}
use fnrun.Fns.{middleware_fn}
use fnrun.Runner
use fnrun.Runner.{
  Runner, RunnerConfig, no_fn, no_middleware, no_source, source_required, fn_required, require,
  wrap_fn, build,
}
use fnrun.Main.{
  Packages, Platform, running, finders, or_panic, must, config_path, runner_object, set_up,
  background, after_run, rounds, after_set_up, main,
}
use fnrun.Main.Objects.{Libraries}
use fnrun.Main.Depth.{weight}
use fnrun.Main.Depth.Loading.{Agree}
use fnrun.Main.Depth.Enough.{IsPart, finders-Agree}

-- The three parts of a configuration weigh less.
abbrev pub IsBelow : ℕ → RunnerConfig → Type 0
IsBelow d cfg = (weight cfg.source < d) × (weight cfg.middleware < d) × (weight cfg.fn < d)

module _ {W : Type 0} (d : ℕ) (F G : Finders W) (agree : Agree d F G) where
  wrap_fn-same : (c : Value) (f : Fn W) → weight c < d → wrap_fn F c f ≡ wrap_fn G c f
  unfolding wrap_fn
  wrap_fn-same null f less = refl
  wrap_fn-same c f less =
      ap (λ (m : Exec W (Middleware W)). m >>= λ m. pure (middleware_fn m f))
        (agree.middlewares no_middleware "middleware" c less)

  build-same : (cfg : RunnerConfig) → IsBelow d cfg → build F cfg ≡ build G cfg
  unfolding build
  build-same cfg (source, middleware, fn) = λ i. do
    _ ← require cfg.source source_required
    _ ← require cfg.fn fn_required
    f ← agree.fns no_fn "fn" cfg.fn fn i
    f' ← wrap_fn-same cfg.middleware f middleware i
    s ← agree.sources no_source "source" cfg.source source i
    pure (f', s)

or_panic-ok : {A : Type 0} (r : Result A) {a : A} → or_panic r ≡ ok a → r ≡ ok a
or_panic-ok (ok x) h = h
or_panic-ok (err e) h = cc
or_panic-ok panic h = cc
or_panic-ok hang h = cc

module _ {W : Type 0} (platform : Platform W) where
  -- A runner runs by its source and its fn alone.
  rounds-same :
      (n : ℕ) (F G : Finders W) (source : Option (Source W)) (fn : Option (Fn W)) (w : W)
      → rounds platform n (record { registry = F; source = source; fn = fn }) w
        ≡ rounds platform n (record { registry = G; source = source; fn = fn }) w
  unfolding rounds Runner.run
  rounds-same zero F G source fn w = refl
  rounds-same (suc n) F G source fn w =
      let r : Finders W → Runner W = λ H. record { registry = H; source = source; fn = fn } in
      ap (λ next. after_run platform next (Runner.run (r F) (background platform) w))
        (fun_ext (rounds-same n F G source fn))

  module _ (n : ℕ) where
    abbrev goes_on : Exec W (Runner W) → W → Option (Result (Unit {0}) × W)
    goes_on m w = after_set_up platform n (m w)

    -- A call before the rest.
    continue-same :
        {A : Type 0} (k k' : A → Exec W (Runner W)) (r : Result A) (u : W)
        → ((a : A) → r ≡ ok a → goes_on (k a) u ≡ goes_on (k' a) u)
        → goes_on (continue r k) u ≡ goes_on (continue r k') u
    continue-same k k' (ok a) u same = same a refl
    continue-same k k' (err e) u same = refl
    continue-same k k' panic u same = refl
    continue-same k k' hang u same = refl

    -- A runner that is configured by a call and an assignment.
    module _ (set set' : Fn W × Source W → Runner W) (r r' : Runner W)
        (same : (a : Fn W × Source W) (v : W)
          → rounds platform n (set a) v ≡ rounds platform n (set' a) v) where
      assigned-same :
          (x : Result (Fn W × Source W)) (v w : W)
          → goes_on
              (must (λ u. (
                as_configured (λ q. q) (assign_result set r x v).0 (assign_result set r x v).1,
                (assign_result set r x v).2,
              )))
              w
            ≡ goes_on
                (must (λ u. (
                  as_configured
                      (λ q. q)
                      (assign_result set' r' x v).0
                      (assign_result set' r' x v).1,
                  (assign_result set' r' x v).2,
                )))
                w
      assigned-same (ok a) v w = same a (platform.log running v)
      assigned-same (err e) v w = refl
      assigned-same panic v w = refl
      assigned-same hang v w = refl

      configured-same :
          (m m' : Exec W (Fn W × Source W)) (w : W)
          → m ≡ m'
          → goes_on (must (configured_by (λ q. q) (then_assign m set r))) w
            ≡ goes_on (must (configured_by (λ q. q) (then_assign m' set' r'))) w
      configured-same m m' w e =
          assigned-same (m w).0 (m w).1 w
          ∙ ap
              (λ (x : Exec W (Fn W × Source W)).
                goes_on (must (configured_by (λ q. q) (then_assign x set' r'))) w)
              e

    runner_object-same :
        (F G : Finders W) (d : ℕ) (fs : Fields) (w : W)
        → Agree d F G
        → IsBelow d (platform.decode fs)
        → goes_on (must (configure (runner_object platform F) (object fs))) w
          ≡ goes_on (must (configure (runner_object platform G) (object fs))) w
    unfolding configure runner_object Runner.configure_map Runner.new
    runner_object-same F G d fs w agree below =
        configured-same _ _ (Runner.new F) (Runner.new G)
          (λ (f, s) v. rounds-same n F G (some s) (some f) v) (build F (platform.decode fs))
          (build G (platform.decode fs)) w (build-same d F G agree (platform.decode fs) below)

  -- The configuration that main reads, if it gets one, weighs less.
  abbrev pub ReadsBelow : ℕ → W → Type 0
  ReadsBelow d w =
      (bytes : String) (u : W) (fs : Fields)
      → platform.read_file (config_path platform) w ≡ (ok bytes, u)
      → platform.unmarshal (platform.expand_env bytes) ≡ ok fs
      → IsBelow d (platform.decode fs)

  main-same :
      (n d : ℕ) (F G : Finders W) (w : W)
      → Agree d F G
      → ReadsBelow d w
      → main platform n F w ≡ main platform n G w
  unfolding main set_up
  main-same n d F G w agree below =
      let (r, u) = platform.read_file (config_path platform) w in
      continue-same n _ _ (or_panic r) u (λ bytes e.
        let read = ap (λ (x : Result String). (x, u)) (or_panic-ok r e) in
        continue-same n _ _ (or_panic (platform.unmarshal (platform.expand_env bytes))) u (λ fs e'.
          runner_object-same n F G d fs u agree (
            below bytes u fs read
              (or_panic-ok (platform.unmarshal (platform.expand_env bytes)) e'))))

module _ {Code W : Type 0} (libs : Libraries Code W) (packages : Packages W) (platform : Platform W)
    (part : IsPart libs.decode_pool) where
  -- If mapstructure takes a pool's template from its data, and the parts of the configuration that main
  -- reads weigh less than `d`: with its registry followed into itself `d` times or more, main does
  -- the same however often that is.
  pub main_enough :
      (n d k m : ℕ) (w : W)
      → d ≤ k
      → d ≤ m
      → ReadsBelow platform d w
      → main platform n (finders libs packages k) w ≡ main platform n (finders libs packages m) w
  main_enough n d k m w le le' below =
      main-same platform n d (finders libs packages k) (finders libs packages m) w
        (finders-Agree libs packages part d k m le le') below
