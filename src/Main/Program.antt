-- ===== src/Main/Program.antt =====
-- What the program is that main assembles from a configuration: the source, the middlewares and the
-- fn that the configuration names, one inside the other.
use fnrun.Prelude.{String, ◌≡◌, refl, sym, ap, subst, ◌∙◌, ◌≢◌, ◌↔◌, Option, List}
use fnrun.Value.{Value, null, array, Items}
use fnrun.Exec.{ok, Exec, Fn, Middleware, Source}
use fnrun.Config.{configure}
use fnrun.Registry.{Factory, Finders}
use fnrun.Making.{Makes, make_iff}
use fnrun.Fns.{middleware_fn}
use fnrun.Pipeline.{configurable, compose}
use fnrun.Pipeline.Configuring.{LoadsAll}
use fnrun.Runner.{RunnerConfig, no_fn, no_middleware, no_source}
use fnrun.Runner.Building.{Builds, Wraps, unwrapped, wrapped}
use fnrun.Main.{Packages}
use fnrun.Main.Objects.{Libraries}
use fnrun.Main.Assembling.{
  Chosen, filled, make_fn, make_middleware, make_source, fn_loader_iff, source_loader_iff,
  pipeline_iff,
}

-- The middlewares that are around the fn, and the fn within them.
module _ {W : Type 0} (registry : Finders W) where
  pub data Around (f : Fn W) : Value → W → Fn W → W → Type 0 where
    alone : {w : W} → Around f null w f w
    within :
        {items : Items} {ms : List (Middleware W)} {w w' : W}
        → LoadsAll registry items w ms w'
        → Around f (array items) w (middleware_fn (compose ms) f) w'

  -- The fn is chosen first, then the middlewares, then the source.
  pub record Assembles (cfg : RunnerConfig) (w : W) (f : Fn W) (s : Source W) (w' : W)
      : Type 0 where
    pub inner : Fn W
    pub after_fn : W
    pub fn_chosen : Chosen registry.find_fn cfg.fn w inner after_fn
    pub after_middleware : W
    pub around : Around inner cfg.middleware after_fn f after_middleware
    pub source_chosen : Chosen registry.find_source cfg.source after_middleware s w'

Chosen-ne-null :
    {W I : Type 0} (find : String → Option (Factory W I)) (c : Value) (w : W) (x : I) (w' : W)
    → Chosen find c w x w'
    → c ≢ null
Chosen-ne-null find null w x w' chosen h = chosen
Chosen-ne-null find _ w x w' chosen h = cc

module _ {Code W : Type 0} (libs : Libraries Code W) (packages : Packages W)
    (self : Finders W) where
  abbrev outer : Finders W
  outer = filled libs packages self

  made_fn_iff :
      (c : Value) (w : W) (f : Fn W) (w' : W)
      → Makes outer.find_fn "fn" c w f w' ↔ Chosen self.find_fn c w f w'
  made_fn_iff c w f w' =
      let made = make_iff outer.find_fn no_fn "fn" c {w = w} {w' = w'} {x = f} in
      let same = ap (λ (m : Exec W (Fn W)). m w) (make_fn libs packages self c) in
      let chosen = fn_loader_iff self w w' f c in
      (λ m. chosen.0 (sym same ∙ made.1 m), λ h. made.0 (same ∙ chosen.1 h))

  made_source_iff :
      (c : Value) (w : W) (s : Source W) (w' : W)
      → Makes outer.find_source "source" c w s w' ↔ Chosen self.find_source c w s w'
  made_source_iff c w s w' =
      let made = make_iff outer.find_source no_source "source" c {w = w} {w' = w'} {x = s} in
      let same = ap (λ (m : Exec W (Source W)). m w) (make_source libs packages self c) in
      let chosen = source_loader_iff self w w' s c in
      (λ m. chosen.0 (sym same ∙ made.1 m), λ h. made.0 (same ∙ chosen.1 h))

  pipeline-array :
      (c : Value) (w : W) (m : Middleware W) (w' : W)
      → c ≢ null
      → configure (configurable self) c w ≡ (ok m, w')
      → (items : Items) × (ms : List (Middleware W)) × (c ≡ array items)
        × LoadsAll self items w ms w'
        × (m ≡ compose ms)
  unfolding configure configurable
  pipeline-array null w m w' given h = absurd (given refl)
  pipeline-array (array items) w m w' given h =
      let (ms, loaded, e) = (pipeline_iff self w w' m items).0 h in (items, ms, refl, loaded, e)
  pipeline-array _ w m w' given h = cc

  Wraps-Around :
      (f : Fn W) (c : Value) (w : W) (g : Fn W) (w' : W)
      → Wraps outer f c w g w'
      → Around self f c w g w'
  Wraps-Around f c w g w' unwrapped = alone
  Wraps-Around f c w g w' (wrapped {m} given made) =
      let same = ap (λ (x : Exec W (Middleware W)). x w) (make_middleware libs packages self c) in
      let (items, ms, e, loaded, e') =
        pipeline-array c w m w' given
          (sym same ∙ (make_iff outer.find_middleware no_middleware "middleware" c).1 made) in
      subst (λ d. Around self f d w (middleware_fn m f) w') (sym e)
        (subst (λ x. Around self f (array items) w (middleware_fn x f) w') (sym e') (within loaded))

  Around-Wraps :
      (f : Fn W) (c : Value) (w : W) (g : Fn W) (w' : W)
      → Around self f c w g w'
      → Wraps outer f c w g w'
  Around-Wraps f c w g w' alone = unwrapped
  Around-Wraps f c w g w' (within {items} {ms} loaded) =
      let same =
        ap (λ (x : Exec W (Middleware W)). x w)
          (make_middleware libs packages self (array items)) in
      wrapped (λ e. cc)
        ((make_iff outer.find_middleware no_middleware "middleware" (array items)).0
          (same ∙ (pipeline_iff self w w' (compose ms) items).1 (ms, loaded, refl)))

  pub Builds-iff-Assembles :
      (cfg : RunnerConfig) (w : W) (f : Fn W) (s : Source W) (w' : W)
      → Builds outer cfg w f s w' ↔ Assembles self cfg w f s w'
  Builds-iff-Assembles cfg w f s w' = (
    λ b. record {
      inner = b.inner;
      after_fn = b.after_fn;
      fn_chosen = (made_fn_iff cfg.fn w b.inner b.after_fn).0 b.fn_made;
      after_middleware = b.after_middleware;
      around = Wraps-Around b.inner cfg.middleware b.after_fn f b.after_middleware b.wrapping;
      source_chosen = (made_source_iff cfg.source b.after_middleware s w').0 b.source_made;
    },
    λ a. record {
      source_given =
          Chosen-ne-null self.find_source cfg.source a.after_middleware s w' a.source_chosen;
      fn_given = Chosen-ne-null self.find_fn cfg.fn w a.inner a.after_fn a.fn_chosen;
      inner = a.inner;
      after_fn = a.after_fn;
      fn_made = (made_fn_iff cfg.fn w a.inner a.after_fn).1 a.fn_chosen;
      after_middleware = a.after_middleware;
      wrapping = Around-Wraps a.inner cfg.middleware a.after_fn f a.after_middleware a.around;
      source_made = (made_source_iff cfg.source a.after_middleware s w').1 a.source_chosen;
    },
  )
