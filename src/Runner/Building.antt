-- ===== src/Runner/Building.antt =====
-- What a configuration must hold, and what it is turned into.
use fnrun.Prelude.{◌≡◌, refl, ap, subst, ◌∙◌, ◌≢◌, ◌↔◌}
use fnrun.Value.{Value, null}
use fnrun.Exec.{
  Error, ok, err, pure, ◌>>=◌, Fn, Middleware, Source, >>=-eq-ok, ok->>=, pure-eq-ok, err->>=,
}
use fnrun.Registry.{Finders}
use fnrun.Making.{make, Makes, make_iff}
use fnrun.Fns.{middleware_fn}
use fnrun.Runner.{
  RunnerConfig, source_required, fn_required, no_fn, no_middleware, no_source, require, wrap_fn,
  build,
}

module _ {W : Type 0} where
  -- The fn around which a middleware is put, if one is configured.
  pub data Wraps (registry : Finders W) (f : Fn W) : Value → W → Fn W → W → Type 0 where
    unwrapped : {w : W} → Wraps registry f null w f w
    wrapped :
        {c : Value} {w w' : W} {m : Middleware W}
        → c ≢ null
        → Makes registry.find_middleware "middleware" c w m w'
        → Wraps registry f c w (middleware_fn m f) w'

  -- What a successful configuration has done: the fn is made first, then the middleware, then the
  -- source, each in the world that the one before it left.
  pub record Builds (registry : Finders W) (cfg : RunnerConfig) (w : W) (f : Fn W) (s : Source W)
      (w' : W) : Type 0 where
    pub source_given : cfg.source ≢ null
    pub fn_given : cfg.fn ≢ null
    pub inner : Fn W
    pub after_fn : W
    pub fn_made : Makes registry.find_fn "fn" cfg.fn w inner after_fn
    pub after_middleware : W
    pub wrapping : Wraps registry inner cfg.middleware after_fn f after_middleware
    pub source_made : Makes registry.find_source "source" cfg.source after_middleware s w'

  wrap_fn-given :
      (registry : Finders W) (f : Fn W) (c : Value) (w : W)
      → c ≢ null
      → wrap_fn registry c f w
        ≡ (make registry.find_middleware no_middleware "middleware" c >>= λ m.
              pure (middleware_fn m f))
            w
  unfolding wrap_fn
  wrap_fn-given registry f null w h = absurd (h refl)
  wrap_fn-given registry f _ w h = refl

  wrap_fn-Wraps :
      (registry : Finders W) (f : Fn W) (c : Value) (w : W) (g : Fn W) (w' : W)
      → wrap_fn registry c f w ≡ (ok g, w')
      → Wraps registry f c w g w'
  unfolding wrap_fn
  wrap_fn-Wraps registry f null w g w' h =
      let ef : f ≡ g = cc in
      let ew : w ≡ w' = cc in
      subst (λ x. Wraps registry f null w x w') ef
        (subst (λ v. Wraps registry f null w f v) ew unwrapped)
  wrap_fn-Wraps registry f c w g w' h =
      let (m, u, e, e') =
        >>=-eq-ok (make registry.find_middleware no_middleware "middleware" c) _ w h in
      let ef : middleware_fn m f ≡ g = cc in
      let ew : u ≡ w' = cc in
      subst (λ x. Wraps registry f c w x w') ef
        (wrapped (cc)
          ((make_iff registry.find_middleware no_middleware "middleware" c).0 (rw ew at e)))

  Wraps-wrap_fn :
      (registry : Finders W) (f : Fn W) (c : Value) (w : W) (g : Fn W) (w' : W)
      → Wraps registry f c w g w'
      → wrap_fn registry c f w ≡ (ok g, w')
  unfolding wrap_fn
  Wraps-wrap_fn registry f c w g w' unwrapped = refl
  Wraps-wrap_fn registry f c w g w' (wrapped {m} given made) =
      wrap_fn-given registry f c w given
      ∙ ok->>= (make registry.find_middleware no_middleware "middleware" c) _ w
          ((make_iff registry.find_middleware no_middleware "middleware" c).1 made)

  require-ok :
      (v : Value) (e : Error) (w : W) {t : Unit} {w' : W}
      → require v e w ≡ (ok t, w')
      → (v ≢ null) × (w ≡ w')
  require-ok null e w h = cc
  require-ok _ e w h = (cc, cc)

  require-given : (v : Value) (e : Error) (w : W) → v ≢ null → require v e w ≡ (ok tt, w)
  require-given null e w h = absurd (h refl)
  require-given _ e w h = refl

  require-null : (v : Value) (e : Error) (w : W) → v ≡ null → require v e w ≡ (err e, w)
  require-null v e w h = rw h

  build-Builds :
      (registry : Finders W) (cfg : RunnerConfig) (w : W) (f : Fn W) (s : Source W) (w' : W)
      → build registry cfg w ≡ (ok (f, s), w')
      → Builds registry cfg w f s w'
  unfolding build
  build-Builds registry cfg w f s w' h =
      let (_, w₁, s₁, h₁) = >>=-eq-ok (require cfg.source source_required) _ w h in
      let (source_given, e₁) = require-ok cfg.source source_required w s₁ in
      let (_, w₂, s₂, h₂) = >>=-eq-ok (require cfg.fn fn_required) _ w₁ h₁ in
      let (fn_given, e₂) = require-ok cfg.fn fn_required w₁ s₂ in
      let (inner, w₃, s₃, h₃) = >>=-eq-ok (make registry.find_fn no_fn "fn" cfg.fn) _ w₂ h₂ in
      let (g, w₄, s₄, h₄) = >>=-eq-ok (wrap_fn registry cfg.middleware inner) _ w₃ h₃ in
      let (t, w₅, s₅, h₅) =
        >>=-eq-ok (make registry.find_source no_source "source" cfg.source) _ w₄ h₄ in
      let (both, ew) = pure-eq-ok (g, t) w₅ h₅ in
      let ef : g ≡ f = ap (λ (p : Fn W × Source W). p.0) both in
      let es : t ≡ s = ap (λ (p : Fn W × Source W). p.1) both in
      record {
        source_given = source_given;
        fn_given = fn_given;
        inner = inner;
        after_fn = w₃;
        fn_made = (make_iff registry.find_fn no_fn "fn" cfg.fn).0 (rw (e₁ ∙ e₂) s₃);
        after_middleware = w₄;
        wrapping = wrap_fn-Wraps registry inner cfg.middleware w₃ f w₄ (rw ef at s₄);
        source_made =
            (make_iff registry.find_source no_source "source" cfg.source).0 (rw (es, ew) at s₅);
      }

  Builds-build :
      (registry : Finders W) (cfg : RunnerConfig) (w : W) (f : Fn W) (s : Source W) (w' : W)
      → Builds registry cfg w f s w'
      → build registry cfg w ≡ (ok (f, s), w')
  unfolding build
  Builds-build registry cfg w f s w' b =
      ok->>= (require cfg.source source_required) _ w (require-given cfg.source _ w b.source_given)
      ∙ ok->>= (require cfg.fn fn_required) _ w (require-given cfg.fn _ w b.fn_given)
      ∙ ok->>= (make registry.find_fn no_fn "fn" cfg.fn) _ w
          ((make_iff registry.find_fn no_fn "fn" cfg.fn).1 b.fn_made)
      ∙ ok->>= (wrap_fn registry cfg.middleware b.inner) _ b.after_fn
          (Wraps-wrap_fn registry b.inner cfg.middleware b.after_fn f b.after_middleware b.wrapping)
      ∙ ok->>= (make registry.find_source no_source "source" cfg.source) _ b.after_middleware
          ((make_iff registry.find_source no_source "source" cfg.source).1 b.source_made)

  pub build_iff :
      (registry : Finders W) (cfg : RunnerConfig) (w : W) (f : Fn W) (s : Source W) (w' : W)
      → (build registry cfg w ≡ (ok (f, s), w')) ↔ Builds registry cfg w f s w'
  build_iff registry cfg w f s w' =
      (build-Builds registry cfg w f s w', Builds-build registry cfg w f s w')

  pub build_missing_source :
      (registry : Finders W) (cfg : RunnerConfig) (w : W)
      → cfg.source ≡ null
      → build registry cfg w ≡ (err source_required, w)
  unfolding build
  build_missing_source registry cfg w e =
      err->>= (require cfg.source source_required) _ w (require-null cfg.source _ w e)

  pub build_missing_fn :
      (registry : Finders W) (cfg : RunnerConfig) (w : W)
      → cfg.source ≢ null
      → cfg.fn ≡ null
      → build registry cfg w ≡ (err fn_required, w)
  unfolding build
  build_missing_fn registry cfg w given e =
      ok->>= (require cfg.source source_required) _ w (require-given cfg.source _ w given)
      ∙ err->>= (require cfg.fn fn_required) _ w (require-null cfg.fn _ w e)
