-- ===== src/Pipeline/Configuring.antt =====
-- ConfigureArray: which middlewares a configuration gives, and that a failure leaves the pipeline
-- as it was.
use fnrun.Prelude.{
  String, ◌≡◌, sym, ap, subst, ◌∙◌, ◌≢◌, ◌↔◌, List, [], ◌∷◌, ◌++◌, append_assoc, append-nil, arith,
}
use text.Mathlib.TextPositions.{eq_refl}
use fnrun.Value.{Value, null, str, object, Items, nil, cons, end, field}
use fnrun.Exec.{ok, Middleware, >>=-eq-ok, ok->>=, then_assign_iff, then_assign-failed}
use fnrun.Registry.{Finders}
use fnrun.Making.{make, Makes, make_iff}
use fnrun.Pipeline.{
  PipelineMiddleware, no_middleware, load_middleware, load_all, compose, configure_array,
}

module _ {W : Type 0} (registry : Finders W) where
  -- An entry of the array is a key, or a map with exactly one key.
  pub data Loads : Value → W → Middleware W → W → Type 0 where
    by_string :
        {key : String} {w w' : W} {m : Middleware W}
        → Makes registry.find_middleware key null w m w'
        → Loads (str key) w m w'
    by_map :
        {key : String} {c : Value} {w w' : W} {m : Middleware W}
        → Makes registry.find_middleware key c w m w'
        → Loads (object (field key c end)) w m w'

  -- The entries are loaded in order, each in the world that the one before it left.
  pub data LoadsAll : Items → W → List (Middleware W) → W → Type 0 where
    none_left : {w : W} → LoadsAll nil w [] w
    one_more :
        {c : Value} {cfg : Items} {w u w' : W} {m : Middleware W} {ms : List (Middleware W)}
        → Loads c w m u
        → LoadsAll cfg u ms w'
        → LoadsAll (cons c cfg) w (m ∷ ms) w'

  pub load_single :
      (key : String) (c : Value)
      → load_middleware registry (object (field key c end))
        ≡ make registry.find_middleware (no_middleware key) key c
  unfolding load_middleware
  load_single key c = rw (eq_refl key)

  Loads-load_middleware :
      (c : Value) (w : W) (m : Middleware W) (w' : W)
      → Loads c w m w'
      → load_middleware registry c w ≡ (ok m, w')
  unfolding load_middleware
  Loads-load_middleware c w m w' (by_string {key} s) =
      (make_iff registry.find_middleware (no_middleware key) key null).1 s
  Loads-load_middleware c w m w' (by_map {key} {c = d} s) =
      rw (load_single key d) ((make_iff registry.find_middleware (no_middleware key) key d).1 s)

  load_middleware-Loads :
      (c : Value) (w : W) (m : Middleware W) (w' : W)
      → load_middleware registry c w ≡ (ok m, w')
      → Loads c w m w'
  unfolding load_middleware
  load_middleware-Loads (str key) w m w' h =
      by_string ((make_iff registry.find_middleware (no_middleware key) key null).0 h)
  load_middleware-Loads (object (field key c end)) w m w' h = by_map (
      (make_iff registry.find_middleware (no_middleware key) key c).0 (rw (load_single key c) at h))
  load_middleware-Loads (object end) w m w' h = cc
  load_middleware-Loads (object (field k c (field j d fs))) w m w' h = ground arith
  load_middleware-Loads _ w m w' h = cc

  LoadsAll-load_all :
      (cfg : Items) (w : W) (ms : List (Middleware W)) (w' : W) (before : List (Middleware W))
      → LoadsAll cfg w ms w'
      → load_all registry cfg before w ≡ (ok (before ++ ms), w')
  unfolding load_all
  LoadsAll-load_all cfg w ms w' before none_left = rw append-nil
  LoadsAll-load_all cfg w ms w' before (one_more {c} {cfg = rest} {u} {m} {ms = more} l ls) =
      ok->>= (load_middleware registry c) _ w (Loads-load_middleware c w m u l)
      ∙ LoadsAll-load_all rest u more w' (before ++ m ∷ []) ls
      ∙ ap (λ (l : List (Middleware W)). (ok l, w')) (append_assoc before (m ∷ []) more)

  load_all-LoadsAll :
      (cfg : Items) (w : W) (ms : List (Middleware W)) (w' : W) (before : List (Middleware W))
      → load_all registry cfg before w ≡ (ok ms, w')
      → (tail : List (Middleware W)) × (ms ≡ before ++ tail) × LoadsAll cfg w tail w'
  unfolding load_all
  load_all-LoadsAll nil w ms w' before h =
      let e : before ≡ ms = cc in
      let e' : w ≡ w' = cc in
      ([], sym e ∙ sym (append-nil before), subst (λ v. LoadsAll nil w [] v) e' none_left)
  load_all-LoadsAll (cons c cfg) w ms w' before h =
      let (m, u, l, h') = >>=-eq-ok (load_middleware registry c) _ w h in
      let (tail, e, ls) = load_all-LoadsAll cfg u ms w' (before ++ m ∷ []) h' in
      (
        m ∷ tail,
        e ∙ append_assoc before (m ∷ []) tail,
        one_more (load_middleware-Loads c w m u l) ls,
      )

  -- The loop succeeds exactly when every entry loads, and returns what was loaded, in order.
  pub load_all_iff :
      (cfg : Items) (w : W) (ms : List (Middleware W)) (w' : W)
      → (load_all registry cfg [] w ≡ (ok ms, w')) ↔ LoadsAll cfg w ms w'
  load_all_iff cfg w ms w' = (
    λ h.
        let (tail, e, ls) = load_all-LoadsAll cfg w ms w' [] h in
        subst (λ l. LoadsAll cfg w l w') (sym e) ls,
    LoadsAll-load_all cfg w ms w' [],
  )

module _ {W : Type 0} (cfg : Items) (p : PipelineMiddleware W) where
  -- A configuration that fails leaves the pipeline's middleware as it was.
  configure_array-failed :
      (w : W) → (configure_array cfg p w).0 ≢ ok tt → (configure_array cfg p w).1 ≡ p
  unfolding configure_array
  configure_array-failed w h =
      then_assign-failed (λ ms. record p { middleware = compose ms }) p (load_all p.registry cfg [])
        w h

  -- Configuring succeeds exactly when every entry of the array loads, in order and each in the world
  -- that the one before it left, and then the pipeline runs the composition of the loaded middlewares.
  pub configure_array_iff :
      (w : W) (p' : PipelineMiddleware W) (w' : W)
      → (configure_array cfg p w ≡ (ok tt, p', w')) ↔ (
          (ms : List (Middleware W)) × LoadsAll p.registry cfg w ms w'
          × (p' ≡ record p { middleware = compose ms }))
  unfolding configure_array
  configure_array_iff w p' w' =
      let step =
        then_assign_iff (λ ms. record p { middleware = compose ms }) p (load_all p.registry cfg [])
          w p' w' in
      (
        λ h. let (ms, e, e') = step.0 h in (ms, (load_all_iff p.registry cfg w ms w').0 e, e'),
        λ r. step.1 (r.0, (load_all_iff p.registry cfg w r.0 w').1 r.1, r.2),
      )
