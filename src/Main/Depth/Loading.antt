-- ===== src/Main/Depth/Loading.antt =====
-- The loaders and the pipeline pass data on to the registry that weighs less than their own.
use fnrun.Prelude.{
  ℕ, suc, ◌<◌, String, ◌≡◌, refl, sym, ap, ap₂, ◌∙◌, fun_ext, arith, Option, List, [], ◌∷◌, ◌++◌,
  Bool, true, false, ◌==◌, if◌then◌else◌,
}
use fnrun.Value.{Value, null, str, object, array, Items, nil, cons, Fields, end, field, size}
use fnrun.Exec.{
  Error, Result, ok, err, panic, hang, Exec, pure, raise, ◌>>=◌, Middleware, as_configured,
  assign_result, then_assign, configured_by,
}
use fnrun.Config.{configure, get_single_pair}
use fnrun.Registry.{Factory, Finders}
use fnrun.Making.{make, make_single}
use fnrun.Loader
use fnrun.Loader.{
  WrappedFn, WrappedSource, configurable_fn, configurable_source, fn_not_found, source_not_found,
}
use fnrun.Pipeline
use fnrun.Pipeline.Configuring.{load_single}
use fnrun.Pipeline.{
  PipelineMiddleware, configurable, load_middleware, load_all, err_single_key, no_middleware,
  compose,
}
use fnrun.Main.Depth.{weight, weight_of_items, weight_of_fields, SameFactory, SameMade}

-- The finders of two registries make the same of all data that weighs less.
pub record Agree {W : Type 0} (d : ℕ) (F G : Finders W) : Type 0 where
  pub sources : SameMade d F.find_source G.find_source
  pub middlewares : SameMade d F.find_middleware G.find_middleware
  pub fns : SameMade d F.find_fn G.find_fn

-- An object that is configured by a call and an assignment depends on the call, and on what it is used
-- as afterwards.
module _ {S W A I : Type 0} (view : S → I) (set set' : A → S) (s t : S)
    (same : (a : A) → view (set a) ≡ view (set' a)) where
  configured_result-same :
      (r : Result A) (w : W)
      → ◌≡◌ {A = Result I × W}
          (
            as_configured view (assign_result set s r w).0 (assign_result set s r w).1,
            (assign_result set s r w).2,
          )
          (
            as_configured view (assign_result set' t r w).0 (assign_result set' t r w).1,
            (assign_result set' t r w).2,
          )
  configured_result-same (ok a) w = ap (λ i. (ok i, w)) (same a)
  configured_result-same (err e) w = refl
  configured_result-same panic w = refl
  configured_result-same hang w = refl

  configured_by-same :
      (m m' : Exec W A)
      → m ≡ m'
      → configured_by view (then_assign m set s) ≡ configured_by view (then_assign m' set' t)
  configured_by-same m m' e =
      fun_ext (λ w. configured_result-same (m w).0 (m w).1)
      ∙ ap (λ (x : Exec W A). configured_by view (then_assign x set' t)) e

module _ {W I : Type 0} (d : ℕ) (find find' : String → Option (Factory W I))
    (same : SameMade d find find') where
  pub make_single-same :
      (missing : String → Error) (fs : Fields)
      → weight_of_fields fs < d
      → make_single find missing fs ≡ make_single find' missing fs
  unfolding get_single_pair weight
  make_single-same missing end less = refl
  make_single-same missing (field key c end) less = same (missing key) key c (omega (arith, less))
  make_single-same missing (field k c (field j e fs)) less = refl

not_single : (fs : Fields) → (suc (suc (size fs)) == 1) ≡ false
not_single fs = ground arith

if_false : {A : Type 0} (b : Bool) (x y : A) → b ≡ false → (if b then x else y) ≡ y
if_false true x y e = cc
if_false false x y e = refl

load_several :
    {W : Type 0} (F : Finders W) (k j : String) (c e : Value) (fs : Fields)
    → load_middleware F (object (field k c (field j e fs))) ≡ raise err_single_key
unfolding load_middleware
load_several F k j c e fs = if_false (suc (suc (size fs)) == 1) _ _ (not_single fs)

module _ {W : Type 0} (d : ℕ) (F G : Finders W) (agree : Agree d F G) where
  pub fn_loader-same : SameFactory (suc d) (pure (configurable_fn F)) (pure (configurable_fn G))
  unfolding configure configurable_fn Loader.configure_fn_string Loader.configure_fn_map
      Loader.invoke Loader.new_fn weight
  fn_loader-same (str key) less =
      configured_by-same Loader.invoke _ _ (Loader.new_fn F) (Loader.new_fn G) (λ f. refl)
        (make F.find_fn (fn_not_found key) key null) _
        (agree.fns (fn_not_found key) key null (omega (arith, less)))
  fn_loader-same (object fs) less =
      configured_by-same Loader.invoke _ _ (Loader.new_fn F) (Loader.new_fn G) (λ f. refl)
        (make_single F.find_fn fn_not_found fs) _
        (make_single-same d F.find_fn G.find_fn agree.fns fn_not_found fs (omega (arith, less)))
  fn_loader-same _ less = refl

  source-same :
      (key : String) (c : Value)
      → weight c < d
      → configured_by Loader.serve (Loader.configure_source key c (Loader.new_source F))
        ≡ configured_by Loader.serve (Loader.configure_source key c (Loader.new_source G))
  unfolding Loader.configure_source Loader.serve Loader.new_source
  source-same key c less =
      configured_by-same Loader.serve _ _ (Loader.new_source F) (Loader.new_source G) (λ f. refl)
        (make F.find_source (source_not_found key) key c) _
        (agree.sources (source_not_found key) key c less)

  source_map-same :
      (fs : Fields)
      → weight_of_fields fs < d
      → configured_by Loader.serve (Loader.configure_source_map fs (Loader.new_source F))
        ≡ configured_by Loader.serve (Loader.configure_source_map fs (Loader.new_source G))
  unfolding Loader.configure_source_map get_single_pair weight
  source_map-same end less = refl
  source_map-same (field key c end) less = source-same key c (omega (arith, less))
  source_map-same (field k c (field j e fs)) less = refl

  pub source_loader-same :
      SameFactory (suc d) (pure (configurable_source F)) (pure (configurable_source G))
  unfolding configure configurable_source Loader.configure_source_string weight
  source_loader-same (str key) less = source-same key null (omega (arith, less))
  source_loader-same (object fs) less = source_map-same fs (omega (arith, less))
  source_loader-same _ less = refl

  load_middleware-same : (c : Value) → weight c < suc d → load_middleware F c ≡ load_middleware G c
  unfolding load_middleware weight
  load_middleware-same (str key) less =
      agree.middlewares (no_middleware key) key null (omega (arith, less))
  load_middleware-same (object end) less = refl
  load_middleware-same (object (field key c end)) less =
      load_single F key c
      ∙ agree.middlewares (no_middleware key) key c (omega (arith, less))
      ∙ sym (load_single G key c)
  load_middleware-same (object (field k c (field j e fs))) less =
      load_several F k j c e fs ∙ sym (load_several G k j c e fs)
  load_middleware-same _ less = refl

  load_all-same :
      (items : Items) (before : List (Middleware W))
      → weight_of_items items < suc d
      → load_all F items before ≡ load_all G items before
  unfolding load_all weight
  load_all-same nil before less = refl
  load_all-same (cons c items) before less =
      ap₂ (λ (m : Exec W (Middleware W)) (k : Middleware W → Exec W (List (Middleware W))). m >>= k)
        (load_middleware-same c (omega (arith, less)))
        (fun_ext (λ m. load_all-same items (before ++ m ∷ []) (omega (arith, less))))

  pub pipeline-same : SameFactory (suc d) (pure (configurable F)) (pure (configurable G))
  unfolding configure configurable Pipeline.configure_array Pipeline.invoke
      Pipeline.new_with_registry weight
  pipeline-same (array items) less =
      configured_by-same Pipeline.invoke _ _ (Pipeline.new_with_registry F)
        (Pipeline.new_with_registry G) (λ f. refl) (load_all F items []) _
        (load_all-same items [] (omega (arith, less)))
  pipeline-same _ less = refl
