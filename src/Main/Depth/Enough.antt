-- ===== src/Main/Depth/Enough.antt =====
-- A configuration that weighs less than the depth is made as main's endless registry makes it.
use fnrun.Prelude.{
  ℕ, zero, suc, ◌<◌, ◌≤◌, String, ◌≡◌, sym, subst, arith, Option, none, List, All, [], ◌∷◌, str_eq,
}
use fnrun.Value.{Fields}
use fnrun.Exec.{Result, ok, Fn, Middleware, Source}
use fnrun.Registry.{Factory, Finders}
use fnrun.Registry.Laws.{
  Registration, source_with_registry, middleware_with_registry, fn_with_registry, fn_of,
  middleware_of, source_of, find-register_all,
}
use fnrun.Main.{Packages, registrations, main_finders, finders}
use fnrun.Main.Objects.{Libraries}
use fnrun.Main.Depth.{
  weight, weight_of_fields, SameFactory, SameFound, SameFound-self, SameFound-if, SameFound-last_of,
  SameFound-SameMade,
}
use fnrun.Pool.{PoolConfig}
use fnrun.Main.Depth.Pooling.{pool-same}
use fnrun.Main.Depth.Loading.{Agree, fn_loader-same, source_loader-same, pipeline-same}

-- mapstructure takes a pool's template from the map that it decodes.
abbrev pub IsPart : (Fields → Result PoolConfig) → Type 0
IsPart decode =
    (fs : Fields) (cfg : PoolConfig)
    → decode fs ≡ ok cfg
    → weight cfg.template ≤ weight_of_fields fs

module _ {W : Type 0} (d : ℕ) (F G : Finders W) where
  abbrev Registered : Type 0
  Registered =
      Registration (Finders W) (Factory W (Source W)) (Factory W (Middleware W)) (Factory W (Fn W))

  -- What a registration has of the registry itself makes the same.
  abbrev Respects : Registered → Type 0
  Respects (fn_with_registry key f) = SameFactory d (f F) (f G)
  Respects (middleware_with_registry key f) = SameFactory d (f F) (f G)
  Respects (source_with_registry key f) = SameFactory d (f F) (f G)
  Respects _ = Unit

  fn_of-same :
      (key : String) (x : Registered) → Respects x → SameFound d (fn_of F key x) (fn_of G key x)
  fn_of-same key (fn_with_registry k f) h = SameFound-if d (str_eq k key) (f F) (f G) h
  fn_of-same key x h = SameFound-self d (fn_of F key x)

  middleware_of-same :
      (key : String) (x : Registered)
      → Respects x
      → SameFound d (middleware_of F key x) (middleware_of G key x)
  middleware_of-same key (middleware_with_registry k f) h =
      SameFound-if d (str_eq k key) (f F) (f G) h
  middleware_of-same key x h = SameFound-self d (middleware_of F key x)

  source_of-same :
      (key : String) (x : Registered)
      → Respects x
      → SameFound d (source_of F key x) (source_of G key x)
  source_of-same key (source_with_registry k f) h = SameFound-if d (str_eq k key) (f F) (f G) h
  source_of-same key x h = SameFound-self d (source_of F key x)

SameFound-along :
    {W I : Type 0} (d : ℕ) (p p' q q' : Option (Factory W I))
    → p ≡ p'
    → q ≡ q'
    → SameFound d p q
    → SameFound d p' q'
SameFound-along d p p' q q' e e' h =
    subst (λ x. SameFound d p' x) e' (subst (λ x. SameFound d x q) e h)

nothing_below : (n : ℕ) → ¬ (n < 0)
nothing_below n less = omega (arith, less)

All-weaken :
    {A : Type 0} {P Q : A → Type 0} (h : (x : A) → P x → Q x) (xs : List A) → All P xs → All Q xs
All-weaken h [] ps = tt
All-weaken h (x ∷ xs) (p, ps) = (h x p, All-weaken h xs ps)

module _ {Code W : Type 0} (libs : Libraries Code W) (packages : Packages W)
    (part : IsPart libs.decode_pool) where
  registrations-Respects :
      (d : ℕ) (F G : Finders W)
      → Agree d F G
      → All (Respects (suc d) F G) (registrations libs packages)
  unfolding registrations
  registrations-Respects d F G agree = (
    tt,
    (
      tt,
      (
        tt,
        (
          pool-same d F G agree libs part,
          (
            fn_loader-same d F G agree,
            (
              tt,
              (
                tt,
                (
                  tt,
                  (
                    tt,
                    (
                      tt,
                      (
                        tt,
                        (
                          tt,
                          (
                            tt,
                            (
                              tt,
                              (
                                tt,
                                (
                                  pipeline-same d F G agree,
                                  (
                                    tt,
                                    (
                                      tt,
                                      (tt, (tt, (tt, (tt, (source_loader-same d F G agree, tt))))),
                                    ),
                                  ),
                                ),
                              ),
                            ),
                          ),
                        ),
                      ),
                    ),
                  ),
                ),
              ),
            ),
          ),
        ),
      ),
    ),
  )

  -- Registries that agree are agreed with by the ones that lead to them, and on heavier data.
  main_finders-Agree :
      (d : ℕ) (F G : Finders W)
      → Agree d F G
      → Agree (suc d) (main_finders libs packages F) (main_finders libs packages G)
  unfolding main_finders
  main_finders-Agree d F G agree =
      let xs = registrations libs packages in
      let respects = registrations-Respects d F G agree in
      record {
        sources = SameFound-SameMade (suc d) _ _ (λ key.
            SameFound-along (suc d) _ _ _ _ (sym (find-register_all F xs key).2)
              (sym (find-register_all G xs key).2)
              (SameFound-last_of (suc d) (source_of F key) (source_of G key) xs none none
                (All-weaken (source_of-same (suc d) F G key) xs respects) tt));
        middlewares = SameFound-SameMade (suc d) _ _ (λ key.
            SameFound-along (suc d) _ _ _ _ (sym (find-register_all F xs key).1)
              (sym (find-register_all G xs key).1)
              (SameFound-last_of (suc d) (middleware_of F key) (middleware_of G key) xs none none
                (All-weaken (middleware_of-same (suc d) F G key) xs respects) tt));
        fns = SameFound-SameMade (suc d) _ _ (λ key.
            SameFound-along (suc d) _ _ _ _ (sym (find-register_all F xs key).0)
              (sym (find-register_all G xs key).0)
              (SameFound-last_of (suc d) (fn_of F key) (fn_of G key) xs none none
                (All-weaken (fn_of-same (suc d) F G key) xs respects) tt));
      }

  -- By induction on the weight, which each turn around the registry lowers.
  pub finders-Agree :
      (d m n : ℕ) → d ≤ m → d ≤ n → Agree d (finders libs packages m) (finders libs packages n)
  unfolding finders
  finders-Agree zero m n le le' = record {
    sources = λ missing key c less. absurd (nothing_below (weight c) less);
    middlewares = λ missing key c less. absurd (nothing_below (weight c) less);
    fns = λ missing key c less. absurd (nothing_below (weight c) less);
  }
  finders-Agree (suc d) zero n le le' = absurd (nothing_below d le)
  finders-Agree (suc d) (suc m) zero le le' = absurd (nothing_below d le')
  finders-Agree (suc d) (suc m) (suc n) le le' =
      main_finders-Agree d _ _ (finders-Agree d m n (omega (arith, le)) (omega (arith, le')))
