-- ===== src/Pool/Filling.antt =====
-- The loop of ConfigureMap: the fns are made one after the other from the template, and sent to a
-- channel that has room for them.
use fnrun.Prelude.{
  ℕ, zero, suc, ◌+◌, ◌≤◌, ◌<◌, ◌≡◌, refl, sym, ap, subst, ◌∙◌, ◌↔◌, some, List, [], ◌∷◌, ◌++◌,
  length, length-append, append_assoc, append-nil, arith, lt→ltb,
}
use fnrun.Value.{Value}
use fnrun.Value.Int.{ℤ, pos, negsuc}
use fnrun.Exec.{ok, Fn, then_method-eq-ok, ok-then_method}
use fnrun.Registry.{Finders}
use fnrun.Pool.{PoolFn, send, create_fn_from_template, offer, fill, make_fns}

-- A pool by its parts, with a channel.
abbrev pub pool_of : {W : Type 0} → ℤ → Finders W → ℕ → List (Fn W) → PoolFn W
pool_of wait registry capacity queue = record {
  max_wait_duration = wait;
  registry = registry;
  fn_chan = some (record { capacity = capacity; queue = queue });
}

module _ {W : Type 0} (registry : Finders W) (template : Value) where
  -- So many fns are made from the template, each in the world that the one before it left.
  pub data CreatesAll : ℕ → W → List (Fn W) → W → Type 0 where
    no_more : {w : W} → CreatesAll zero w [] w
    one_more :
        {n : ℕ} {w u w' : W} {f : Fn W} {fns : List (Fn W)}
        → create_fn_from_template registry template w ≡ (ok f, u)
        → CreatesAll n u fns w'
        → CreatesAll (suc n) w (f ∷ fns) w'

  pub length-CreatesAll :
      (n : ℕ) (w : W) (fns : List (Fn W)) (w' : W) → CreatesAll n w fns w' → length fns ≡ n
  length-CreatesAll n w fns w' no_more = refl
  length-CreatesAll n w fns w' (one_more {n = m} {u} {fns = rest} e c) =
      ap suc (length-CreatesAll m u rest w' c)

  module _ (wait : ℤ) (capacity : ℕ) where
    offer-pool_of :
        (queue : List (Fn W)) (f : Fn W)
        → length queue < capacity
        → offer (pool_of wait registry capacity queue) f
          ≡ some (pool_of wait registry capacity (queue ++ f ∷ []))
    unfolding offer
    offer-pool_of queue f h = rw (offer, send, lt→ltb _ _ h)

    fill-suc :
        (n : ℕ) (queue : List (Fn W)) (w : W) (f : Fn W) (u : W)
        → length queue < capacity
        → create_fn_from_template registry template w ≡ (ok f, u)
        → fill (suc n) template (pool_of wait registry capacity queue) w
          ≡ fill n template (pool_of wait registry capacity (queue ++ f ∷ [])) u
    unfolding fill
    fill-suc n queue w f u h e =
        ok-then_method (create_fn_from_template registry template) _ _ w e
        ∙ rw (offer-pool_of queue f h)

    CreatesAll-fill :
        (n : ℕ) (queue : List (Fn W)) (w : W) (fns : List (Fn W)) (w' : W)
        → length queue + n ≤ capacity
        → CreatesAll n w fns w'
        → fill n template (pool_of wait registry capacity queue) w
          ≡ (ok tt, pool_of wait registry capacity (queue ++ fns), w')
    unfolding fill
    CreatesAll-fill n queue w fns w' h no_more = rw append-nil
    CreatesAll-fill n queue w fns w' h (one_more {n = m} {u} {f} {fns = rest} e c) =
        fill-suc m queue w f u (omega arith) e
        ∙ CreatesAll-fill m (queue ++ f ∷ []) u rest w'
            (omega (arith, length-append queue (f ∷ []))) c
        ∙ ap (λ q. (ok tt, pool_of wait registry capacity q, w')) (append_assoc queue (f ∷ []) rest)

    fill-CreatesAll :
        (n : ℕ) (queue : List (Fn W)) (w : W) (p' : PoolFn W) (w' : W)
        → length queue + n ≤ capacity
        → fill n template (pool_of wait registry capacity queue) w ≡ (ok tt, p', w')
        → (fns : List (Fn W)) × CreatesAll n w fns w'
          × (p' ≡ pool_of wait registry capacity (queue ++ fns))
    unfolding fill
    fill-CreatesAll zero queue w p' w' h e =
        let ep : pool_of wait registry capacity queue ≡ p' = cc in
        let ew : w ≡ w' = cc in
        (
          [],
          subst (λ v. CreatesAll zero w [] v) ew no_more,
          sym ep ∙ ap (pool_of wait registry capacity) (sym (append-nil queue)),
        )
    fill-CreatesAll (suc n) queue w p' w' h e =
        let (f, u, e₁, e₂) =
          then_method-eq-ok (create_fn_from_template registry template) _ _ w e in
        let e₃ = sym (fill-suc n queue w f u (omega arith) e₁) ∙ e in
        let (fns, c, ep) =
          fill-CreatesAll n (queue ++ f ∷ []) u p' w' (omega (arith, length-append queue (f ∷ [])))
            e₃ in
        (
          f ∷ fns,
          one_more e₁ c,
          ep ∙ ap (pool_of wait registry capacity) (append_assoc queue (f ∷ []) fns),
        )

module _ {W : Type 0} where
  -- The size of the pool, and the fns in it, for a size that make accepts.
  pub make_fns_iff :
      (n : ℕ) (template : Value) (p : PoolFn W) (w : W) (p' : PoolFn W) (w' : W)
      → (make_fns (pos n) template p w ≡ (ok tt, p', w')) ↔ (
          (fns : List (Fn W)) × CreatesAll p.registry template n w fns w'
          × (p' ≡ pool_of p.max_wait_duration p.registry n fns))
  unfolding make_fns
  make_fns_iff n template p w p' w' = (
    fill-CreatesAll p.registry template p.max_wait_duration n n [] w p' w' (omega arith),
    λ r.
        CreatesAll-fill p.registry template p.max_wait_duration n n [] w r.0 w' (omega arith) r.1
        ∙ ap (λ (q : PoolFn W). (ok tt, q, w')) (sym r.2),
  )

  pub make_fns-eq-ok :
      (z : ℤ) (template : Value) (p : PoolFn W) (w : W) (p' : PoolFn W) (w' : W)
      → make_fns z template p w ≡ (ok tt, p', w')
      → (n : ℕ) × (fns : List (Fn W)) × (z ≡ pos n)
        × CreatesAll p.registry template n w fns w'
        × (p' ≡ pool_of p.max_wait_duration p.registry n fns)
  unfolding make_fns
  make_fns-eq-ok (pos n) template p w p' w' h =
      let (fns, c, e) = (make_fns_iff n template p w p' w').0 h in (n, fns, refl, c, e)
  make_fns-eq-ok (negsuc n) template p w p' w' h = cc
