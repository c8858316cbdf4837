-- ===== src/Pool/Configuring.antt =====
-- ConfigureMap: the waiting time, the size and the fns of a pool.
use fnrun.Prelude.{
  ℕ, zero, suc, ◌≤◌, arith, String, ◌≡◌, refl, sym, ap, subst, ◌∙◌, ◌↔◌, List, Bool-cases, str_eq,
  eq_iff, ◌⊎◌, ◌≢◌, inl, inr,
}
use fnrun.Value.{Fields}
use fnrun.Value.Int.{ℤ, pos, negsuc, pos_part}
use fnrun.Exec.{
  Result, ok, err, panic, hang, continue_method, Fn, Method, then_method, then_method-eq-ok,
  ok-then_method,
}
use mathlib.Core.Bool.{false≢true}
use fnrun.Pool.{PoolFn, PoolConfig, or_default, make_fns, parsed_wait, configure_map}
use fnrun.Pool.Filling.{pool_of, CreatesAll, make_fns_iff, make_fns-eq-ok}

-- The time that a pool waits for a free fn: as configured, or as it was if no duration is given.
abbrev pub WaitIs : (String → Result ℤ) → String → ℤ → ℤ → Type 0
WaitIs parse_duration s before d =
    ((s ≡ "") × (d ≡ before)) ⊎ ((s ≢ "") × (parse_duration s ≡ ok d))

-- How many fns a pool is to have: 8 if the configuration does not say, and else what it says.
abbrev pub IsConcurrency : ℤ → ℕ → Type 0
IsConcurrency z n = ((z ≡ pos 0) × (n ≡ 8)) ⊎ ((z ≡ pos n) × (1 ≤ n))

or_default-IsConcurrency : (z : ℤ) (n : ℕ) → or_default z ≡ pos n → IsConcurrency z n
unfolding or_default
or_default-IsConcurrency (pos zero) n h = inl (refl, cc)
or_default-IsConcurrency (pos (suc k)) n h = inr (h, subst (λ z. 1 ≤ pos_part z) h (omega arith))
or_default-IsConcurrency (negsuc k) n h = cc

IsConcurrency-or_default : (z : ℤ) (n : ℕ) → IsConcurrency z n → or_default z ≡ pos n
unfolding or_default
IsConcurrency-or_default (pos zero) n (inl (e, e')) = ap pos (sym e')
IsConcurrency-or_default (pos (suc k)) n (inl (e, e')) = absurd (omega (arith, ap pos_part e))
IsConcurrency-or_default (negsuc k) n (inl (e, e')) = cc
IsConcurrency-or_default (pos zero) n (inr (e, e')) = absurd (omega (arith, ap pos_part e, e'))
IsConcurrency-or_default (pos (suc k)) n (inr (e, e')) = e
IsConcurrency-or_default (negsuc k) n (inr (e, e')) = e

module _ {W : Type 0} (parse_duration : String → Result ℤ) where
  parsed_wait-WaitIs :
      (s : String) (before d : ℤ) (w u : W)
      → parsed_wait parse_duration s before w ≡ (ok d, u)
      → WaitIs parse_duration s before d × (w ≡ u)
  unfolding parsed_wait
  parsed_wait-WaitIs s before d w u h = elim (Bool-cases (str_eq s "")) [
    | inl b ↦
        let h' : ◌≡◌ {A = Result ℤ × W} (ok before, w) (ok d, u) = rw (b, parsed_wait) at h in
        (inl ((eq_iff s "").0 b, cc), cc)
    | inr b ↦
        let h' : ◌≡◌ {A = Result ℤ × W} (parse_duration s, w) (ok d, u) =
          rw (b, parsed_wait) at h in
        (inr (λ e. false≢true (sym b ∙ (eq_iff s "").1 e), cc), cc)
  ]

  WaitIs-parsed_wait :
      (s : String) (before d : ℤ) (w : W)
      → WaitIs parse_duration s before d
      → parsed_wait parse_duration s before w ≡ (ok d, w)
  unfolding parsed_wait
  WaitIs-parsed_wait s before d w (inl (e, e')) = rw ((eq_iff s "").1 e, parsed_wait, e')
  WaitIs-parsed_wait s before d w (inr (e, e')) = elim (Bool-cases (str_eq s "")) [
    | inl b ↦ absurd (e ((eq_iff s "").0 b))
    | inr b ↦ rw (b, parsed_wait, e')
  ]

  module _ (p : PoolFn W) (cfg : PoolConfig) where
    make_from : Method (PoolFn W) W
    make_from =
        then_method (parsed_wait parse_duration cfg.max_wait_duration p.max_wait_duration)
          (λ d.
            make_fns (or_default cfg.concurrency) cfg.template (record p { max_wait_duration = d }))
          p

    -- What a decoded configuration makes of a pool.
    abbrev pub Filled : W → PoolFn W → W → Type 0
    Filled w p' w' =
        (n : ℕ) × (d : ℤ) × (fns : List (Fn W)) × WaitIs parse_duration cfg.max_wait_duration
          p.max_wait_duration d
        × IsConcurrency cfg.concurrency n
        × CreatesAll p.registry cfg.template n w fns w'
        × (p' ≡ pool_of d p.registry n fns)

    make_from-Filled :
        (w : W) (p' : PoolFn W) (w' : W) → make_from w ≡ (ok tt, p', w') → Filled w p' w'
    unfolding make_from
    make_from-Filled w p' w' h =
        let (d, u, e, h') =
          then_method-eq-ok (parsed_wait parse_duration cfg.max_wait_duration p.max_wait_duration) _
            p w h in
        let (wait, ew) = parsed_wait-WaitIs cfg.max_wait_duration p.max_wait_duration d w u e in
        let (n, fns, ez, c, ep) =
          make_fns-eq-ok (or_default cfg.concurrency) cfg.template
            (record p { max_wait_duration = d }) u p' w' h' in
        (
          n,
          d,
          fns,
          wait,
          or_default-IsConcurrency cfg.concurrency n ez,
          subst (λ v. CreatesAll p.registry cfg.template n v fns w') (sym ew) c,
          ep,
        )

    Filled-make_from :
        (w : W) (p' : PoolFn W) (w' : W) → Filled w p' w' → make_from w ≡ (ok tt, p', w')
    unfolding make_from
    Filled-make_from w p' w' (n, d, fns, wait, ez, c, ep) =
        ok-then_method (parsed_wait parse_duration cfg.max_wait_duration p.max_wait_duration) _ p w
          (WaitIs-parsed_wait cfg.max_wait_duration p.max_wait_duration d w wait)
        ∙ ap (λ z. make_fns z cfg.template (record p { max_wait_duration = d }) w)
            (IsConcurrency-or_default cfg.concurrency n ez)
        ∙ (make_fns_iff n cfg.template (record p { max_wait_duration = d }) w p' w').1 (fns, c, ep)

module _ {W : Type 0} (decode : Fields → Result PoolConfig) (parse_duration : String → Result ℤ)
    (fs : Fields) (p : PoolFn W) (w : W) where
  decoded-Filled :
      (r : Result PoolConfig) (p' : PoolFn W) (w' : W)
      → continue_method r (make_from parse_duration p) p w ≡ (ok tt, p', w')
      → (cfg : PoolConfig) × (r ≡ ok cfg) × Filled parse_duration p cfg w p' w'
  decoded-Filled (ok cfg) p' w' h = (cfg, refl, make_from-Filled parse_duration p cfg w p' w' h)
  decoded-Filled (err e) p' w' h = cc
  decoded-Filled panic p' w' h = cc
  decoded-Filled hang p' w' h = cc

  -- Configuring a pool succeeds exactly when the configuration decodes, its duration parses, its
  -- concurrency (8 in place of 0) is not negative, and the template makes so many fns in a row; the
  -- channel then holds just these fns, and is full.
  pub configure_pool_iff :
      (p' : PoolFn W) (w' : W)
      → (configure_map decode parse_duration fs p w ≡ (ok tt, p', w'))
        ↔ ((cfg : PoolConfig) × (decode fs ≡ ok cfg) × Filled parse_duration p cfg w p' w')
  unfolding configure_map make_from
  configure_pool_iff p' w' = (
    decoded-Filled (decode fs) p' w',
    λ (cfg, e, filled).
        ap (λ r. continue_method r (make_from parse_duration p) p w) e
        ∙ Filled-make_from parse_duration p cfg w p' w' filled,
  )

  -- If the configuration decodes and its duration parses, a negative concurrency panics, before any fn
  -- is made.
  configure_pool-negative :
      (cfg : PoolConfig) (n : ℕ) (d : ℤ)
      → decode fs ≡ ok cfg
      → WaitIs parse_duration cfg.max_wait_duration p.max_wait_duration d
      → cfg.concurrency ≡ negsuc n
      → configure_map decode parse_duration fs p w ≡ (panic, record p { max_wait_duration = d }, w)
  unfolding configure_map make_from make_fns or_default
  configure_pool-negative cfg n d e wait neg =
      ap (λ r. continue_method r (make_from parse_duration p) p w) e
      ∙ ok-then_method (parsed_wait parse_duration cfg.max_wait_duration p.max_wait_duration) _ p w
          (WaitIs-parsed_wait parse_duration cfg.max_wait_duration p.max_wait_duration d w wait)
      ∙ ap (λ z. make_fns (or_default z) cfg.template (record p { max_wait_duration = d }) w) neg
