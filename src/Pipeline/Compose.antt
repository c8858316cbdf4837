-- ===== src/Pipeline/Compose.antt =====
-- `compose` runs the first middleware around the second, and so on, and the fn innermost.
use fnrun.Prelude.{
  ℕ, zero, suc, ◌≡◌, refl, sym, ap, ◌∙◌, none, some, List, [], ◌∷◌, ◌++◌, length, get_elem?,
}
use fnrun.Value.{Value}
use fnrun.Exec.{Context, Fn, Middleware}
use fnrun.Pipeline.{identity_middleware, composed_middleware, compose_from, compose}

module _ {W : Type 0} where
  -- What a pipeline promises, without the loop.
  unfoldable pub nest : List (Middleware W) → Fn W → Fn W
  nest [] f = f
  nest (m ∷ ms) f = λ ctx input w. m ctx input (nest ms f) w

  compose_from-cons :
      (m : Middleware W) (ms : List (Middleware W)) (i : ℕ) (c : Middleware W)
      → compose_from (m ∷ ms) (suc i) c ≡ composed_middleware m (compose_from ms i c)
  unfolding compose_from
  compose_from-cons m ms zero c = refl
  compose_from-cons m ms (suc i) c =
      compose_from-cons m ms i
        (elim (get_elem? ms i) [ some n ↦ composed_middleware n c | none ↦ c ])

  pub compose-cons :
      (m : Middleware W) (ms : List (Middleware W))
      → compose (m ∷ ms) ≡ composed_middleware m (compose ms)
  unfolding compose
  compose-cons m ms = compose_from-cons m ms (length ms) identity_middleware

  -- Invoking the composition of a list of middlewares is invoking the first one around the second,
  -- and so on, with the fn innermost; of no middleware it is invoking the fn.
  pub compose-nest :
      (ms : List (Middleware W)) (f : Fn W) (ctx : Context) (input : Value) (w : W)
      → compose ms ctx input f w ≡ nest ms f ctx input w
  unfolding compose nest composed_middleware identity_middleware
  compose-nest [] f ctx input w = refl
  compose-nest (m ∷ ms) f ctx input w =
      ap (λ (c : Middleware W). c ctx input f w) (compose-cons m ms) ∙ λ i.
      m ctx input (λ ctx' input' w'. compose-nest ms f ctx' input' w' i) w

  -- A pipeline of two pipelines is the pipeline of the two lists together.
  compose-append :
      (ms ns : List (Middleware W))
      → compose (ms ++ ns) ≡ composed_middleware (compose ms) (compose ns)
  unfolding compose composed_middleware identity_middleware
  compose-append [] ns = refl
  compose-append (m ∷ ms) ns =
      compose-cons m (ms ++ ns)
      ∙ ap (composed_middleware m) (compose-append ms ns)
      ∙ ap (λ c. composed_middleware c (compose ns)) (sym (compose-cons m ms))
