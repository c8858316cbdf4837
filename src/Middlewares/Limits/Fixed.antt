-- ===== src/Middlewares/Limits/Fixed.antt =====
-- Calls of one rate limiter, one after the other: which limiter they wait on.
use fnrun.Prelude.{◌≡◌, refl, ap, ◌∙◌, Option, none, some, List, [], ◌∷◌}
use fnrun.Value.{Value, null, Fields}
use fnrun.Value.Int.{ℤ}
use fnrun.Exec.{Context, Result, ok, err, panic, hang, Reply, returns, panics, hangs, Fn}
use fnrun.Middlewares.Limits.{
  RateLimiter, initialized, limiter_of, admitted, configure_map, invoke_limited,
}

-- A call of Invoke or of ConfigureMap.
pub data Call (W : Type 0) : Type 0 where
  invoking : Context → Value → Fn W → Call W
  configuring : Fields → Call W

module _ {L W : Type 0} (new_limiter : ℤ → ℤ → L) (wait : L → Context → W → Result (Unit {0}) × W)
    (decode : Fields → ℤ × ℤ → Result (Unit {0}) × ℤ × ℤ) where
  -- The replies of the invocations, and the world that is left.
  unfoldable pub calls : RateLimiter L → List (Call W) → W → List Reply × W
  unfolding invoke_limited configure_map
  calls rl [] w = ([], w)
  calls rl (invoking ctx input f ∷ cs) w =
      let (rl', reply, w₁) = invoke_limited new_limiter wait rl ctx input f w in
      let (replies, w₂) = calls rl' cs w₁ in (reply ∷ replies, w₂)
  calls rl (configuring fs ∷ cs) w =
      let (r, rl', w₁) = configure_map decode fs rl w in calls rl' cs w₁

  -- The fn runs, where the wait has ended, if the limiter lets it; a refusal is the error.
  abbrev when_let : Result (Unit {0}) → (W → Reply × W) → W → Reply × W
  when_let (ok _) run w = run w
  when_let (err e) run w = (returns null (some e), w)
  when_let panic run w = (panics, w)
  when_let hang run w = (hangs, w)

  admitted-when_let :
      (r : Result (Unit {0})) (ctx : Context) (input : Value) (f : Fn W) (w : W)
      → admitted r ctx input f w ≡ when_let r (f ctx input) w
  admitted-when_let (ok _) ctx input f w = refl
  admitted-when_let (err e) ctx input f w = refl
  admitted-when_let panic ctx input f w = refl
  admitted-when_let hang ctx input f w = refl

  -- All invocations wait on one limiter, and configuring does nothing.
  limited : L → List (Call W) → W → List Reply × W
  limited l [] w = ([], w)
  limited l (invoking ctx input f ∷ cs) w =
      let (r, w₁) = wait l ctx w in
      let (reply, w₂) = when_let r (f ctx input) w₁ in
      let (replies, w₃) = limited l cs w₂ in (reply ∷ replies, w₃)
  limited l (configuring fs ∷ cs) w = limited l cs w

  -- Configuring changes the burst and the interval up to the first invocation, which makes the limiter.
  pub unlimited : ℤ × ℤ → List (Call W) → W → List Reply × W
  unfolding limited
  unlimited (burst, every) [] w = ([], w)
  unlimited (burst, every) (configuring fs ∷ cs) w =
      let (r, burst', every') = decode fs (burst, every) in unlimited (burst', every') cs w
  unlimited (burst, every) (invoking ctx input f ∷ cs) w =
      limited (new_limiter every burst) (invoking ctx input f ∷ cs) w

  abbrev with_limiter : RateLimiter L → L → RateLimiter L
  with_limiter rl l = record rl { limiter = some l }

  -- An invocation, by the limiter that it finds or makes.
  calls-invoking :
      (rl : RateLimiter L) (o : Option L) (ctx : Context) (input : Value) (f : Fn W)
      (cs : List (Call W)) (w : W)
      → rl.limiter ≡ o
      → ((l : L) (v : W) → calls (with_limiter rl l) cs v ≡ limited l cs v)
      → calls rl (invoking ctx input f ∷ cs) w
        ≡ limited (limiter_of new_limiter rl.every rl.burst o) (invoking ctx input f ∷ cs) w
  unfolding calls limited invoke_limited initialized
  calls-invoking rl o ctx input f cs w e rest =
      let l = limiter_of new_limiter rl.every rl.burst rl.limiter in
      let (r, w₁) = wait l ctx w in
      let (reply, w₂) = admitted r ctx input f w₁ in
      ap (λ (z : List Reply × W). (reply ∷ z.0, z.1)) (rest l w₂)
      ∙ ap (λ (y : Reply × W). let (replies, w₃) = limited l cs y.1 in (y.0 ∷ replies, w₃))
          (admitted-when_let r ctx input f w₁)
      ∙ ap (λ x. limited (limiter_of new_limiter rl.every rl.burst x) (invoking ctx input f ∷ cs) w)
          e

  calls-limited :
      (rl : RateLimiter L) (l : L) (cs : List (Call W)) (w : W)
      → rl.limiter ≡ some l
      → calls rl cs w ≡ limited l cs w
  unfolding calls limited
  calls-limited rl l [] w e = refl
  calls-limited rl l (invoking ctx input f ∷ cs) w e =
      calls-invoking rl (some l) ctx input f cs w e
        (λ l' v. calls-limited (with_limiter rl l') l' cs v refl)
  calls-limited rl l (configuring fs ∷ cs) w e =
      let (r, burst, every) = decode fs (rl.burst, rl.every) in
      calls-limited (record rl { burst = burst; every = every }) l cs w e

  -- From a middleware that has not been invoked, whatever invocations and configurations follow one
  -- another: the configurations up to the first invocation set the burst and the interval of one
  -- limiter, all invocations wait on it, the fn runs only if it lets them, and no later
  -- configuration has an effect.
  pub calls-unlimited :
      (rl : RateLimiter L) (cs : List (Call W)) (w : W)
      → rl.limiter ≡ none
      → calls rl cs w ≡ unlimited (rl.burst, rl.every) cs w
  unfolding calls unlimited
  calls-unlimited rl [] w e = refl
  calls-unlimited rl (invoking ctx input f ∷ cs) w e =
      calls-invoking rl none ctx input f cs w e
        (λ l v. calls-limited (record rl { limiter = some l }) l cs v refl)
  calls-unlimited rl (configuring fs ∷ cs) w e =
      let (r, burst, every) = decode fs (rl.burst, rl.every) in
      calls-unlimited (record rl { burst = burst; every = every }) cs w e
