-- ===== src/Middlewares/Limits.antt =====
-- run/middleware/ratelimiter and run/middleware/circuitbreaker.
pub mod Fixed
use fnrun.Prelude.{String, ◌≡◌, refl, Option, none, some}
use fnrun.Value.{Value, null, Fields}
use fnrun.Value.Int.{ℤ, pos}
use fnrun.Exec.{
  Context, Result, ok, err, panic, hang, Reply, returns, panics, hangs, Fn, Middleware, Method,
}

-- rlmiddleware. `limiter` is absent until the sync.Once has run.
pub record RateLimiter (L : Type 0) : Type 0 where
  pub burst : ℤ
  pub every : ℤ
  pub limiter : Option L

-- `rl.once.Do(...)`; the parameter is rate.NewLimiter at rate.Every(every) and the burst
abbrev pub limiter_of : {L : Type 0} → (ℤ → ℤ → L) → ℤ → ℤ → Option L → L
limiter_of new_limiter every burst none = new_limiter every burst
limiter_of new_limiter every burst (some l) = l

unfoldable pub initialized : {L : Type 0} → (ℤ → ℤ → L) → RateLimiter L → RateLimiter L × L
initialized new_limiter rl =
    let l = limiter_of new_limiter rl.every rl.burst rl.limiter in
    (record rl { limiter = some l }, l)

-- The rest of Invoke, on the result of the limiter's Wait.
abbrev pub admitted : {W : Type 0} → Result (Unit {0}) → Context → Value → Fn W → W → Reply × W
admitted (ok _) ctx input f w = f ctx input w
admitted (err e) ctx input f w = (returns null (some e), w)
admitted panic ctx input f w = (panics, w)
admitted hang ctx input f w = (hangs, w)

-- New
unfoldable pub new_limited : {L : Type 0} → RateLimiter L
new_limited = record { burst = pos 1; every = pos 1000000000; limiter = none }

module _ {L W : Type 0} where
  -- ConfigureMap: the decoder writes into the middleware itself, also when it fails
  unfoldable pub configure_map :
      (Fields → ℤ × ℤ → Result (Unit {0}) × ℤ × ℤ)
      → Fields
      → RateLimiter L
      → Method (RateLimiter L) W
  configure_map decode fs rl w =
      let (r, burst, every) = decode fs (rl.burst, rl.every) in
      (r, record rl { burst = burst; every = every }, w)

  -- Invoke; `wait` is the limiter's Wait, which spends time and a token
  unfoldable pub invoke_limited :
      (ℤ → ℤ → L)
      → (L → Context → W → Result (Unit {0}) × W)
      → RateLimiter L
      → Context
      → Value
      → Fn W
      → W
      → RateLimiter L × Reply × W
  unfolding initialized
  invoke_limited new_limiter wait rl ctx input f w =
      let (rl', l) = initialized new_limiter rl in
      let (r, w₁) = wait l ctx w in let (reply, w₂) = admitted r ctx input f w₁ in (rl', reply, w₂)

-- breakerConfig, toSettings
pub record BreakerConfig : Type 0 where
  pub name : String
  pub max_requests : ℤ
  pub interval : ℤ
  pub timeout : ℤ

-- circuitBreakerMiddleware, over gobreaker's CircuitBreaker
pub record CircuitBreaker (Cb : Type 0) : Type 0 where
  pub cb : Option Cb

-- New
unfoldable pub new_broken : {Cb : Type 0} → CircuitBreaker Cb
new_broken = record { cb = none }

module _ {Cb W : Type 0} where
  -- ConfigureMap: the error of Decode is dropped; the parameters are mapstructure.Decode from the zero
  -- struct, and gobreaker.NewCircuitBreaker
  unfoldable pub configure_breaker :
      (Fields → BreakerConfig)
      → (BreakerConfig → Cb)
      → Fields
      → CircuitBreaker Cb
      → Method (CircuitBreaker Cb) W
  configure_breaker decode new_breaker fs c w =
      (ok tt, record c { cb = some (new_breaker (decode fs)) }, w)

  -- Invoke; `execute` is the breaker's Execute. Without a configuration the breaker is nil.
  unfoldable pub invoke_broken :
      (Cb → (W → Reply × W) → W → Reply × W) → CircuitBreaker Cb → Middleware W
  invoke_broken execute c ctx input f w = elim c.cb [
    | none ↦ (panics, w)
    | some cb ↦ execute cb (λ u. f ctx input u) w
  ]

module _ {L W : Type 0} (new_limiter : ℤ → ℤ → L)
    (wait : L → Context → W → Result (Unit {0}) × W) where
  -- The first invocation fixes the limiter: whatever is configured afterwards, the next invocation
  -- waits on the same one, and only what its Wait decides lets the fn run.
  invoke_limited-configure_map :
      (decode : Fields → ℤ × ℤ → Result (Unit {0}) × ℤ × ℤ) (fs : Fields) (rl : RateLimiter L)
      (ctx ctx' : Context) (input input' : Value) (f f' : Fn W) (w u v : W)
      → (l : L) × ((invoke_limited new_limiter wait rl ctx input f w).0.limiter ≡ some l)
        × ((invoke_limited new_limiter wait
              (configure_map decode fs (invoke_limited new_limiter wait rl ctx input f w).0 u).1
              ctx'
              input'
              f'
              v).1
            ≡ (admitted (wait l ctx' v).0 ctx' input' f' (wait l ctx' v).1).0)
  unfolding invoke_limited configure_map
  invoke_limited-configure_map decode fs rl ctx ctx' input input' f f' w u v =
      (limiter_of new_limiter rl.every rl.burst rl.limiter, refl, refl)
