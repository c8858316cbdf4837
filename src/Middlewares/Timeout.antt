-- ===== src/Middlewares/Timeout.antt =====
-- run/middleware/timeout: a deadline on the context.
use fnrun.Prelude.{
  String, ◌≡◌, refl, ◌⊎◌, inl, inr, Option, none, some, arith, if◌then◌else◌, Bool-cases, ltb→lt,
  le_of_ltb,
}
use fnrun.Value.Int.{ℤ, pos, ltb_ℤ, ◌≤ℤ◌, ◌+ℤ◌}
use fnrun.Value.{Value}
use fnrun.Exec.{Context, Result, Method, Fn, Middleware, then_assign}

-- timeoutMiddleware; nanoseconds
pub record TimeoutMiddleware : Type 0 where
  pub duration : ℤ

-- context.WithDeadline: a deadline of the parent that is earlier stays
unfoldable pub earlier : Option ℤ → ℤ → Option ℤ
earlier none d = some d
earlier (some parent) d = if ltb_ℤ parent d then some parent else some d

unfoldable pub with_deadline : Context → ℤ → Context
unfolding earlier
with_deadline ctx d = record { deadline = earlier ctx.deadline d }

-- New and NewWithDuration
unfoldable pub new_with_duration : ℤ → TimeoutMiddleware
new_with_duration duration = record { duration = duration }

unfoldable pub new : TimeoutMiddleware
unfolding new_with_duration
new = new_with_duration (pos 30000000000)

module _ {W : Type 0} where
  -- ConfigureString; the parameter is time.ParseDuration
  unfoldable pub configure_string :
      (String → Result ℤ) → String → TimeoutMiddleware → Method TimeoutMiddleware W
  configure_string parse_duration s t =
      then_assign (λ w. (parse_duration s, w)) (λ d. record t { duration = d }) t

  -- Invoke; `now` is the clock, and cancel only releases the new context
  unfoldable pub invoke : (W → ℤ) → TimeoutMiddleware → Middleware W
  unfolding with_deadline ◌+ℤ◌
  invoke now t ctx input f w = f (with_deadline ctx (now w +ℤ t.duration)) input w

-- A deadline that is no later than another; no deadline is the latest.
abbrev pub NotAfter : Option ℤ → Option ℤ → Type 0
NotAfter a none = Unit
NotAfter none (some b) = ⊥
NotAfter (some a) (some b) = ◌≤ℤ◌ a b

earlier-NotAfter_new : (p : Option ℤ) (d : ℤ) → NotAfter (earlier p d) (some d)
unfolding earlier
earlier-NotAfter_new none d = omega arith
earlier-NotAfter_new (some p) d = elim (Bool-cases (ltb_ℤ p d)) [
  | inl b ↦ rw (b, earlier) (omega (arith, ltb→lt _ _ b))
  | inr b ↦ rw (b, earlier) (omega arith)
]

earlier-NotAfter_parent : (p : Option ℤ) (d : ℤ) → NotAfter (earlier p d) p
unfolding earlier
earlier-NotAfter_parent none d = tt
earlier-NotAfter_parent (some p) d = elim (Bool-cases (ltb_ℤ p d)) [
  | inl b ↦ rw (b, earlier) (omega arith)
  | inr b ↦ rw (b, earlier) (omega (arith, le_of_ltb _ _ b))
]

earlier_cases : (p : Option ℤ) (d : ℤ) → (earlier p d ≡ some d) ⊎ (earlier p d ≡ p)
unfolding earlier
earlier_cases none d = inl refl
earlier_cases (some p) d = elim (Bool-cases (ltb_ℤ p d)) [
  | inl b ↦ inr (rw (b, earlier))
  | inr b ↦ inl (rw (b, earlier))
]

module _ {W : Type 0} where
  -- The fn runs once, in the same world and on the same input, under a context whose deadline is at
  -- most the duration away, is not after the caller's, and is one of the two.
  pub invoke_deadline :
      (now : W → ℤ) (t : TimeoutMiddleware) (ctx : Context) (input : Value) (f : Fn W) (w : W)
      → (ctx' : Context) × (invoke now t ctx input f w ≡ f ctx' input w)
        × NotAfter ctx'.deadline (some (now w +ℤ t.duration))
        × NotAfter ctx'.deadline ctx.deadline
        × ((ctx'.deadline ≡ some (now w +ℤ t.duration)) ⊎ (ctx'.deadline ≡ ctx.deadline))
  unfolding invoke
  invoke_deadline now t ctx input f w = (
    with_deadline ctx (now w +ℤ t.duration),
    refl,
    earlier-NotAfter_new ctx.deadline (now w +ℤ t.duration),
    earlier-NotAfter_parent ctx.deadline (now w +ℤ t.duration),
    earlier_cases ctx.deadline (now w +ℤ t.duration),
  )
