-- ===== src/Pool/Invoking.antt =====
-- One invocation of a pool that runs alone.
use fnrun.Prelude.{
  ℕ, ◌≤◌, ◌<◌, ◌≡◌, refl, ap, ◌⊎◌, inl, inr, Bool, true, false, Option, none, some, List, [], ◌∷◌,
  ◌++◌, length, lt→ltb, if◌then◌else◌,
}
use fnrun.Value.{Value, null}
use fnrun.Exec.{Context, Reply, returns, panics, hangs, Fn}
use fnrun.Pool.{Channel, availability_timeout, send, sent, give_back, kept, invoke_channel}

module _ {A : Type 0} where
  -- The free fns after `f`, taken from the front, has replied: it comes last, but is not put back if
  -- it has panicked or has never returned.
  abbrev pub after_reply : A → List A → Reply → List A
  after_reply f rest (returns output e) = rest ++ f ∷ []
  after_reply f rest panics = rest
  after_reply f rest hangs = rest

  abbrev pub channel : ℕ → List A → Channel A
  channel capacity queue = record { capacity = capacity; queue = queue }

  send-room :
      (f : A) (rest : List A) (capacity : ℕ)
      → length rest < capacity
      → send (channel capacity rest) f ≡ some (channel capacity (rest ++ f ∷ []))
  unfolding send
  send-room f rest capacity h =
      ap (λ b. if b then some (channel capacity (rest ++ f ∷ [])) else none)
        (lt→ltb (length rest) capacity h)

  pub kept-give_back :
      (f : A) (rest : List A) (capacity : ℕ) (r : Reply)
      → length rest < capacity
      → kept (channel capacity rest) (give_back f (channel capacity rest) r)
        ≡ (channel capacity (after_reply f rest r), r)
  unfolding give_back
  kept-give_back f rest capacity (returns output e) h =
      ap (λ (o : Option (Channel A)). kept (channel capacity rest) (sent o output e))
        (send-room f rest capacity h)
  kept-give_back f rest capacity panics h = refl
  kept-give_back f rest capacity hangs h = refl

module _ {W : Type 0} where
  -- An invocation of a pool either gives the timeout error, with the pool and the world unchanged,
  -- and then the timer has fired or no fn is free; or it is the invocation of the first free fn, with
  -- that fn's reply and effects, and the fn is put back behind the others if it returns.
  invoke_cases :
      (timer_first : Bool) (capacity : ℕ) (queue : List (Fn W)) (ctx : Context) (input : Value)
      (w : W)
      → length queue ≤ capacity
      → ((invoke_channel timer_first (channel capacity queue) ctx input w
            ≡ ((channel capacity queue, returns null (some availability_timeout)), w))
          × ((timer_first ≡ true) ⊎ (queue ≡ [])))
        ⊎ ((f : Fn W) × (rest : List (Fn W)) × (timer_first ≡ false)
            × (queue ≡ f ∷ rest)
            × (invoke_channel timer_first (channel capacity queue) ctx input w ≡ (
              (channel capacity (after_reply f rest (f ctx input w).0), (f ctx input w).0),
              (f ctx input w).1,
            )))
  unfolding invoke_channel
  invoke_cases true capacity queue ctx input w h = inl (refl, inl refl)
  invoke_cases false capacity [] ctx input w h = inl (refl, inr refl)
  invoke_cases false capacity (f ∷ rest) ctx input w h = inr (
    f,
    rest,
    refl,
    refl,
    ap (λ (q : Channel (Fn W) × Reply). (q, (f ctx input w).1))
        (kept-give_back f rest capacity (f ctx input w).0 h),
  )
