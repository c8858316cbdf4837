-- ===== src/Pool/Alone.antt =====
-- An invocation that runs alone, as Invoke computes it, is an execution of the calls' steps.
use fnrun.Prelude.{
  ◌++◌, ◌⊎◌, inl, inr, some, ℕ, ◌≤◌, ◌<◌, ◌≡◌, refl, sym, ap, subst, Bool, true, false, List, [],
  ◌∷◌, length, map, length-map, map-append_one, arith,
}
use fnrun.Value.{Value, null}
use fnrun.Exec.{Context, Reply, returns, panics, hangs, Fn}
use fnrun.Pool.{Channel, availability_timeout, invoke_channel}
use fnrun.Pool.Invoking.{channel, after_reply, kept-give_back}
use fnrun.Pool.Calls.{Calls, arrive, receive, finish, give_up, crash, Reach, here, next}

-- What the call `c` leaves behind, which runs `f` and leaves the others, by its reply.
abbrev pub Leaves : Reply → ℕ → ℕ → List ℕ → Calls → Calls → Type 0
Leaves (returns v e) c f rest s t =
    (t.free ≡ rest ++ f ∷ []) × (t.running ≡ s.running) × (t.lost ≡ s.lost)
Leaves panics c f rest s t = (t.free ≡ rest) × (t.running ≡ s.running) × (t.lost ≡ f ∷ s.lost)
Leaves hangs c f rest s t = (t.free ≡ rest) × (t.running ≡ (c, f) ∷ s.running) × (t.lost ≡ s.lost)

module _ {W : Type 0} (fns : ℕ → Fn W) (ctx : Context) (input : Value) where
  -- The call `c` has given up, with the timeout error, and nothing else has changed.
  abbrev pub IsRefused : ℕ → Calls → Calls → Reply × W → W → Type 0
  IsRefused c s t (reply, w') w =
      (reply ≡ returns null (some availability_timeout))
      × (w' ≡ w)
      × (t.free ≡ s.free)
      × (t.refused ≡ c ∷ s.refused)
      × (t.running ≡ s.running)
      × (t.lost ≡ s.lost)

  -- The call `c` has run the first free fn, and has its reply and effects.
  abbrev pub IsServed : ℕ → Calls → Calls → Reply × W → W → Type 0
  IsServed c s t (reply, w') w =
      (f : ℕ) × (rest : List ℕ) × (s.free ≡ f ∷ rest)
      × (◌≡◌ {A = Reply × W} (reply, w') (fns f ctx input w))
      × (t.refused ≡ s.refused)
      × Leaves reply c f rest s t

  -- An execution of the steps ends with the channel and the reply of the invocation.
  abbrev pub Simulates : ℕ → Calls → W → (Channel (Fn W) × Reply) × W → Type 0
  Simulates c s w ((ch, reply), w') =
      (t : Calls) × Reach s t
      × (ch ≡ channel t.capacity (map fns t.free))
      × (t.waiting ≡ s.waiting)
      × (IsRefused c s t (reply, w') w ⊎ IsServed c s t (reply, w') w)

  module _ (c f : ℕ) (rest : List ℕ) (s : Calls) (free : s.free ≡ f ∷ rest)
      (room : length rest < s.capacity) where
    -- The call has received `f`.
    abbrev received : Calls
    received = record s { free = rest; running = (c, f) ∷ s.running }

    receives : Reach s received
    receives = next (next here (arrive c)) (receive c f [] s.waiting rest refl free)

    replied :
        (reply : Reply) (w w' : W)
        → ◌≡◌ {A = Reply × W} (reply, w') (fns f ctx input w)
        → Simulates c s w
            ((channel s.capacity (after_reply (fns f) (map fns rest) reply), reply), w')
    replied (returns v e) w w' same = (
      _,
      next receives (finish c f [] s.running refl room),
      ap (channel s.capacity) (map-append_one fns rest f),
      refl,
      inr (f, rest, free, same, refl, (refl, refl, refl)),
    )
    replied panics w w' same = (
      _,
      next receives (crash c f [] s.running refl),
      refl,
      refl,
      inr (f, rest, free, same, refl, (refl, refl, refl)),
    )
    replied hangs w w' same =
        (received, receives, refl, refl, inr (f, rest, free, same, refl, (refl, refl, refl)))

  refused :
      (c : ℕ) (s : Calls) (w : W)
      → Simulates c s w
          ((channel s.capacity (map fns s.free), returns null (some availability_timeout)), w)
  refused c s w = (
    _,
    next (next here (arrive c)) (give_up c [] s.waiting refl),
    refl,
    refl,
    inl (refl, refl, refl, refl, refl, refl),
  )

  -- If the free fns fit the channel, and whatever other calls wait or run: an invocation that is not
  -- interrupted by them, as Invoke computes it from a channel with the free fns, is an execution of
  -- the calls' steps that ends with its channel. Either the call gives up, with the timeout error and
  -- without effects, or it runs the first free fn, with the reply and the effects of that fn: then the
  -- fn comes last if it returns, is lost if it panics, and is kept if it never returns.
  pub invoke-Simulates :
      (timer_first : Bool) (c : ℕ) (s : Calls) (w : W)
      → length s.free ≤ s.capacity
      → Simulates c s w
          (invoke_channel timer_first (channel s.capacity (map fns s.free)) ctx input w)
  unfolding invoke_channel
  invoke-Simulates true c s w fits = refused c s w
  invoke-Simulates false c s w fits = by_free s.free refl
    where
      by_free :
          (free : List ℕ)
          → s.free ≡ free
          → Simulates c s w (invoke_channel false (channel s.capacity (map fns free)) ctx input w)
      by_free [] e =
          subst
            (λ l.
              Simulates c s w
                ((channel s.capacity (map fns l), returns null (some availability_timeout)), w))
            e (refused c s w)
      by_free (f ∷ rest) e =
          let room : length rest < s.capacity = omega (arith, fits, ap length e) in
          subst (Simulates c s w)
            (ap (λ (q : Channel (Fn W) × Reply). (q, (fns f ctx input w).1))
              (sym (
                kept-give_back (fns f) (map fns rest) s.capacity (fns f ctx input w).0
                  (subst (λ n. n < s.capacity) (sym (length-map fns rest)) room))))
            (replied c f rest s e room (fns f ctx input w).0 w (fns f ctx input w).1 refl)
