-- ===== src/Main/Pooled.antt =====
-- run/fn/pool/pool.go: a configured pool as an object of the world. The channel is at an address, and
-- has the fns by their numbers in the order in which they were made.
use fnrun.Prelude.{
  ℕ, ◌≤◌, ◌<◌, ◌≡◌, refl, ap, ◌∙◌, ◌⊎◌, inl, inr, Bool, true, false, Option, none, some, List, [],
  ◌∷◌, length, get_elem?, if◌then◌else◌,
}
use fnrun.Value.{Value, null}
use fnrun.Value.Int.{ℤ}
use fnrun.Exec.{Context, Reply, returns, hangs, ok, Fn, Exec}
use fnrun.Pool.{Channel, availability_timeout, give_back, kept}
use fnrun.Pool.Invoking.{channel, after_reply, kept-give_back}
use fnrun.Pool.Rotating.{range}
use fnrun.Main.Cells.{Cells, Memory}

-- Where the channels are, and whether time.After fires before the select looks at the channel.
pub record Pools (W : Type 0) : Type 0 where
  pub cells : Cells (Channel ℕ) W
  pub fires_first : ℤ → W → Bool

module _ {W : Type 0} (pools : Pools W) where
  abbrev pub timed_out : W → Reply × W
  timed_out w = (returns null (some availability_timeout), w)

  -- `p.fnChan <- f`, for the fn with the number `i`, and the results behind it
  abbrev pub give_back_at : ℕ → ℕ → Reply × W → Reply × W
  give_back_at a i (reply, w) =
      let c = pools.cells.read a w in
      let (c', r) = kept c (give_back i c reply) in (r, pools.cells.write a c' w)

  -- The case of Invoke that receives from the channel, by what there is to receive.
  abbrev pub receive_at : ℕ → (ℕ → Fn W) → List ℕ → Fn W
  receive_at a fns [] ctx input w = timed_out w
  receive_at a fns (i ∷ rest) ctx input w =
      give_back_at a i
        (fns i ctx input (pools.cells.write a (record (pools.cells.read a w) { queue = rest }) w))

  -- Invoke, called on the pool whose channel is at an address
  unfoldable pub pooled : ℤ → ℕ → (ℕ → Fn W) → Fn W
  unfolding give_back
  pooled duration a fns ctx input w =
      if pools.fires_first duration w
      then timed_out w
      else receive_at a fns (pools.cells.read a w).queue ctx input w

  -- The fn that is sent under a number.
  abbrev pub fn_number : List (Fn W) → ℕ → Fn W
  fn_number fns i ctx input w = elim (get_elem? fns i) [
    | none ↦ (hangs, w)
    | some f ↦ f ctx input w
  ]

  -- A configured pool, by its duration and the channel that ConfigureMap has made.
  unfoldable pub place_pool : ℤ → Option (Channel (Fn W)) → Exec W (Fn W)
  unfolding pooled
  place_pool duration none w = (ok (λ ctx input u. timed_out u), w)
  place_pool duration (some c) w =
      let (a, w') = pools.cells.alloc (channel c.capacity (range 0 (length c.queue))) w in
      (ok (pooled duration a (fn_number c.queue)), w')

module _ {W : Type 0} (pools : Pools W) (memory : Memory pools.cells) (fns : ℕ → Fn W) (a : ℕ)
    (apart : (i : ℕ) (ctx : Context) (input : Value) (w : W)
      → pools.cells.read a (fns i ctx input w).1 ≡ pools.cells.read a w) where
  -- The world once the first of the fns has been received.
  abbrev pub received : ℕ → List ℕ → W → W
  received capacity rest w = pools.cells.write a (channel capacity rest) w

  -- The fn that is received has replied.
  abbrev pub after_fn : ℕ → ℕ → List ℕ → Reply × W → Reply × W
  after_fn capacity i rest (reply, w) =
      (reply, pools.cells.write a (channel capacity (after_reply i rest reply)) w)

  give_back_at-after_fn :
      (capacity i : ℕ) (rest : List ℕ) (ctx : Context) (input : Value) (w : W)
      → length rest < capacity
      → give_back_at pools a i (fns i ctx input (received capacity rest w))
        ≡ after_fn capacity i rest (fns i ctx input (received capacity rest w))
  give_back_at-after_fn capacity i rest ctx input w room =
      let v = received capacity rest w in
      let u : Reply × W = fns i ctx input v in
      let there : pools.cells.read a u.1 ≡ channel capacity rest =
        apart i ctx input v ∙ memory.read-write a (channel capacity rest) w in
      ap
        (λ (c : Channel ℕ).
          let (c', r) = kept c (give_back i c u.0) in (r, pools.cells.write a c' u.1))
        there
      ∙ ap (λ (x : Channel ℕ × Reply). (x.1, pools.cells.write a x.0 u.1))
          (kept-give_back i rest capacity u.0 room)

  receive_at-after_fn :
      (capacity i : ℕ) (rest : List ℕ) (ctx : Context) (input : Value) (w : W)
      → pools.cells.read a w ≡ channel capacity (i ∷ rest)
      → length rest < capacity
      → receive_at pools a fns (pools.cells.read a w).queue ctx input w
        ≡ after_fn capacity i rest (fns i ctx input (received capacity rest w))
  receive_at-after_fn capacity i rest ctx input w there room =
      ap (λ (c : Channel ℕ). receive_at pools a fns c.queue ctx input w) there
      ∙ ap
          (λ (c : Channel ℕ).
            give_back_at pools a i
              (fns i ctx input (pools.cells.write a (record c { queue = rest }) w)))
          there
      ∙ give_back_at-after_fn capacity i rest ctx input w room

  by_timer :
      (fires : Bool) (capacity : ℕ) (q : List ℕ) (ctx : Context) (input : Value) (w : W)
      → pools.cells.read a w ≡ channel capacity q
      → length q ≤ capacity
      → (((if fires
              then timed_out pools w
              else receive_at pools a fns (pools.cells.read a w).queue ctx input w)
            ≡ timed_out pools w)
          × ((fires ≡ true) ⊎ (q ≡ [])))
        ⊎ ((i : ℕ) × (rest : List ℕ) × (fires ≡ false)
            × (q ≡ i ∷ rest)
            × ((if fires
                  then timed_out pools w
                  else receive_at pools a fns (pools.cells.read a w).queue ctx input w)
                ≡ after_fn capacity i rest (fns i ctx input (received capacity rest w))))
  by_timer true capacity q ctx input w there fits = inl (refl, inl refl)
  by_timer false capacity [] ctx input w there fits =
      inl (ap (λ (c : Channel ℕ). receive_at pools a fns c.queue ctx input w) there, inr refl)
  by_timer false capacity (i ∷ rest) ctx input w there fits =
      inr (i, rest, refl, refl, receive_at-after_fn capacity i rest ctx input w there fits)

  -- Suppose that the fns leave the channel at `a` alone, and that it holds no more numbers than fit. An
  -- invocation of the pool there either gives the timeout error and changes nothing, and then the timer has fired
  -- or no fn is free; or it takes the first number out of the channel, runs its fn in that world, and
  -- puts the number behind the others if the fn returns, with the fn's reply.
  pooled_cases :
      (duration : ℤ) (capacity : ℕ) (q : List ℕ) (ctx : Context) (input : Value) (w : W)
      → pools.cells.read a w ≡ channel capacity q
      → length q ≤ capacity
      → ((pooled pools duration a fns ctx input w ≡ timed_out pools w)
          × ((pools.fires_first duration w ≡ true) ⊎ (q ≡ [])))
        ⊎ ((i : ℕ) × (rest : List ℕ) × (pools.fires_first duration w ≡ false)
            × (q ≡ i ∷ rest)
            × (pooled pools duration a fns ctx input w
                ≡ after_fn capacity i rest (fns i ctx input (received capacity rest w))))
  unfolding pooled
  pooled_cases duration capacity q ctx input w there fits =
      by_timer (pools.fires_first duration w) capacity q ctx input w there fits
