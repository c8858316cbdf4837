-- ===== src/Pool/Rotating.antt =====
-- Invocations of a pool one after the other: its fns take turns.
use fnrun.Prelude.{
  ℕ, zero, suc, ◌+◌, ◌<◌, ◌≡◌, refl, sym, ap, ◌∙◌, false, List, [], ◌∷◌, ◌++◌, length,
  length-append, map, append_assoc, append-nil, arith, ◌==◌, if◌then◌else◌, ◌-◌, length-map,
  map-append_one, inl, inr, Bool-cases,
}
use fnrun.Value.{Value}
use fnrun.Exec.{Context, Reply, returns, panics, hangs, Fn}
use fnrun.Pool.{Channel, invoke_channel}
use fnrun.Pool.Invoking.{channel, after_reply, kept-give_back}

-- The numbers from `i` on, so many of them.
abbrev pub range : ℕ → ℕ → List ℕ
range i zero = []
range i (suc k) = i ∷ range (suc i) k

length-range : (i k : ℕ) → length (range i k) ≡ k
length-range i zero = refl
length-range i (suc k) = ap suc (length-range (suc i) k)

range-suc : (i k : ℕ) → range i k ++ (i + k) ∷ [] ≡ range i (suc k)
range-suc i zero = ap (λ j. j ∷ []) (omega arith)
range-suc i (suc k) =
    ap (λ j. i ∷ range (suc i) k ++ j ∷ []) (omega arith) ∙ ap (λ l. i ∷ l) (range-suc (suc i) k)

-- Of the numbers below `n`, the one after `i`.
abbrev pub turn_after : ℕ → ℕ → ℕ
turn_after n i = if suc i == n then 0 else suc i

-- The queue of the numbers below `n` when it is the turn of `i`.
abbrev pub queue_at : ℕ → ℕ → List ℕ
queue_at n i = range i (n - i) ++ range 0 i

range-snoc : (i : ℕ) → range 0 i ++ i ∷ [] ≡ range 0 (suc i)
range-snoc i = let e : i ≡ 0 + i = omega arith in ap (λ j. range 0 i ++ j ∷ []) e ∙ range-suc 0 i

-- After the last one the round is over.
queue_at-last : (n i : ℕ) → n ≡ suc i → range (suc i) (n - suc i) ++ range 0 (suc i) ≡ queue_at n 0
queue_at-last n i e =
    let none_left : n - suc i ≡ 0 = omega (arith, e) in
    let all_left : suc i ≡ n - 0 = omega (arith, e) in
    ap (λ k. range (suc i) k ++ range 0 (suc i)) none_left
    ∙ ap (range 0) all_left
    ∙ sym (append-nil (range 0 (n - 0)))

queue_at-turn :
    (n i : ℕ)
    → i < n
    → (range (suc i) (n - suc i) ++ range 0 i) ++ i ∷ [] ≡ queue_at n (turn_after n i)
queue_at-turn n i h =
    append_assoc (range (suc i) (n - suc i)) (range 0 i) (i ∷ [])
    ∙ ap (λ l. range (suc i) (n - suc i) ++ l) (range-snoc i)
    ∙ elim (Bool-cases (suc i == n)) [
      | inl e ↦ rw e (queue_at-last n i (ground (arith, e)))
      | inr e ↦ rw e
    ]

abbrev pub IsReturn : Reply → Type 0
IsReturn (returns v e) = Unit
IsReturn panics = ⊥
IsReturn hangs = ⊥

module _ {W : Type 0} where
  -- Each input is given to Invoke once the one before has been answered, and before its timer fires.
  unfoldable pub invoke_each :
      Channel (Fn W) → List (Context × Value) → W → Channel (Fn W) × List Reply × W
  unfolding invoke_channel
  invoke_each c [] w = (c, [], w)
  invoke_each c ((ctx, input) ∷ inputs) w =
      let ((c', r), w') = invoke_channel false c ctx input w in
      let (c'', rs, w'') = invoke_each c' inputs w' in (c'', r ∷ rs, w'')

  after_reply-return :
      (f : Fn W) (rest : List (Fn W)) (r : Reply)
      → IsReturn r
      → after_reply f rest r ≡ rest ++ f ∷ []
  after_reply-return f rest (returns v e) h = refl
  after_reply-return f rest panics h = absurd h
  after_reply-return f rest hangs h = absurd h

  -- The inputs are given to the fns below `n` in turn, from the fn `i` on.
  abbrev pub in_turn : (ℕ → Fn W) → ℕ → ℕ → List (Context × Value) → W → ℕ × List Reply × W
  in_turn fns n i [] w = (i, [], w)
  in_turn fns n i ((ctx, input) ∷ inputs) w =
      let (r, w') = fns i ctx input w in
      let (j, rs, w'') = in_turn fns n (turn_after n i) inputs w' in (j, r ∷ rs, w'')

  module _ (fns : ℕ → Fn W) (n : ℕ) where
    abbrev pub channel_at : ℕ → Channel (Fn W)
    channel_at i = channel n (map fns (queue_at n i))

    queue_at-head : (i : ℕ) → i < n → queue_at n i ≡ i ∷ (range (suc i) (n - suc i) ++ range 0 i)
    queue_at-head i h =
        let e : n - i ≡ suc (n - suc i) = omega (arith, h) in ap (λ k. range i k ++ range 0 i) e

    rest_fits : (i : ℕ) → i < n → length (map fns (range (suc i) (n - suc i) ++ range 0 i)) < n
    rest_fits i h = omega (
      arith,
      h,
      length-map fns (range (suc i) (n - suc i) ++ range 0 i),
      length-append (range (suc i) (n - suc i)) (range 0 i),
      length-range (suc i) (n - suc i),
      length-range 0 i,
    )

    invoke_turn :
        (i : ℕ) (ctx : Context) (input : Value) (w : W)
        → i < n
        → IsReturn (fns i ctx input w).0
        → invoke_channel false (channel_at i) ctx input w
          ≡ ((channel_at (turn_after n i), (fns i ctx input w).0), (fns i ctx input w).1)
    unfolding invoke_channel
    invoke_turn i ctx input w h returned =
        let rest = range (suc i) (n - suc i) ++ range 0 i in
        let (r, w') : Reply × W = fns i ctx input w in
        let queue =
          after_reply-return (fns i) (map fns rest) (fns i ctx input w).0 returned
          ∙ map-append_one fns rest i
          ∙ ap (map fns) (queue_at-turn n i h) in
        ap (λ q. invoke_channel false (channel n (map fns q)) ctx input w) (queue_at-head i h)
        ∙ ap (λ (x : Channel (Fn W) × Reply). (x, (fns i ctx input w).1))
            (kept-give_back (fns i) (map fns rest) n (fns i ctx input w).0 (rest_fits i h)
              ∙ ap (λ q. (channel n q, (fns i ctx input w).0)) queue)

    turn_after-below : (i : ℕ) → i < n → turn_after n i < n
    turn_after-below i h = ground (arith, h)

    -- If none of the fns ever panics or waits for ever, a pool in which it is the turn of the fn `i` gives
    -- the inputs to its fns in a circle from `i` on, each input to the next fn. It replies what these
    -- fns reply, keeps all of them, and the fn after the last one used is next.
    pub invoke_each-in_turn :
        (return : (i : ℕ) (ctx : Context) (input : Value) (w : W) → IsReturn (fns i ctx input w).0)
        (inputs : List (Context × Value)) (i : ℕ) (w : W)
        → i < n
        → invoke_each (channel_at i) inputs w
          ≡ (let (j, rs, w') = in_turn fns n i inputs w in (channel_at j, rs, w'))
    unfolding invoke_each
    invoke_each-in_turn return [] i w h = refl
    invoke_each-in_turn return ((ctx, input) ∷ inputs) i w h =
        let before_others : (Channel (Fn W) × Reply) × W → Channel (Fn W) × List Reply × W =
          λ x. let (c, rs, v) = invoke_each x.0.0 inputs x.1 in (c, x.0.1 ∷ rs, v) in
        let (r, w') : Reply × W = fns i ctx input w in
        ap before_others (invoke_turn i ctx input w h (return i ctx input w))
        ∙ ap (λ (y : Channel (Fn W) × List Reply × W). (y.0, r ∷ y.1, y.2))
            (invoke_each-in_turn return inputs (turn_after n i) w' (turn_after-below i h))
