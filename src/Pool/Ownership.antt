-- ===== src/Pool/Ownership.antt =====
-- Who holds the fns of a pool: none is lost but by a panic, and none serves two calls at once.
use fnrun.Prelude.{
  ℕ, suc, ◌+◌, ◌≤◌, ◌<◌, ◌≡◌, refl, ap, ◌≢◌, List, [], ◌∷◌, ◌++◌, length, length-append, arith,
  ◌==◌, if◌then◌else◌,
}
use fnrun.Pool.Calls.{
  Calls, start, Step, arrive, receive, finish, give_up, crash, Reach, here, next,
}

-- How often a fn stands in a list of fns, and in a list of calls with their fns.
abbrev pub count : ℕ → List ℕ → ℕ
count f [] = 0
count f (g ∷ gs) = (if f == g then 1 else 0) + count f gs

abbrev pub held : ℕ → List (ℕ × ℕ) → ℕ
held f [] = 0
held f ((c, g) ∷ cs) = (if f == g then 1 else 0) + held f cs

count-append : (f : ℕ) (xs ys : List ℕ) → count f (xs ++ ys) ≡ count f xs + count f ys
count-append f [] ys = omega arith
count-append f (x ∷ xs) ys = omega (arith, count-append f xs ys)

held-append : (f : ℕ) (xs ys : List (ℕ × ℕ)) → held f (xs ++ ys) ≡ held f xs + held f ys
held-append f [] ys = omega arith
held-append f ((c, g) ∷ xs) ys = omega (arith, held-append f xs ys)

held_self : (c f g : ℕ) (cs : List (ℕ × ℕ)) → f ≡ g → held f ((c, g) ∷ cs) ≡ suc (held f cs)
held_self c f g cs e = ground arith

length-pos {ℓ} : {A : Type ℓ} (xs : List A) → xs ≢ [] → 0 < length xs
length-pos [] h = absurd (h refl)
length-pos (x ∷ xs) h = omega arith

pub record IsShared (fns : List ℕ) (s : Calls) : Type 0 where
  pub sized : s.capacity ≡ length fns
  pub counted : (f : ℕ) → count f s.free + held f s.running + count f s.lost ≡ count f fns
  pub measured : length s.free + length s.running + length s.lost ≡ s.capacity

Step-IsShared : {fns : List ℕ} {s t : Calls} → Step s t → IsShared fns s → IsShared fns t
Step-IsShared (arrive c) v = record { sized = v.sized; counted = v.counted; measured = v.measured }
Step-IsShared {s} (receive c f before after rest w e) v = record {
  sized = v.sized;
  counted = λ g. omega (arith, v.counted g, ap (count g) e);
  measured = omega (arith, v.measured, ap (length {A = ℕ}) e);
}
Step-IsShared {s} (finish c f before after e room) v = record {
  sized = v.sized;
  counted = λ g. omega (
    arith,
    v.counted g,
    ap (held g) e,
    held-append g before after,
    held-append g before ((c, f) ∷ after),
    count-append g s.free (f ∷ []),
  );
  measured = omega (
    arith,
    v.measured,
    ap (length {A = ℕ × ℕ}) e,
    length-append before after,
    length-append before ((c, f) ∷ after),
    length-append s.free (f ∷ []),
  );
}
Step-IsShared (give_up c before after e) v = record {
  sized = v.sized;
  counted = v.counted;
  measured = v.measured;
}
Step-IsShared {s} (crash c f before after e) v = record {
  sized = v.sized;
  counted = λ g. omega (
    arith,
    v.counted g,
    ap (held g) e,
    held-append g before after,
    held-append g before ((c, f) ∷ after),
  );
  measured = omega (
    arith,
    v.measured,
    ap (length {A = ℕ × ℕ}) e,
    length-append before after,
    length-append before ((c, f) ∷ after),
  );
}

start-IsShared : (fns : List ℕ) → IsShared fns (start fns)
start-IsShared fns = record { sized = refl; counted = λ f. omega arith; measured = omega arith }

-- In every state that the calls of a full pool can reach, each fn of the pool is, as often as it was
-- put in, free, or held by a running call, or lost to a panic; and nothing else is.
pub Reach-IsShared : (fns : List ℕ) {s : Calls} → Reach (start fns) s → IsShared fns s
Reach-IsShared fns here = start-IsShared fns
Reach-IsShared fns (next r st) = Step-IsShared st (Reach-IsShared fns r)

-- The fns of a pool are different objects.
abbrev pub IsDistinct : List ℕ → Type 0
IsDistinct fns = (f : ℕ) → count f fns ≤ 1

module _ {s : Calls} (fns : List ℕ) (distinct : IsDistinct fns) (r : Reach (start fns) s) where
  -- In every reachable state of a pool of distinct fns, no fn serves two calls at once, and none that
  -- serves a call is free for another one.
  running_alone :
      (before between after : List (ℕ × ℕ)) (c d f g : ℕ)
      → s.running ≡ before ++ (c, f) ∷ (between ++ (d, g) ∷ after)
      → (f ≢ g) × (count f s.free ≡ 0)
  running_alone before between after c d f g e =
      (λ p. omega (arith, once, held_self d f g after p), omega (arith, once))
    where
      once : count f s.free + suc (held f ((d, g) ∷ after)) ≤ 1
      once = omega (
        arith,
        distinct f,
        (Reach-IsShared fns r).counted f,
        ap (held f) e,
        held-append f before ((c, f) ∷ (between ++ (d, g) ∷ after)),
        held_self c f f (between ++ (d, g) ∷ after) refl,
        held-append f between ((d, g) ∷ after),
      )

module _ {s : Calls} (fns : List ℕ) (r : Reach (start fns) s) where
  -- In every reachable state the channel has room while a call runs: a call that has received a fn
  -- can always send it back without waiting.
  send_has_room : s.running ≢ [] → length s.free < s.capacity
  send_has_room h = omega (arith, (Reach-IsShared fns r).measured, length-pos s.running h)

  -- In every reachable state a fn is free if the running calls and the panics together are fewer than
  -- the fns.
  free_fn : length s.running + length s.lost < length fns → s.free ≢ []
  free_fn h e =
      let shared = Reach-IsShared fns r in
      omega (arith, shared.measured, shared.sized, ap (length {A = ℕ}) e)

  -- In every reachable state without a running call and without a panic so far, all fns of the pool
  -- are free again.
  all_free : s.running ≡ [] → s.lost ≡ [] → (f : ℕ) → count f s.free ≡ count f fns
  all_free e e' f = omega (arith, (Reach-IsShared fns r).counted f, ap (held f) e, ap (count f) e')
