-- ===== src/Sources/Http/Running.antt =====
-- Serve: the goroutine of the server, and the call that waits for the context to end it.
use fnrun.Prelude.{
  ◌≡◌, refl, ap, subst, ◌∙◌, ◌≢◌, ◌⊎◌, inl, inr, Bool, true, false, Option, none, some,
}
use fnrun.Exec.{Error, foreign}

-- Where the call of Serve is: it waits for the context, it is in srv.Shutdown, it receives from
-- errorChan, or it is over with an error.
pub data Phase : Type 0 where
  waiting : Phase
  shutting : Phase
  receiving : Phase
  returned : Error → Phase

pub record Serving : Type 0 where
  pub phase : Phase
  -- srv.Serve or srv.ServeTLS has not returned
  pub up : Bool
  -- errorChan, with its buffer of one
  pub errors : Option Error
  -- the context
  pub is_done : Bool
  -- what the server ended with, and the error of Shutdown
  pub ending : Option Error
  pub overran : Option Error

-- Serve, once the goroutine has been started
abbrev pub start : Serving
start = record {
  phase = waiting;
  up = true;
  errors = none;
  is_done = false;
  ending = none;
  overran = none;
}

abbrev pub server_closed : Error
server_closed = foreign "http: Server closed"

pub data Step (s : Serving) : Serving → Type 0 where
  -- the server ends by an error of its own, which the goroutine sends
  break_down :
      (e : Error)
      → s.phase ≡ waiting
      → s.up ≡ true
      → Step s (record s { up = false; errors = some e; ending = some e })
  -- the context is cancelled
  cancel : Step s (record s { is_done = true })
  -- `<-ctx.Done()`, and the call of Shutdown, by which the server ends if it has not yet
  begin_shutdown : s.phase ≡ waiting → s.is_done ≡ true → Step s (record s { phase = shutting })
  close :
      s.phase ≢ waiting
      → s.up ≡ true
      → Step s (record s { up = false; errors = some server_closed; ending = some server_closed })
  -- Shutdown succeeds, or returns an error, as when the grace period is over
  shut_down : s.phase ≡ shutting → Step s (record s { phase = receiving })
  overrun :
      (e : Error) → s.phase ≡ shutting → Step s (record s { phase = returned e; overran = some e })
  -- `return <-errorChan`
  receive :
      (e : Error)
      → s.phase ≡ receiving
      → s.errors ≡ some e
      → Step s (record s { phase = returned e; errors = none })

pub data Reach (s : Serving) : Serving → Type 0 where
  here : Reach s s
  next : {t u : Serving} → Reach s t → Step t u → Reach s u

-- What is known in each phase of the call.
abbrev Knows : Phase → Serving → Type 0
Knows waiting s = Unit
Knows (returned e) s = (s.is_done ≡ true) × ((s.overran ≡ some e) ⊎ (s.ending ≡ some e))
Knows _ s = s.is_done ≡ true

record IsOrderly (s : Serving) : Type 0 where
  knows : Knows s.phase s
  kept : (e : Error) → s.errors ≡ some e → s.ending ≡ some e
  unsent : s.up ≡ true → s.ending ≡ none

Knows-cancel : (p : Phase) (s : Serving) → Knows p s → Knows p (record s { is_done = true })
Knows-cancel waiting s k = tt
Knows-cancel shutting s k = refl
Knows-cancel receiving s k = refl
Knows-cancel (returned e) s (done, k) = (refl, k)

-- The server's end is known from then on.
Knows-end :
    (p : Phase) (s : Serving) (e : Error)
    → s.ending ≡ none
    → Knows p s
    → Knows p (record s { up = false; errors = some e; ending = some e })
Knows-end waiting s e none_yet k = tt
Knows-end shutting s e none_yet k = k
Knows-end receiving s e none_yet k = k
Knows-end (returned x) s e none_yet (done, inl o) = (done, inl o)
Knows-end (returned x) s e none_yet (done, inr o) = cc

Knows-done : (p : Phase) (s : Serving) → p ≢ waiting → Knows p s → s.is_done ≡ true
Knows-done waiting s given k = absurd (given refl)
Knows-done shutting s given k = k
Knows-done receiving s given k = k
Knows-done (returned e) s given k = k.0

Step-IsOrderly : {s t : Serving} → Step s t → IsOrderly s → IsOrderly t
Step-IsOrderly {s} (break_down e at_wait up) v = record {
  knows = Knows-end s.phase s e (v.unsent up) v.knows;
  kept = λ x h. h;
  unsent = λ h. cc;
}
Step-IsOrderly {s} cancel v = record {
  knows = Knows-cancel s.phase s v.knows;
  kept = v.kept;
  unsent = v.unsent;
}
Step-IsOrderly {s} (begin_shutdown at_wait done) v = record {
  knows = done;
  kept = v.kept;
  unsent = v.unsent;
}
Step-IsOrderly {s} (close past up) v = record {
  knows = Knows-end s.phase s server_closed (v.unsent up) v.knows;
  kept = λ x h. h;
  unsent = λ h. cc;
}
Step-IsOrderly {s} (shut_down at_shut) v = record {
  knows = Knows-done s.phase s (λ h. cc) v.knows;
  kept = v.kept;
  unsent = v.unsent;
}
Step-IsOrderly {s} (overrun e at_shut) v = record {
  knows = (Knows-done s.phase s (λ h. cc) v.knows, inl refl);
  kept = v.kept;
  unsent = v.unsent;
}
Step-IsOrderly {s} (receive e at_receive sent) v = record {
  knows = (Knows-done s.phase s (λ h. cc) v.knows, inr (v.kept e sent));
  kept = λ x h. cc;
  unsent = v.unsent;
}

Reach-IsOrderly : {s : Serving} → Reach start s → IsOrderly s
Reach-IsOrderly here = record { knows = tt; kept = λ e h. cc; unsent = λ h. refl }
Reach-IsOrderly (next r step) = Step-IsOrderly step (Reach-IsOrderly r)

-- Serve returns only after its context is done, and what it returns is the error of Shutdown, or else
-- the error that the server has ended with.
pub returned_after_done :
    {s : Serving} (e : Error)
    → Reach start s
    → s.phase ≡ returned e
    → (s.is_done ≡ true) × ((s.overran ≡ some e) ⊎ (s.ending ≡ some e))
returned_after_done {s} e r h = subst (λ p. Knows p s) h (Reach-IsOrderly r).knows

abbrev pub IsUncancelled : (s t : Serving) → Step s t → Type 0
IsUncancelled s t cancel = ⊥
IsUncancelled s t step = Unit

pub data ReachUncancelled (s : Serving) : Serving → Type 0 where
  still : ReachUncancelled s s
  more :
      {t u : Serving}
      → ReachUncancelled s t
      → (step : Step t u) → IsUncancelled t u step
      → ReachUncancelled s u

false-ne-true : (b : Bool) → b ≡ false → b ≢ true
false-ne-true b e e' = cc

waiting-ne-shutting : (p : Phase) → p ≡ waiting → p ≢ shutting
waiting-ne-shutting p e e' = cc

waiting-ne-receiving : (p : Phase) → p ≡ waiting → p ≢ receiving
waiting-ne-receiving p e e' = cc

-- The server has broken down.
abbrev pub broken : Error → Serving → Serving
broken e s = record s { up = false; errors = some e; ending = some e }

-- While Serve waits for a context that is not done, the server may break down, and that is not
-- noticed: until the context is cancelled nothing more happens, and Serve does not return.
pub broken_unnoticed :
    (e : Error) {s t : Serving}
    → s.phase ≡ waiting
    → s.up ≡ true
    → s.is_done ≡ false
    → ReachUncancelled (broken e s) t
    → Step s (broken e s) × (t ≡ broken e s)
broken_unnoticed e {s} at_wait up undone r = (break_down e at_wait up, stays r)
  where
    stuck : {u v : Serving} → u ≡ broken e s → (step : Step u v) → ¬ IsUncancelled u v step
    stuck h (break_down x p q) c = false-ne-true _ (ap (λ (x : Serving). x.up) h) q
    stuck h cancel c = c
    stuck h (begin_shutdown p q) c = false-ne-true _ (ap (λ (x : Serving). x.is_done) h ∙ undone) q
    stuck h (close p q) c = false-ne-true _ (ap (λ (x : Serving). x.up) h) q
    stuck h (shut_down p) c = waiting-ne-shutting _ (ap (λ (x : Serving). x.phase) h ∙ at_wait) p
    stuck h (overrun x p) c = waiting-ne-shutting _ (ap (λ (x : Serving). x.phase) h ∙ at_wait) p
    stuck h (receive x p q) c = waiting-ne-receiving _ (ap (λ (x : Serving). x.phase) h ∙ at_wait) p

    stays : {t : Serving} → ReachUncancelled (broken e s) t → t ≡ broken e s
    stays still = refl
    stays (more r step c) = absurd (stuck (stays r) step c)
