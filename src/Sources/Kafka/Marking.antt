-- ===== src/Sources/Kafka/Marking.antt =====
-- Which messages a claim's consumer marks.
use fnrun.Prelude.{
  ◌≡◌, refl, sym, ap, ◌∙◌, Bool, true, false, none, some, List, [], ◌∷◌, ◌++◌, append_assoc,
  append-nil,
}
use fnrun.Exec.{Result, ok, err, panic, hang, Reply, returns, panics, hangs, Fn}
use fnrun.Sources.Kafka.{ConsumerMessage, create_input, Consumer, after_invoke, consume_claim}

-- A session that remembers what has been marked.
abbrev pub Session : Type 0 → Type 0
Session W = List ConsumerMessage × W

abbrev pub append_mark : {W : Type 0} → ConsumerMessage → Session W → Session W
append_mark message (marked, w) = (marked ++ message ∷ [], w)

abbrev pub silent : {W : Type 0} → Fn W → Fn (Session W)
silent f ctx input (marked, w) = ((f ctx input w).0, (marked, (f ctx input w).1))

-- The replies after which a message is marked, and what the loop returns after the others.
abbrev pub IsAccepted : Bool → Reply → Type 0
IsAccepted ignore_errors (returns v none) = Unit
IsAccepted ignore_errors (returns v (some e)) = ignore_errors ≡ true
IsAccepted ignore_errors panics = ⊥
IsAccepted ignore_errors hangs = ⊥

abbrev pub IsRefused : Bool → Reply → Result (Unit {0}) → Type 0
IsRefused ignore_errors (returns v none) r = ⊥
IsRefused ignore_errors (returns v (some e)) r = (ignore_errors ≡ false) × (r ≡ err e)
IsRefused ignore_errors panics r = r ≡ panic
IsRefused ignore_errors hangs r = r ≡ hang

module _ {W : Type 0} (consumer : Consumer W) where
  -- The fn accepts each of the messages, one after the other.
  pub data Accepts : List ConsumerMessage → W → W → Type 0 where
    nothing : {w : W} → Accepts [] w w
    accepted :
        (m : ConsumerMessage) (ms : List ConsumerMessage) (w w' w'' : W) (r : Reply)
        → consumer.f consumer.ctx (create_input m) w ≡ (r, w')
        → IsAccepted consumer.ignore_errors r
        → Accepts ms w' w''
        → Accepts (m ∷ ms) w w''

  -- The loop ends: there is no message left, or the next one is refused.
  pub data Stops : List ConsumerMessage → W → Result (Unit {0}) → W → Type 0 where
    at_end : {w : W} → Stops [] w (ok tt) w
    refused :
        (m : ConsumerMessage) (ms : List ConsumerMessage) (w w' : W) (r : Reply)
        (result : Result (Unit {0}))
        → consumer.f consumer.ctx (create_input m) w ≡ (r, w')
        → IsRefused consumer.ignore_errors r result
        → Stops (m ∷ ms) w result w'

  -- The messages are split into those that were accepted, which are marked, and the rest.
  abbrev pub Marks :
      List ConsumerMessage → List ConsumerMessage → W → Result (Unit {0}) × Session W → Type 0
  Marks messages marked w (result, (marked', w')) =
      (before : List ConsumerMessage) × (after : List ConsumerMessage) × (u : W) × (messages
        ≡ before ++ after)
      × (marked' ≡ marked ++ before)
      × Accepts before w u
      × Stops after u result w'

abbrev pub recording : {W : Type 0} → Consumer W → Consumer (Session W)
recording consumer = record {
  ctx = consumer.ctx;
  f = silent consumer.f;
  ignore_errors = consumer.ignore_errors;
}

module _ {W : Type 0} (consumer : Consumer W) where
  Marks-cons :
      (m : ConsumerMessage) (ms marked : List ConsumerMessage) (w w' : W) (r : Reply)
      (result : Result (Unit {0}) × Session W)
      → consumer.f consumer.ctx (create_input m) w ≡ (r, w')
      → IsAccepted consumer.ignore_errors r
      → Marks consumer ms (marked ++ m ∷ []) w' result
      → Marks consumer (m ∷ ms) marked w result
  Marks-cons m ms marked w w' r (result, (marked', w'')) e a (before, after, u, em, ek, acc, stop) =
      (
        m ∷ before,
        after,
        u,
        ap (λ l. m ∷ l) em,
        ek ∙ append_assoc marked (m ∷ []) before,
        accepted m before w w' u r e a acc,
        stop,
      )

  Marks-refused :
      (m : ConsumerMessage) (ms marked : List ConsumerMessage) (w w' : W) (r : Reply)
      (result : Result (Unit {0}))
      → consumer.f consumer.ctx (create_input m) w ≡ (r, w')
      → IsRefused consumer.ignore_errors r result
      → Marks consumer (m ∷ ms) marked w (result, (marked, w'))
  Marks-refused m ms marked w w' r result e a =
      ([], m ∷ ms, w, refl, sym (append-nil marked), nothing, refused m ms w w' r result e a)

  Marks-after_invoke :
      (b : Bool) (m : ConsumerMessage) (ms marked : List ConsumerMessage) (w w' : W) (r : Reply)
      (next : Session W → Result (Unit {0}) × Session W)
      → consumer.ignore_errors ≡ b
      → consumer.f consumer.ctx (create_input m) w ≡ (r, w')
      → ((marked' : List ConsumerMessage) (u : W) → Marks consumer ms marked' u (next (marked', u)))
      → Marks consumer (m ∷ ms) marked w (after_invoke b (append_mark m) next (r, (marked, w')))
  Marks-after_invoke b m ms marked w w' (returns v none) next eb e ih =
      Marks-cons m ms marked w w' (returns v none) _ e tt (ih (marked ++ m ∷ []) w')
  Marks-after_invoke true m ms marked w w' (returns v (some x)) next eb e ih =
      Marks-cons m ms marked w w' (returns v (some x)) _ e eb (ih (marked ++ m ∷ []) w')
  Marks-after_invoke false m ms marked w w' (returns v (some x)) next eb e ih =
      Marks-refused m ms marked w w' (returns v (some x)) (err x) e (eb, refl)
  Marks-after_invoke b m ms marked w w' panics next eb e ih =
      Marks-refused m ms marked w w' panics panic e refl
  Marks-after_invoke b m ms marked w w' hangs next eb e ih =
      Marks-refused m ms marked w w' hangs hang e refl

  -- A claim's loop marks exactly the messages in front of the first one that the fn refuses, in their
  -- order: neither that message nor a later one is marked, and none later is given to the fn. It
  -- returns nil if none is refused, and else ends as that invocation does, by its error or its panic.
  pub consume_claim-Marks :
      (messages marked : List ConsumerMessage) (w : W)
      → Marks consumer messages marked w
          (consume_claim append_mark (recording consumer) messages (marked, w))
  unfolding consume_claim
  consume_claim-Marks [] marked w = ([], [], w, refl, sym (append-nil marked), nothing, at_end)
  consume_claim-Marks (m ∷ ms) marked w =
      Marks-after_invoke consumer.ignore_errors m ms marked w
        (consumer.f consumer.ctx (create_input m) w).1
        (consumer.f consumer.ctx (create_input m) w).0
        (λ s. consume_claim append_mark (recording consumer) ms s) refl refl
        (λ marked' u. consume_claim-Marks ms marked' u)
