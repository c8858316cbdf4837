-- ===== src/Sources/ServiceBus/Settling.antt =====
-- How messages are settled.
use fnrun.Prelude.{
  ℕ, suc, ◌≡◌, refl, ap, ◌∙◌, sym, append-nil, Option, none, some, List, [], ◌∷◌, ◌++◌,
}
use fnrun.Exec.{Context, Result, ok, err, panic, hang, Reply, returns, panics, hangs, Fn, Exec}
use fnrun.Sources.ServiceBus.{
  Message, new_input_from_message, Bus, settle, queue_handler, only_logged, dlq_handler,
  after_receive, rounds, serve_queue,
}

pub data Settlement : Type 0 where
  completed abandoned : Message → Settlement

-- A bus that remembers the settlements, and answers them as a function of what they are.
abbrev pub Settled : Type 0 → Type 0
Settled W = List Settlement × W

abbrev pub silent : {W : Type 0} → Fn W → Fn (Settled W)
silent f ctx input (settled, w) = ((f ctx input w).0, (settled, (f ctx input w).1))

abbrev pub note :
    {W : Type 0} → (Settlement → Result (Unit {0})) → Settlement → Exec (Settled W) (Unit {0})
note answer s (settled, w) = (answer s, (settled ++ s ∷ [], w))

abbrev pub recording :
    {Queue W : Type 0}
    → (Settlement → Result (Unit {0}))
    → Bus Queue (Settled W)
    → Bus Queue (Settled W)
recording answer bus = record bus {
  abandon = λ msg. note answer (abandoned msg);
  complete = λ msg. note answer (completed msg);
  log_abandoning = λ e w. w;
  log_settling = λ e w. w;
}

-- The settlement that a reply calls for.
abbrev pub settlement_of : Message → Reply → Option Settlement
settlement_of msg (returns v none) = some (completed msg)
settlement_of msg (returns v (some e)) = some (abandoned msg)
settlement_of msg panics = none
settlement_of msg hangs = none

abbrev pub to_list : Option Settlement → List Settlement
to_list none = []
to_list (some s) = s ∷ []

-- What the handlers return: of the queue, the bus's answer; of the dead letters, nil also where the bus
-- has refused.
abbrev pub queue_result : (Settlement → Result (Unit {0})) → Message → Reply → Result (Unit {0})
queue_result answer msg (returns v none) = answer (completed msg)
queue_result answer msg (returns v (some e)) = answer (abandoned msg)
queue_result answer msg panics = panic
queue_result answer msg hangs = hang

abbrev pub forgiven : Result (Unit {0}) → Result (Unit {0})
forgiven (err e) = ok tt
forgiven r = r

module _ {Queue W : Type 0} (answer : Settlement → Result (Unit {0}))
    (bus : Bus Queue (Settled W)) where
  settle-settlement_of :
      (msg : Message) (r : Reply) (settled : List Settlement) (w : W)
      → settle (recording answer bus) msg (r, (settled, w))
        ≡ (queue_result answer msg r, (settled ++ to_list (settlement_of msg r), w))
  settle-settlement_of msg (returns v none) settled w = refl
  settle-settlement_of msg (returns v (some e)) settled w = refl
  settle-settlement_of msg panics settled w = ap (λ l. (panic, (l, w))) (sym (append-nil settled))
  settle-settlement_of msg hangs settled w = ap (λ l. (hang, (l, w))) (sym (append-nil settled))

  only_logged-forgiven :
      (r : Result (Unit {0})) (w : Settled W)
      → only_logged (recording answer bus) (r, w) ≡ (forgiven r, w)
  only_logged-forgiven (ok _) w = refl
  only_logged-forgiven (err e) w = refl
  only_logged-forgiven panic w = refl
  only_logged-forgiven hang w = refl

  -- A loop after a call of ReceiveOne with this result: nil lets it go on, all else is its end.
  abbrev pub goes_on :
      Result (Unit {0})
      → Settled W
      → (Settled W → Option (Result (Unit {0}) × Settled W))
      → Option (Result (Unit {0}) × Settled W)
  goes_on (ok _) w rest = rest w
  goes_on (err e) w rest = some (err e, w)
  goes_on panic w rest = some (panic, w)
  goes_on hang w rest = some (hang, w)

  after_receive-goes_on :
      (next : Settled W → Option (Result (Unit {0}) × Settled W)) (r : Result (Unit {0}))
      (w : Settled W)
      → after_receive (recording answer bus) next (r, w) ≡ goes_on r w next
  after_receive-goes_on next (ok _) w = refl
  after_receive-goes_on next (err e) w = refl
  after_receive-goes_on next panic w = refl
  after_receive-goes_on next hang w = refl

  -- A round in which ReceiveOne returns what the handler does.
  rounds-goes_on :
      (n : ℕ) (queue : Queue) (handler : Message → Exec (Settled W) (Unit {0})) (msg : Message)
      (w w' : Settled W) (r : Result (Unit {0}))
      → bus.receive_one queue handler w ≡ handler msg w
      → handler msg w ≡ (r, w')
      → rounds (recording answer bus) (suc n) queue handler w
        ≡ goes_on r w' (rounds (recording answer bus) n queue handler)
  unfolding rounds
  rounds-goes_on n queue handler msg w w' r received handled =
      let next = rounds (recording answer bus) n queue handler in
      ap (after_receive (recording answer bus) next) (received ∙ handled)
      ∙ after_receive-goes_on next r w'

  -- With a bus that answers by the settlement alone, both handlers settle a message exactly once:
  -- they complete it if the fn returns no error and abandon it if it returns one, and do neither if
  -- it panics. If ReceiveOne hands a message to the handler and returns what the handler returns, a
  -- refusal of the bus ends the loop of serveQueue, with the bus's error, while the loop over the
  -- dead letters goes on with the next message; a settlement lets both go on.
  pub handlers_settle :
      (f : Fn W) (ctx : Context) (msg : Message) (settled : List Settlement) (w : W) (r : Reply)
      (w' : W) (n : ℕ) (queue : Queue)
      → f ctx (new_input_from_message msg) w ≡ (r, w')
      → ((handler : Message → Exec (Settled W) (Unit {0}))
          → bus.receive_one queue handler (settled, w) ≡ handler msg (settled, w))
      → (queue_handler (recording answer bus) (silent f) ctx msg (settled, w)
          ≡ (queue_result answer msg r, (settled ++ to_list (settlement_of msg r), w')))
        × (dlq_handler (recording answer bus) (silent f) ctx msg (settled, w) ≡ (
          forgiven (queue_result answer msg r),
          (settled ++ to_list (settlement_of msg r), w'),
        ))
        × (serve_queue (recording answer bus) (suc n) queue ctx (silent f) (settled, w)
            ≡ goes_on
                (queue_result answer msg r)
                (settled ++ to_list (settlement_of msg r), w')
                (serve_queue (recording answer bus) n queue ctx (silent f)))
        × (rounds
              (recording answer bus)
              (suc n)
              queue
              (dlq_handler (recording answer bus) (silent f) ctx)
              (settled, w)
            ≡ goes_on
                (forgiven (queue_result answer msg r))
                (settled ++ to_list (settlement_of msg r), w')
                (rounds
                  (recording answer bus)
                  n
                  queue
                  (dlq_handler (recording answer bus) (silent f) ctx)))
  unfolding queue_handler dlq_handler serve_queue
  handlers_settle f ctx msg settled w r w' n queue e received =
      let settles : settle (recording answer bus) msg
            (silent f ctx (new_input_from_message msg) (settled, w))
          ≡ (queue_result answer msg r, (settled ++ to_list (settlement_of msg r), w')) =
        ap (λ (x : Reply × W). settle (recording answer bus) msg (x.0, (settled, x.1))) e
        ∙ settle-settlement_of msg r settled w' in
      let u : Settled W = (settled ++ to_list (settlement_of msg r), w') in
      let logs : dlq_handler (recording answer bus) (silent f) ctx msg (settled, w)
          ≡ (forgiven (queue_result answer msg r), u) =
        ap (only_logged (recording answer bus)) settles
        ∙ only_logged-forgiven (queue_result answer msg r) u in
      (
        settles,
        logs,
        rounds-goes_on n queue (queue_handler (recording answer bus) (silent f) ctx) msg
            (settled, w) u (queue_result answer msg r) (received _) settles,
        rounds-goes_on n queue (dlq_handler (recording answer bus) (silent f) ctx) msg (settled, w)
            u (forgiven (queue_result answer msg r)) (received _) logs,
      )
