-- ===== src/Middlewares/Kafka/Sending.antt =====
-- What the kafka middleware sends and returns, and what becomes of an initialization that fails.
use fnrun.Prelude.{
  String, ◌≡◌, refl, ap, ◌∙◌, sym, Bool, true, false, Option, none, some, List, [], ◌∷◌, ◌++◌,
  append-nil, inl, inr, str_eq, if◌then◌else◌, Bool-cases,
}
use fnrun.Value.{Value, null}
use fnrun.Exec.{Error, Context, Result, ok, err, panic, hang, Reply, returns, panics, hangs, Fn}
use fnrun.Middlewares.Kafka.{
  send_message, KafkaConfig, KafkaMiddleware, Printed, output, error, Client, after_initialization,
  initialize_with, initialize_producer, initialize, report_error, wrapped_by, is_null,
  report_success, report, after_initialize, continue_invoke, invoke,
}

-- A broker whose answers are a function of the topic and the message, and that remembers what it was
-- sent.
abbrev pub Broker : Type 0 → Type 0
Broker W = List (String × Printed) × W

abbrev pub silent : {W : Type 0} → Fn W → Fn (Broker W)
silent f ctx input (sent, w) = ((f ctx input w).0, (sent, (f ctx input w).1))

abbrev pub sends :
    {Producer W : Type 0}
    → (String → Printed → Option Error)
    → Option Producer
    → String
    → Printed
    → Broker W
    → Option Error × Broker W
sends answer p topic x (sent, w) = (answer topic x, (sent ++ (topic, x) ∷ [], w))

-- To a topic that is configured, the message; else nothing.
abbrev pub to_topic : String → Printed → List (String × Printed)
to_topic topic x = if str_eq topic "" then [] else (topic, x) ∷ []

-- What the middleware is to send for a reply.
abbrev pub messages : KafkaConfig → Reply → List (String × Printed)
messages c (returns v (some e)) = to_topic c.error_topic (error e)
messages c (returns v none) = if is_null v then [] else to_topic c.success_topic (output v)
messages c panics = []
messages c hangs = []

-- The first error that the broker answers with.
abbrev pub first_refusal :
    (String → Printed → Option Error) → List (String × Printed) → Option Error
first_refusal answer [] = none
first_refusal answer ((topic, x) ∷ rest) = answer topic x

-- The reply of the fn, with the refusal of a message added.
abbrev pub with_refusal : (Error → String) → Option Error → Reply → Reply
with_refusal message_of refusal (returns v none) = returns v refusal
with_refusal message_of refusal (returns v (some e)) =
    returns v (some (wrapped_by message_of e refusal))
with_refusal message_of refusal panics = panics
with_refusal message_of refusal hangs = hangs

initialize_idle :
    {Producer W : Type 0} (client : Client Producer W) (m : KafkaMiddleware Producer) (w : W)
    → m.initialized ≡ true
    → initialize client m w ≡ (ok tt, m, w)
unfolding initialize initialize_with
initialize_idle client m w h = ap (λ b. initialize_with client b m.producer m w) h

module _ {Producer W : Type 0} (client : Client Producer (Broker W))
    (answer : String → Printed → Option Error) (answers : send_message client ≡ sends answer) where
  report_error-messages :
      (m : KafkaMiddleware Producer) (e : Error) (sent : List (String × Printed)) (w : W)
      → report_error client m e (sent, w) ≡ (
        wrapped_by client.message_of e
            (first_refusal answer (to_topic m.config.error_topic (error e))),
        (sent ++ to_topic m.config.error_topic (error e), w),
      )
  unfolding report_error
  report_error-messages m e sent w = elim (Bool-cases (str_eq m.config.error_topic "")) [
    | inl b ↦ rw (report_error, b) (ap (λ l. (e, (l, w))) (sym (append-nil sent)))
    | inr b ↦ rw (report_error, b, answers)
  ]

  topic_given :
      (m : KafkaMiddleware Producer) (v : Value) (sent : List (String × Printed)) (w : W)
      → is_null v ≡ false
      → report_success client m v (sent, w) ≡ (
        first_refusal answer (to_topic m.config.success_topic (output v)),
        (sent ++ to_topic m.config.success_topic (output v), w),
      )
  unfolding report_success
  topic_given m v sent w h = elim (Bool-cases (str_eq m.config.success_topic "")) [
    | inl b ↦ rw (report_success, b) (ap (λ l. (none, (l, w))) (sym (append-nil sent)))
    | inr b ↦ rw (report_success, b, h, answers)
  ]

  topic_null :
      (m : KafkaMiddleware Producer) (sent : List (String × Printed)) (w : W)
      → report_success client m null (sent, w) ≡ (none, (sent ++ [], w))
  unfolding report_success
  topic_null m sent w = elim (Bool-cases (str_eq m.config.success_topic "")) [
    | inl b ↦ rw (report_success, b) (ap (λ l. (none, (l, w))) (sym (append-nil sent)))
    | inr b ↦ rw (report_success, b) (ap (λ l. (none, (l, w))) (sym (append-nil sent)))
  ]

  report-messages :
      (m : KafkaMiddleware Producer) (r : Reply) (sent : List (String × Printed)) (w : W)
      → report client m (r, (sent, w)) ≡ (
        with_refusal client.message_of (first_refusal answer (messages m.config r)) r,
        (sent ++ messages m.config r, w),
      )
  unfolding report
  report-messages m (returns v (some e)) sent w =
      ap (λ (x : Error × Broker W). (returns v (some x.0), x.1)) (report_error-messages m e sent w)
  report-messages m (returns null none) sent w =
      ap (λ (x : Option Error × Broker W). (returns null x.0, x.1)) (topic_null m sent w)
  report-messages m (returns v none) sent w =
      ap (λ (x : Option Error × Broker W). (returns v x.0, x.1)) (topic_given m v sent w refl)
  report-messages m panics sent w = ap (λ l. (panics, (l, w))) (sym (append-nil sent))
  report-messages m hangs sent w = ap (λ l. (hangs, (l, w))) (sym (append-nil sent))

  -- With a broker that answers by topic and message, an initialized middleware gives the fn's own output, and sends one message at most: the error to
  -- the error topic if the fn returns one, and else the output, unless it is nil, to the success
  -- topic; nothing to a topic that is not configured. A refused message adds its error.
  pub invoke-sent :
      (m : KafkaMiddleware Producer) (f : Fn W) (ctx : Context) (input : Value)
      (sent : List (String × Printed)) (w : W)
      → m.initialized ≡ true
      → m.initialization_error ≡ none
      → invoke client m ctx input (silent f) (sent, w) ≡ (
        m,
        with_refusal client.message_of
            (first_refusal answer (messages m.config (f ctx input w).0))
            (f ctx input w).0,
        (sent ++ messages m.config (f ctx input w).0, (f ctx input w).1),
      )
  unfolding invoke
  invoke-sent m f ctx input sent w e e' =
      ap (continue_invoke client ctx input (silent f)) (initialize_idle client m (sent, w) e)
      ∙ ap (λ o. after_initialize client ctx input (silent f) o m (sent, w)) e'
      ∙ ap (λ (x : Reply × Broker W). (m, x.0, x.1))
          (report-messages m (f ctx input w).0 sent (f ctx input w).1)

module _ {Producer W : Type 0} (client : Client Producer W) where
  after_initialization-initialized :
      (m m' : KafkaMiddleware Producer) (r : Result Producer) (w w' : W)
      → after_initialization client m (r, w) ≡ (ok tt, m', w')
      → m'.initialized ≡ true
  after_initialization-initialized m m' (ok p) w w' h =
      ap (λ (x : Result (Unit {0}) × KafkaMiddleware Producer × W). x.1.initialized) (sym h)
  after_initialization-initialized m m' (err e) w w' h =
      ap (λ (x : Result (Unit {0}) × KafkaMiddleware Producer × W). x.1.initialized) (sym h)
  after_initialization-initialized m m' panic w w' h = cc
  after_initialization-initialized m m' hang w w' h = cc

  initialize_with-initialized :
      (b : Bool) (p : Option Producer) (m m' : KafkaMiddleware Producer) (w w' : W)
      → m.initialized ≡ b
      → initialize_with client b p m w ≡ (ok tt, m', w')
      → m'.initialized ≡ true
  unfolding initialize_with
  initialize_with-initialized true p m m' w w' e h =
      ap (λ (x : Result (Unit {0}) × KafkaMiddleware Producer × W). x.1.initialized) (sym h) ∙ e
  initialize_with-initialized false (some p) m m' w w' e h =
      ap (λ (x : Result (Unit {0}) × KafkaMiddleware Producer × W). x.1.initialized) (sym h)
  initialize_with-initialized false none m m' w w' e h =
      after_initialization-initialized m m' (initialize_producer client m.config w).0
        (initialize_producer client m.config w).1 w' h

  initialize-initialized :
      (m m' : KafkaMiddleware Producer) (w w' : W)
      → initialize client m w ≡ (ok tt, m', w')
      → m'.initialized ≡ true
  unfolding initialize
  initialize-initialized m m' w w' h =
      initialize_with-initialized m.initialized m.producer m m' w w' refl h

  -- An initialization that has failed is not tried again: every later invocation returns its error,
  -- does not invoke the fn and changes nothing.
  invoke_after_failure :
      (m m' : KafkaMiddleware Producer) (w w' : W) (e : Error)
      → initialize client m w ≡ (ok tt, m', w')
      → m'.initialization_error ≡ some e
      → (ctx : Context) (input : Value) (f : Fn W) (u : W)
      → invoke client m' ctx input f u ≡ (m', returns null (some e), u)
  unfolding invoke
  invoke_after_failure m m' w w' e h failed ctx input f u =
      ap (continue_invoke client ctx input f)
        (initialize_idle client m' u (initialize-initialized m m' w w' h))
      ∙ ap (λ o. after_initialize client ctx input f o m' u) failed
