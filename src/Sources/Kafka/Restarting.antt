-- ===== src/Sources/Kafka/Restarting.antt =====
-- Serving again after Serve has returned, as main does when it restarts the runner.
use fnrun.Prelude.{
  ℕ, suc, ◌≡◌, ◌≢◌, refl, sym, ap, subst, ◌∙◌, false, Option, none, some, List, String, arith,
}
use mathlib.Core.Option
use fnrun.Exec.{Error, Context, Result, ok, err, panic, hang, Fn, then_assign-failed}
use fnrun.Sources.Kafka.{Consumer, Handler, handler}
use fnrun.Sources.Kafka.Serving.{
  KafkaSource, GroupClient, set_up_with, new_group, served_by, closing, set_up_consumer_group,
  consume_rounds, after_set_up, serve, failed, rounds-Rounds,
}

module _ {Version Group W : Type 0} (sarama : GroupClient Version Group W)
    (IsClosed : Group → W → Type 0)
    (closes : (client : Group) (w : W) → IsClosed client (sarama.close client w)) where
  abbrev Served : Type 0
  Served = Result (Unit {0}) × KafkaSource Version Group × W

  -- The goroutine closes the client on whatever way it ends.
  rounds-IsClosed :
      (k : KafkaSource Version Group) (client : Group) (o : Option (Result (Unit {0}) × W))
      (r : Result (Unit {0})) (k' : KafkaSource Version Group) (w' : W)
      → Option.map (served_by sarama k) (Option.map (closing sarama client) o) ≡ some (r, k', w')
      → (k' ≡ k) × IsClosed client w'
  rounds-IsClosed k client none r k' w' h = cc
  rounds-IsClosed k client (some (r₀, w₀)) r k' w' h =
      let e : ◌≡◌ {A = Served} (r₀, k, sarama.close client w₀) (r, k', w') = cc in
      (
        sym (ap (λ (x : Served). x.1) e),
        subst (IsClosed client) (ap (λ (x : Served). x.2) e) (closes client w₀),
      )

  abbrev run_on : ℕ → KafkaSource Version Group → Context → Fn W → W → Option Group → Option Served
  run_on n k ctx f w o = elim o [
    | none ↦ some (panic, k, w)
    | some client ↦ Option.map (served_by sarama k) (consume_rounds sarama n k client ctx f w)
  ]

  run_on-IsClosed :
      (n : ℕ) (k k' : KafkaSource Version Group) (ctx : Context) (f : Fn W) (w w' : W)
      (r : Result (Unit {0})) (o : Option Group) (client : Group)
      → run_on n k ctx f w o ≡ some (r, k', w')
      → k.client ≡ o
      → k'.client ≡ some client
      → IsClosed client w'
  unfolding consume_rounds
  run_on-IsClosed n k k' ctx f w w' r none client h e e' = let same : k ≡ k' = cc in cc
  run_on-IsClosed n k k' ctx f w w' r (some c) client h e e' =
      let (same, closed) = rounds-IsClosed k c _ r k' w' h in
      let eq : c ≡ client = cc in subst (λ x. IsClosed x w') eq closed

  after_set_up-IsClosed :
      (n : ℕ) (ctx : Context) (f : Fn W) (set : Result (Unit {0}))
      (k k' : KafkaSource Version Group) (w w' : W) (r : Result (Unit {0})) (client : Group)
      → (set ≢ ok tt → k.client ≡ none)
      → after_set_up sarama n ctx f (set, k, w) ≡ some (r, k', w')
      → k'.client ≡ some client
      → IsClosed client w'
  after_set_up-IsClosed n ctx f (ok _) k k' w w' r client unset h e =
      run_on-IsClosed n k k' ctx f w w' r k.client client h refl e
  after_set_up-IsClosed n ctx f (err x) k k' w w' r client unset h e =
      let absent = unset (λ p. cc) in let same : k ≡ k' = cc in cc
  after_set_up-IsClosed n ctx f panic k k' w w' r client unset h e =
      let absent = unset (λ p. cc) in let same : k ≡ k' = cc in cc
  after_set_up-IsClosed n ctx f hang k k' w w' r client unset h e =
      let absent = unset (λ p. cc) in let same : k ≡ k' = cc in cc

  -- A set-up that fails leaves the source without a client.
  set_up_with-unset :
      (o : Option Group) (k : KafkaSource Version Group) (w : W)
      → k.client ≡ o
      → (set_up_with sarama o k w).0 ≢ ok tt
      → (set_up_with sarama o k w).1.client ≡ none
  unfolding set_up_with
  set_up_with-unset (some c) k w e h = absurd (h refl)
  set_up_with-unset none k w e h =
      ap (λ (x : KafkaSource Version Group). x.client)
        (then_assign-failed (λ (c : Group). record k { client = some c }) k (new_group sarama k) w
          h)
      ∙ e

  -- A Serve that has a client when it returns has closed it.
  pub serve-IsClosed :
      (n : ℕ) (k k' : KafkaSource Version Group) (ctx : Context) (f : Fn W) (w w' : W)
      (r : Result (Unit {0})) (client : Group)
      → serve sarama n k ctx f w ≡ some (r, k', w')
      → k'.client ≡ some client
      → IsClosed client w'
  unfolding serve set_up_consumer_group
  serve-IsClosed n k k' ctx f w w' r client h e =
      let s : Served = set_up_with sarama k.client k w in
      after_set_up-IsClosed n ctx f s.0 s.1 k' s.2 w' r client (set_up_with-unset k.client k w refl)
        h e

  -- A source with a client keeps it, whatever the client has become.
  again_on_client :
      (n : ℕ) (k : KafkaSource Version Group) (ctx : Context) (f : Fn W) (w : W) (client : Group)
      → k.client ≡ some client
      → serve sarama n k ctx f w
        ≡ Option.map (served_by sarama k) (consume_rounds sarama n k client ctx f w)
  unfolding serve set_up_consumer_group set_up_with consume_rounds
  again_on_client n k ctx f w client e =
      ap (λ o. after_set_up sarama n ctx f (set_up_with sarama o k w)) e ∙ ap (run_on n k ctx f w) e

  -- A source whose client is closed never gets another: a Serve whose context is not cancelled fails in
  -- its first round, with the error that Consume gives on a closed client, and does nothing but close
  -- the client once more.
  pub closed_fails :
      (closed : Error)
      (refuses : (client : Group) (topics : List String) (h : Handler W) (u : W)
        → IsClosed client u
        → sarama.consume client topics h u ≡ (err closed, u))
      (m : ℕ) (k : KafkaSource Version Group) (ctx : Context) (f : Fn W) (u : W) (client : Group)
      → k.client ≡ some client
      → IsClosed client u
      → sarama.is_cancelled ctx u ≡ false
      → serve sarama (suc m) k ctx f u ≡ some (err closed, k, sarama.close client u)
  unfolding consume_rounds
  closed_fails closed refuses m k ctx f u client e is_closed running =
      let consumer : Consumer W = record { ctx = ctx; f = f; ignore_errors = k.ignore_errors } in
      let consume = sarama.consume client k.topics (handler consumer) in
      let refused = refuses client k.topics (handler consumer) u is_closed in
      again_on_client (suc m) k ctx f u client e
      ∙ ap
          (λ (o : Option (Result (Unit {0}) × W)).
            Option.map (served_by sarama k) (Option.map (closing sarama client) o))
          (rounds-Rounds (sarama.is_cancelled ctx) consume 0 (suc m) u u (err closed)
            (failed u u closed running refused) (omega arith))
