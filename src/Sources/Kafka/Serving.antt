-- ===== src/Sources/Kafka/Serving.antt =====
-- run/source/kafka/kafka.go: the group of consumers, and its configuration.
use fnrun.Prelude.{
  ℕ, zero, suc, ◌<◌, ◌≡◌, String, Bool, true, false, Option, none, some, List, [], ◌∷◌,
  if◌then◌else◌, arith,
}
use mathlib.Core.Option
use fnrun.Value.{str, Fields, get, put}
use fnrun.Exec.{Error, wrap, Context, Result, ok, err, panic, hang, Fn, Exec, Method, then_assign}
use fnrun.Sources.Kafka.{Handler, handler}
use fnrun.Sources.Kafka.Hooks.{
  BalanceStrategy, Hook, Mapstructure, string_to_kafka_version_hook,
  string_to_balance_strategy_hook,
}

-- kafkaSource; the assignor is nil until it is configured
pub record KafkaSource (Version Group : Type 0) : Type 0 where
  pub group : String
  pub brokers : List String
  pub topics : List String
  pub oldest : Bool
  pub assignor : Option BalanceStrategy
  pub version : Version
  pub ignore_errors : Bool
  pub client : Option Group

-- sarama.Config, with the fields that are set; `oldest` is Offsets.Initial = OffsetOldest
pub record GroupConfig (Version : Type 0) : Type 0 where
  pub version : Version
  pub strategy : Option BalanceStrategy
  pub oldest : Bool

-- `if _, exists := configMap["assignor"]; !exists { configMap["assignor"] = "sticky" }`
unfoldable pub with_assignor : Fields → Fields
with_assignor config_map = elim (get "assignor" config_map) [
  | none ↦ put "assignor" (str "sticky") config_map
  | some v ↦ config_map
]

-- errors.Wrap around the error of NewConsumerGroup
abbrev pub wrapped_group : {Group W : Type 0} → Result Group × W → Result Group × W
wrapped_group (err e, w) = (err (wrap e "error creating consumer group client"), w)
wrapped_group r = r

-- sarama's consumer groups, which call the handler for each session, and the context's Err() != nil
pub record GroupClient (Version Group W : Type 0) : Type 0 where
  pub new_consumer_group : List String → String → GroupConfig Version → Exec W Group
  pub consume : Group → List String → Handler W → Exec W (Unit {0})
  pub close : Group → W → W
  pub is_cancelled : Context → W → Bool

module _ {Version Group : Type 0} (lib : Mapstructure Version (KafkaSource Version Group))
    (parse_kafka_version : String → Result Version) where
  -- The decoder's hooks, in order.
  unfoldable pub decode_hook : Hook Version
  unfolding string_to_kafka_version_hook string_to_balance_strategy_hook
  decode_hook = lib.compose_decode_hook_func (
      lib.string_to_slice_hook_func ","
      ∷ string_to_kafka_version_hook parse_kafka_version
      ∷ string_to_balance_strategy_hook
      ∷ [])

  -- ConfigureMap: the decoder writes into the source itself, also when it fails
  unfoldable pub configure_map :
      {W : Type 0} → Fields → KafkaSource Version Group → Method (KafkaSource Version Group) W
  unfolding with_assignor decode_hook
  configure_map config_map k w =
      let (r, k') = lib.decode decode_hook (with_assignor config_map) k in (r, k', w)

-- New; the parameter is the version 2.1.1
unfoldable pub new : {Version Group : Type 0} → Version → KafkaSource Version Group
new version = record {
  group = "";
  brokers = [];
  topics = [];
  oldest = false;
  assignor = none;
  version = version;
  ignore_errors = false;
  client = none;
}

module _ {W : Type 0} where
  -- The end of a round of the goroutine's loop.
  abbrev pub after_round :
      (W → Option (Result (Unit {0}) × W)) → Result (Unit {0}) × W → Option (Result (Unit {0}) × W)
  after_round next (ok _, w) = next w
  after_round next (err e, w) = some (err e, w)
  after_round next (panic, w) = some (panic, w)
  after_round next (hang, w) = some (hang, w)

  -- The goroutine's loop, for the number of rounds that is given: what it sends on the channel, or
  -- nil where it closes the channel without sending, and none while it is not over.
  unfoldable pub rounds : ℕ → (W → Bool) → Exec W (Unit {0}) → W → Option (Result (Unit {0}) × W)
  rounds zero is_cancelled consume w = none
  rounds (suc n) is_cancelled consume w =
      if is_cancelled w
      then some (ok tt, w)
      else after_round (λ u. rounds n is_cancelled consume u) (consume w)

module _ {Version Group W : Type 0} (sarama : GroupClient Version Group W) where
  abbrev pub new_group : KafkaSource Version Group → Exec W Group
  new_group k w = wrapped_group (
      sarama.new_consumer_group k.brokers k.group
        (record { version = k.version; strategy = k.assignor; oldest = k.oldest }) w)

  -- setUpConsumerGroup, by the client that there is
  unfoldable pub set_up_with :
      Option Group → KafkaSource Version Group → Method (KafkaSource Version Group) W
  set_up_with (some client) k = λ w. (ok tt, k, w)
  set_up_with none k = then_assign (new_group k) (λ client. record k { client = some client }) k

  unfoldable pub set_up_consumer_group :
      KafkaSource Version Group → Method (KafkaSource Version Group) W
  unfolding set_up_with
  set_up_consumer_group k = set_up_with k.client k

  -- The deferred Close.
  abbrev pub closing : Group → Result (Unit {0}) × W → Result (Unit {0}) × W
  closing client (r, w) = (r, sarama.close client w)

  abbrev pub served_by :
      KafkaSource Version Group
      → Result (Unit {0}) × W
      → Result (Unit {0}) × KafkaSource Version Group × W
  served_by k (r, w) = (r, k, w)

  -- The goroutine of Serve, with the deferred Close, and the receive of its channel.
  unfoldable pub consume_rounds :
      ℕ → KafkaSource Version Group → Group → Context → Fn W → W → Option (Result (Unit {0}) × W)
  unfolding rounds handler
  consume_rounds n k client ctx f w = Option.map (closing client) (
      rounds n (sarama.is_cancelled ctx)
        (sarama.consume client k.topics
          (handler (record { ctx = ctx; f = f; ignore_errors = k.ignore_errors })))
        w)

  abbrev pub after_set_up :
      ℕ
      → Context
      → Fn W
      → Result (Unit {0}) × KafkaSource Version Group × W
      → Option (Result (Unit {0}) × KafkaSource Version Group × W)
  after_set_up n ctx f (ok _, k, w) = elim k.client [
    | none ↦ some (panic, k, w)
    | some client ↦ Option.map (served_by k) (consume_rounds n k client ctx f w)
  ]
  after_set_up n ctx f (err e, k, w) = some (err e, k, w)
  after_set_up n ctx f (panic, k, w) = some (panic, k, w)
  after_set_up n ctx f (hang, k, w) = some (hang, k, w)

  -- Serve
  unfoldable pub serve :
      ℕ
      → KafkaSource Version Group
      → Context
      → Fn W
      → W
      → Option (Result (Unit {0}) × KafkaSource Version Group × W)
  unfolding set_up_consumer_group consume_rounds
  serve n k ctx f w = after_set_up n ctx f (set_up_consumer_group k w)

-- The loop, with the number of rounds that it takes: so many times Consume succeeds, until the
-- context is found cancelled or Consume fails.
pub data Rounds {W : Type 0} (is_cancelled : W → Bool) (consume : Exec W (Unit {0}))
    : ℕ → W → Result (Unit {0}) → W → Type 0 where
  cancelled : (w : W) → is_cancelled w ≡ true → Rounds is_cancelled consume 0 w (ok tt) w
  failed :
      (w w' : W) (e : Error)
      → is_cancelled w ≡ false
      → consume w ≡ (err e, w')
      → Rounds is_cancelled consume 0 w (err e) w'
  again :
      (n : ℕ) (w u w' : W) (r : Result (Unit {0}))
      → is_cancelled w ≡ false
      → consume w ≡ (ok tt, u)
      → Rounds is_cancelled consume n u r w'
      → Rounds is_cancelled consume (suc n) w r w'

module _ {W : Type 0} (is_cancelled : W → Bool) (consume : Exec W (Unit {0})) where
  -- With more fuel than there are successful calls of Consume, the loop gives what ends it: nil if the
  -- context was found cancelled, and else the error of the call that failed.
  pub rounds-Rounds :
      (k n : ℕ) (w w' : W) (r : Result (Unit {0}))
      → Rounds is_cancelled consume k w r w'
      → k < n
      → rounds n is_cancelled consume w ≡ some (r, w')
  unfolding rounds
  rounds-Rounds k zero w w' r s h = absurd (omega (arith, h))
  rounds-Rounds zero (suc n) w _ _ (cancelled _ c) h = rw (rounds, c)
  rounds-Rounds zero (suc n) w w' _ (failed _ _ e c f) h = rw (rounds, c, f)
  rounds-Rounds (suc k) (suc n) w w' r (again _ _ u _ _ c o s) h =
      rw (rounds, c, o) (rounds-Rounds k n u w' r s (omega (arith, h)))
