-- ===== src/Sources/Kafka/Hooks.antt =====
-- run/source/kafka/decode_hooks.go: the hooks by which mapstructure decodes the configuration.
use fnrun.Prelude.{String, Bool, true, List, [], ◌∷◌, if◌then◌else◌, str_eq}
use fnrun.Value.{Value, str, Fields}
use fnrun.Exec.{errorf, Result, ok, err, panic, hang}

-- sarama.BalanceStrategy, as the hook chooses it
pub data BalanceStrategy : Type 0 where
  sticky round_robin range : BalanceStrategy

-- The type that is decoded to; any other by its name.
pub data Target : Type 0 where
  balance_strategy_type : Target
  kafka_version_type : Target
  another : String → Target

-- The data before and after a hook, and the lists that the hook of mapstructure splits.
pub data Data (Version : Type 0) : Type 0 where
  plain : Value → Data Version
  strategy : BalanceStrategy → Data Version
  version : Version → Data Version
  strings : List String → Data Version

-- mapstructure.DecodeHookFunc; of the type that is decoded from, whether its kind is reflect.String
abbrev pub Hook : Type 0 → Type 0
Hook Version = Bool → Target → Data Version → Result (Data Version)

-- `switch strategyStr`
unfoldable pub balance_strategy : String → Result BalanceStrategy
balance_strategy strategy_str =
    if str_eq strategy_str "sticky"
    then ok sticky
    else if str_eq strategy_str "roundrobin"
    then ok round_robin
    else if str_eq strategy_str "range"
    then ok range
    else err (errorf "unrecognized balance strategy: %q" (strategy_str ∷ []))

-- The result of a hook that parses a string.
abbrev pub parsed_to : {Version A : Type 0} → (A → Data Version) → Result A → Result (Data Version)
parsed_to to (ok a) = ok (to a)
parsed_to to (err e) = err e
parsed_to to panic = panic
parsed_to to hang = hang

-- `data.(string)`, before the parser is called
abbrev pub on_string :
    {Version : Type 0} → (String → Result (Data Version)) → Data Version → Result (Data Version)
on_string parse (plain (str s)) = parse s
on_string parse data' = panic

module _ {Version : Type 0} where
  -- stringToBalanceStrategyHookFunc
  unfoldable pub string_to_balance_strategy_hook : Hook Version
  unfolding balance_strategy
  string_to_balance_strategy_hook true balance_strategy_type data' =
      on_string (λ s. parsed_to strategy (balance_strategy s)) data'
  string_to_balance_strategy_hook _ _ data' = ok data'

  -- stringToKafkaVersionHookFunc; the parameter is sarama.ParseKafkaVersion
  unfoldable pub string_to_kafka_version_hook : (String → Result Version) → Hook Version
  string_to_kafka_version_hook parse_kafka_version true kafka_version_type data' =
      on_string (λ s. parsed_to version (parse_kafka_version s)) data'
  string_to_kafka_version_hook parse_kafka_version _ _ data' = ok data'

-- mapstructure: ComposeDecodeHookFunc, StringToSliceHookFunc, and NewDecoder and Decode with a hook
-- into a struct, which may be changed also when the decoder fails
pub record Mapstructure (Version S : Type 0) : Type 0 where
  pub compose_decode_hook_func : List (Hook Version) → Hook Version
  pub string_to_slice_hook_func : String → Hook Version
  pub decode : Hook Version → Fields → S → Result (Unit {0}) × S
