-- ===== src/Tests/Middlewares.antt =====
-- The middlewares on small inputs.
use fnrun.Prelude.{
  ℕ, ◌+◌, String, ◌≡◌, refl, List, ◌⊎◌, ◌↔◌, Bool, true, false, Option, none, some, [], ◌∷◌, str_eq,
  if◌then◌else◌,
}
use fnrun.Value.{Value, Fields, null, str, end, field, object, get_or_null}
use fnrun.Value.Int.{ℤ, pos, ◌+ℤ◌, ltb_ℤ}
use fnrun.Exec.{Context, Result, Error, text, foreign, ok, err, returns, Exec, pure}
use fnrun.Pipeline.{compose}
use fnrun.Middlewares.Key.{at_path}
use fnrun.Middlewares.Limits.{new_limited}
use fnrun.Middlewares.Limits.Fixed.{Call, invoking, configuring, calls, unlimited, calls-unlimited}
use fnrun.Middlewares.Timeout.{invoke_deadline, NotAfter}
use fnrun.Middlewares.Timeout
use fnrun.Middlewares.Json
use fnrun.Middlewares.Json.{
  Json, Transcodes, compose-roundtrip, invoke-ok_iff, printing, parsing, new,
}
use fnrun.Middlewares.Jq.{Iter, done, value, apply, apply-program_result, program_result}
use fnrun.Middlewares.Tap.Transparent.{invoke-messages, recording}
use fnrun.Middlewares.Tap
use fnrun.Middlewares.Tap.Sharing
use fnrun.Middlewares.Tap.Sharing.{Reach-IsSingle}
use fnrun.Middlewares.Kafka
use fnrun.Middlewares.Kafka.{
  KafkaConfig, KafkaMiddleware, Client, TlsConfig, Printed, ProducerConfig, initialize,
}
use fnrun.Middlewares.Kafka.Sending.{Broker, sends, invoke-sent}
use fnrun.Middlewares.Kafka.Sending
use fnrun.Tests.World.{background, echo}

-- {"a": {"b": "x"}}
abbrev nested : Value
nested = object (field "a" (object (field "b" (str "x") end)) end)

at_path_run : at_path ("a" ∷ "b" ∷ []) nested ≡ some (str "x")
unfolding at_path get_or_null
at_path_run = refl

abbrev by_three : Context
by_three = record { deadline = some (pos 3) }

invoke_deadline_example :
    (ctx' : Context) × (Timeout.invoke pos Timeout.new by_three (str "x") echo 7
      ≡ echo ctx' (str "x") 7)
    × NotAfter ctx'.deadline (some (pos 7 +ℤ Timeout.new.duration))
    × NotAfter ctx'.deadline (some (pos 3))
    × ((ctx'.deadline ≡ some (pos 7 +ℤ Timeout.new.duration)) ⊎ (ctx'.deadline ≡ some (pos 3)))
invoke_deadline_example = invoke_deadline pos Timeout.new by_three (str "x") echo 7

-- A printer and parser of the one text "null".
abbrev nulls : Json
nulls = record {
  marshal = λ v. if Kafka.is_null v then ok "null" else err (foreign "json");
  unmarshal = λ s. if str_eq s "null" then ok null else err (foreign "json");
}

compose-roundtrip_example :
    compose (Json.invoke nulls printing ∷ Json.invoke nulls parsing ∷ []) background null echo 0
    ≡ (returns null none, 100)
compose-roundtrip_example =
    compose-roundtrip nulls null null "null" "null" echo background 0 100 refl refl refl refl refl

invoke-ok_iff_example :
    (Json.invoke nulls parsing background (str "null") echo 0 ≡ (returns (str "null") none, 100))
    ↔ ((x : Value) × (y : Value) × Transcodes nulls "deserialize" (str "null") x
        × (echo background x 0 ≡ (returns y none, 100))
        × Transcodes nulls "serialize" y (str "null"))
invoke-ok_iff_example = invoke-ok_iff nulls parsing background (str "null") echo 0 (str "null") 100

-- A program that gives its input twice.
abbrev twice : ℕ → Context → Value → ℕ → Iter
twice code ctx v w = value v (value v done)

apply-program_result_example :
    apply twice background (some 5) (str "x") 0
    ≡ program_result twice background (some 5) (str "x") 0
apply-program_result_example = apply-program_result twice background (some 5) (str "x") 0

abbrev tap : Tap.Tap ℕ ℕ
tap = record {
  alive = false;
  base_cmd = some 8;
  stdin = none;
  tap_input = true;
  tap_output = false;
  tap_error = true;
}

abbrev os : Tap.Process ℕ ℕ (Tap.Piped ℕ ℕ)
os = record {
  parse_cmd = λ s. pure 8;
  environ = "PATH=/bin" ∷ [];
  with_env = λ cmd env. cmd;
  start = λ cmd. pure 0;
  write = λ pipe m w. w;
}

abbrev begin : ℕ → Exec (Tap.Piped ℕ ℕ) ℕ
begin cmd (sent, w) = (ok cmd, (sent, w + 1))

invoke-messages_example :
    Tap.invoke (recording os begin) tap background (str "x") (Tap.silent echo) ([], 0) ≡ (
      record tap { alive = true; stdin = some 8 },
      returns (str "x") none,
      ((some 8, Tap.line (str "x")) ∷ [], 101),
    )
unfolding Tap.start
invoke-messages_example =
    invoke-messages os begin echo background (str "x") tap
      (record tap { alive = true; stdin = some 8 }) 8 [] [] 0 1 refl refl

-- A client without files, whose broker refuses errors.
abbrev refuse : String → Printed → Option Error
refuse topic (Kafka.output v) = none
refuse topic (Kafka.error e) = some (text "refused")

abbrev client : Client ℕ (Broker ℕ)
client = record {
  load_key_pair = λ cert key. pure (cert, key);
  read_file = λ path. pure path;
  new_producer = λ brokers c w. (err (text "no broker"), w);
  send = λ p message. sends refuse p message.topic message.value;
  message_of = λ e. "message";
}

abbrev kafka_config : KafkaConfig
kafka_config = record {
  brokers = "b" ∷ [];
  success_topic = "good";
  error_topic = "bad";
  cert_file = "cert";
  key_file = "key";
  ca_file = "ca";
  verify_ssl = true;
}

abbrev kafka : Bool → Option ℕ → KafkaMiddleware ℕ
kafka initialized producer = record {
  config = kafka_config;
  producer = producer;
  initialization_error = none;
  initialized = initialized;
}

invoke-sent_example :
    Kafka.invoke client (kafka true (some 1)) background (str "x") (Sending.silent echo) ([], 0)
    ≡ (kafka true (some 1), returns (str "x") none, (("good", Kafka.output (str "x")) ∷ [], 100))
unfolding Kafka.send_message
invoke-sent_example =
    invoke-sent client refuse refl (kafka true (some 1)) echo background (str "x") [] 0 refl refl

-- Two invocations find no program; the first one starts it, and the second one finds it then.
abbrev both_ready : Sharing.Tapping
both_ready = record Sharing.start { alive = true; started = 1; live = 0 ∷ []; ready = 1 ∷ 2 ∷ [] }

both_ready_reached : Sharing.Reach Sharing.start both_ready
both_ready_reached =
    Sharing.next
      (Sharing.next
        (Sharing.next
          (Sharing.next
            (Sharing.next (Sharing.next Sharing.here (Sharing.miss 1 refl refl))
              (Sharing.miss 2 refl refl))
            (Sharing.lock 2 [] (1 ∷ []) refl refl refl))
          (Sharing.launch 2 refl refl))
        (Sharing.lock 1 [] [] refl refl refl))
      (Sharing.find_again 1 refl refl)

Reach-IsSingle_example : Sharing.IsSingle both_ready
Reach-IsSingle_example = Reach-IsSingle both_ready_reached

-- A limiter that refuses once the world has come to a number that its burst sets.
abbrev burst_of : ℤ → ℤ → ℤ
burst_of every burst = burst

abbrev spending : ℤ → Context → ℕ → Result (Unit {0}) × ℕ
spending l ctx w = if ltb_ℤ (pos w) (l +ℤ pos 200) then (ok tt, w + 1) else (err (text "rate"), w)

abbrev burst_of_two : Fields → ℤ × ℤ → Result (Unit {0}) × ℤ × ℤ
burst_of_two fs (burst, every) = (ok tt, pos 2, every)

abbrev three_invocations : List (Call ℕ)
three_invocations =
    configuring end
    ∷ invoking background (str "a") echo
    ∷ configuring end
    ∷ invoking background (str "b") echo
    ∷ invoking background (str "c") echo
    ∷ []

calls-unlimited_example :
    calls burst_of spending burst_of_two new_limited three_invocations 0
    ≡ unlimited burst_of spending burst_of_two (pos 1, pos 1000000000) three_invocations 0
unfolding new_limited
calls-unlimited_example =
    calls-unlimited burst_of spending burst_of_two new_limited three_invocations 0 refl

two_of_three : calls burst_of spending burst_of_two new_limited three_invocations 0 ≡ (
  returns (str "a") none ∷ returns (str "b") none ∷ returns null (some (text "rate")) ∷ [],
  202,
)
unfolding calls new_limited ◌+ℤ◌
two_of_three = refl
