-- ===== src/Sources/Kafka.antt =====
-- run/source/kafka: the messages of a topic are the inputs.
pub mod Hooks
pub mod Marking
pub mod Restarting
pub mod Serving
use fnrun.Prelude.{
  ℕ, String, Bool, true, false, Option, none, some, List, [], ◌∷◌, if◌then◌else◌, str_eq, lookup,
}
use fnrun.Value.{Value, str, int32, int64, other, Fields, end, field, object, get, put}
use fnrun.Value.Int.{ℤ}
use fnrun.Exec.{
  Error, wrap, errorf, Context, Result, ok, err, panic, hang, Reply, returns, panics, hangs, Fn,
  Exec, pure,
}

-- sarama.ConsumerMessage; the timestamp is a time.Time, by an identifier
pub record ConsumerMessage : Type 0 where
  pub key : String
  pub value : String
  pub offset : ℤ
  pub partition : ℤ
  pub topic : String
  pub timestamp : ℕ

-- createInput
unfoldable pub create_input : ConsumerMessage → Value
create_input message = object (
    field "key" (str message.key) (
      field "value" (str message.value) (
        field "offset" (int64 message.offset) (
          field "partition" (int32 message.partition) (
            field "topic" (str message.topic)
              (field "timestamp" (other "time.Time" message.timestamp) end))))))

-- consumer
pub record Consumer (W : Type 0) : Type 0 where
  pub ctx : Context
  pub f : Fn W
  pub ignore_errors : Bool

module _ {W : Type 0} where
  -- The rest of the loop's body once the fn has returned: mark the message and go on, or return.
  abbrev pub after_invoke :
      Bool → (W → W) → (W → Result (Unit {0}) × W) → Reply × W → Result (Unit {0}) × W
  after_invoke ignore_errors mark next (returns v none, w) = next (mark w)
  after_invoke true mark next (returns v (some e), w) = next (mark w)
  after_invoke false mark next (returns v (some e), w) = (err e, w)
  after_invoke ignore_errors mark next (panics, w) = (panic, w)
  after_invoke ignore_errors mark next (hangs, w) = (hang, w)

  -- ConsumeClaim, on the messages that the claim's channel gives until it is closed; `mark` is the
  -- session's MarkMessage
  unfoldable pub consume_claim :
      (ConsumerMessage → W → W) → Consumer W → List ConsumerMessage → W → Result (Unit {0}) × W
  unfolding create_input
  consume_claim mark consumer [] w = (ok tt, w)
  consume_claim mark consumer (message ∷ messages) w =
      after_invoke consumer.ignore_errors (mark message)
        (λ u. consume_claim mark consumer messages u)
        (consumer.f consumer.ctx (create_input message) w)

  -- Setup and Cleanup
  unfoldable pub setup : Consumer W → Exec W (Unit {0})
  setup consumer = pure tt

  unfoldable pub cleanup : Consumer W → Exec W (Unit {0})
  cleanup consumer = pure tt

-- sarama.ConsumerGroupHandler: what a consumer group calls in a session, whose MarkMessage is the
-- argument of consume_claim.
pub record Handler (W : Type 0) : Type 0 where
  pub setup : Exec W (Unit {0})
  pub consume_claim : (ConsumerMessage → W → W) → List ConsumerMessage → Exec W (Unit {0})
  pub cleanup : Exec W (Unit {0})

-- A consumer as sarama sees it.
unfoldable pub handler : {W : Type 0} → Consumer W → Handler W
unfolding setup cleanup consume_claim
handler consumer = record {
  setup = setup consumer;
  consume_claim = λ mark messages. consume_claim mark consumer messages;
  cleanup = cleanup consumer;
}
