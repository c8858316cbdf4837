-- ===== src/Sources/ServiceBus.antt =====
-- run/source/azure/servicebus: the messages of a queue, or of its dead letters, are the inputs.
pub mod Settling
pub mod Renewing
use fnrun.Prelude.{
  ℕ, zero, suc, String, Bool, true, false, Option, none, some, List, [], ◌∷◌, if◌then◌else◌, str_eq,
}
use mathlib.Core.Option
use fnrun.Value.{Value, str, Fields, end, field, object}
use fnrun.Value.Int.{ℤ, pos}
use fnrun.Exec.{
  Error, text, Context, Result, ok, err, panic, hang, Reply, returns, panics, hangs, Fn, Exec,
  Method,
}

-- servicebus.Message, with the fields that are read
pub record Message : Type 0 where
  pub content_type : String
  pub data_text : String

-- newInputFromMessage
unfoldable pub new_input_from_message : Message → Value
new_input_from_message msg =
    object (field "ContentType" (str msg.content_type) (field "Data" (str msg.data_text) end))

-- queueSource
pub record QueueSource : Type 0 where
  pub service_bus_conn_str : String
  pub queue_name : String
  pub is_dead_letter_receiver : Bool
  pub auto_renew_lock_interval : ℤ

abbrev pub no_conn_str : Error
no_conn_str = text "expected connection string to have a value"

abbrev pub no_queue_name : Error
no_queue_name = text "expected queue name to be set"

-- The tests at the end of ConfigureMap.
unfoldable pub validated : QueueSource → Result (Unit {0})
validated q =
    if str_eq q.service_bus_conn_str ""
    then err no_conn_str
    else if str_eq q.queue_name ""
    then err no_queue_name
    else ok tt

-- ConfigureMap: the decoder writes into the source itself, also when it fails, or when a test fails
-- afterwards
unfoldable pub configure_map :
    {W : Type 0}
    → (Fields → QueueSource → Result (Unit {0}) × QueueSource)
    → Fields
    → QueueSource
    → Method QueueSource W
unfolding validated
configure_map decode config_map q w = decoded (decode config_map q) w
  where
    decoded : {W : Type 0} → Result (Unit {0}) × QueueSource → Method QueueSource W
    decoded (ok _, q') w = (validated q', q', w)
    decoded (r, q') w = (r, q', w)

-- New
unfoldable pub new : QueueSource
new = record {
  service_bus_conn_str = "";
  queue_name = "";
  is_dead_letter_receiver = false;
  auto_renew_lock_interval = pos 0;
}

-- azure-service-bus-go: a namespace, a queue and its dead letters, ReceiveOne, which calls the handler
-- on a message, and Abandon and Complete; and log.Printf.
pub record Bus (Queue W : Type 0) : Type 0 where
  pub new_queue : String → String → Exec W Queue
  pub new_dead_letter : Queue → Queue
  pub close : Queue → W → W
  pub receive_one : Queue → (Message → Exec W (Unit {0})) → Exec W (Unit {0})
  pub abandon : Message → Exec W (Unit {0})
  pub complete : Message → Exec W (Unit {0})
  pub log_abandoning : Error → W → W
  pub log_settling : Error → W → W

module _ {Queue W : Type 0} (bus : Bus Queue W) where
  -- Abandon or Complete, once the fn is done.
  abbrev pub settle : Message → Reply × W → Result (Unit {0}) × W
  settle msg (returns v none, w) = bus.complete msg w
  settle msg (returns v (some e), w) = bus.abandon msg (bus.log_abandoning e w)
  settle msg (panics, w) = (panic, w)
  settle msg (hangs, w) = (hang, w)

  -- The handler of serveQueue; the goroutine that renews the lock meanwhile, and may cancel the
  -- handler's context, is in Renewing
  unfoldable pub queue_handler : Fn W → Context → Message → Exec W (Unit {0})
  unfolding new_input_from_message
  queue_handler f ctx msg w = settle msg (f ctx (new_input_from_message msg) w)

  -- The error of Abandon or Complete is logged only.
  abbrev pub only_logged : Result (Unit {0}) × W → Result (Unit {0}) × W
  only_logged (err e, w) = (ok tt, bus.log_settling e w)
  only_logged r = r

  -- The handler of serveDLQ
  unfoldable pub dlq_handler : Fn W → Context → Message → Exec W (Unit {0})
  unfolding new_input_from_message
  dlq_handler f ctx msg w = only_logged (settle msg (f ctx (new_input_from_message msg) w))

  abbrev pub after_receive :
      (W → Option (Result (Unit {0}) × W)) → Result (Unit {0}) × W → Option (Result (Unit {0}) × W)
  after_receive next (ok _, w) = next w
  after_receive next r = some r

  -- The loop of serveQueue and of serveDLQ, for the number of rounds that is given; none while it is
  -- not over
  unfoldable pub rounds :
      ℕ → Queue → (Message → Exec W (Unit {0})) → W → Option (Result (Unit {0}) × W)
  rounds zero queue handler w = none
  rounds (suc n) queue handler w =
      after_receive (λ u. rounds n queue handler u) (bus.receive_one queue handler w)

  -- serveQueue
  unfoldable pub serve_queue : ℕ → Queue → Context → Fn W → W → Option (Result (Unit {0}) × W)
  unfolding rounds queue_handler
  serve_queue n queue ctx f w = rounds n queue (queue_handler f ctx) w

  abbrev pub closing : Queue → Result (Unit {0}) × W → Result (Unit {0}) × W
  closing queue (r, w) = (r, bus.close queue w)

  -- serveDLQ, with its deferred Close
  unfoldable pub serve_dlq : ℕ → Queue → Context → Fn W → W → Option (Result (Unit {0}) × W)
  unfolding rounds dlq_handler
  serve_dlq n queue ctx f w =
      Option.map (closing (bus.new_dead_letter queue))
        (rounds n (bus.new_dead_letter queue) (dlq_handler f ctx) w)

  abbrev pub serve_new :
      ℕ → QueueSource → Context → Fn W → Result Queue × W → Option (Result (Unit {0}) × W)
  serve_new n q ctx f (ok queue, w) =
      Option.map (closing queue) (
        if q.is_dead_letter_receiver
        then serve_dlq n queue ctx f w
        else serve_queue n queue ctx f w)
  serve_new n q ctx f (err e, w) = some (err e, w)
  serve_new n q ctx f (panic, w) = some (panic, w)
  serve_new n q ctx f (hang, w) = some (hang, w)

  -- Serve
  unfoldable pub serve : ℕ → QueueSource → Context → Fn W → W → Option (Result (Unit {0}) × W)
  unfolding serve_dlq serve_queue
  serve n q ctx f w = serve_new n q ctx f (bus.new_queue q.service_bus_conn_str q.queue_name w)
