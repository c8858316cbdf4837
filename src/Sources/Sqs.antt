-- ===== src/Sources/Sqs.antt =====
-- run/source/sqs: the messages of a queue are the inputs.
pub mod Deleting
use fnrun.Prelude.{
  ℕ, zero, suc, ◌+◌, ◌<◌, String, Bool, true, false, Option, none, some, List, [], ◌∷◌,
  if◌then◌else◌, str_eq, not,
}
use fnrun.Value.{Value, str, Fields, end, field, object}
use fnrun.Value.Int.{ℤ, pos}
use fnrun.Exec.{
  Error, Context, Result, ok, err, panic, hang, Reply, returns, panics, hangs, Fn, Exec, Method,
}

-- types.Message, with the pointers that the code reads.
pub record Message : Type 0 where
  pub message_id : Option String
  pub body : Option String
  pub receipt_handle : Option String

-- createInput; a nil pointer panics
unfoldable pub create_input_of : Option String → Option String → Result Value
create_input_of (some id) (some body) =
    ok (object (field "id" (str id) (field "body" (str body) end)))
create_input_of _ _ = panic

unfoldable pub create_input : Message → Result Value
unfolding create_input_of
create_input message = create_input_of message.message_id message.body

-- sqsSourceConfig
pub record SqsSource : Type 0 where
  pub queue_name : String
  pub timeout : ℤ
  pub batch_size : ℤ
  pub endpoint_url : String
  pub partition_id : String
  pub signing_region : String

-- aws.Endpoint, as the custom resolver answers
pub record Endpoint : Type 0 where
  pub partition_id : String
  pub url : String
  pub signing_region : String

-- The AWS SDK: loading the default configuration, and a client at an endpoint, if one is given.
pub record Aws (Config Service W : Type 0) : Type 0 where
  pub load_default_config : Context → Exec W Config
  pub new_from_config : Config → Option Endpoint → Service
  pub get_queue_url : Service → String → Exec W String
  -- the queue's URL, MaxNumberOfMessages and VisibilityTimeout
  pub receive_message : Service → String → ℤ → ℤ → Exec W (List Message)
  pub delete_message : Service → String → Option String → Exec W (Unit {0})

-- ConfigureString and New
unfoldable pub configure_string : String → SqsSource → SqsSource
configure_string queue_name s = record s { queue_name = queue_name }

unfoldable pub new : SqsSource
new = record {
  queue_name = "";
  timeout = pos 30;
  batch_size = pos 1;
  endpoint_url = "";
  partition_id = "aws";
  signing_region = "us-east-1";
}

-- ConfigureMap: mapstructure.Decode into the configuration, also when it fails
unfoldable pub configure_map :
    {W : Type 0}
    → (Fields → SqsSource → Result (Unit {0}) × SqsSource)
    → Fields
    → SqsSource
    → Method SqsSource W
configure_map decode config_map s w = ((decode config_map s).0, (decode config_map s).1, w)

module _ {W : Type 0} where
  -- The end of the inner loop's body, on the result of DeleteMessage.
  abbrev pub after_delete :
      (W → Result (Unit {0}) × W) → Result (Unit {0}) × W → Result (Unit {0}) × W
  after_delete next (ok _, w) = next w
  after_delete next r = r

  -- The body from Invoke on: with an error, continue.
  abbrev pub after_invoke :
      Exec W (Unit {0}) → (W → Result (Unit {0}) × W) → Reply × W → Result (Unit {0}) × W
  after_invoke delete next (returns v none, w) = after_delete next (delete w)
  after_invoke delete next (returns v (some e), w) = next w
  after_invoke delete next (panics, w) = (panic, w)
  after_invoke delete next (hangs, w) = (hang, w)

  abbrev pub invoke_on : Fn W → Context → Result Value → W → Reply × W
  invoke_on f ctx (ok input) w = f ctx input w
  invoke_on f ctx (err e) w = (panics, w)
  invoke_on f ctx panic w = (panics, w)
  invoke_on f ctx hang w = (hangs, w)

  -- The inner loop; `delete` is DeleteMessage at the queue's URL
  unfoldable pub handle_batch :
      (Option String → Exec W (Unit {0}))
      → Fn W
      → Context
      → List Message
      → W
      → Result (Unit {0}) × W
  unfolding create_input
  handle_batch delete f ctx [] w = (ok tt, w)
  handle_batch delete f ctx (message ∷ messages) w =
      after_invoke (delete message.receipt_handle) (λ u. handle_batch delete f ctx messages u)
        (invoke_on f ctx (create_input message) w)

  -- The outer loop, for the number of rounds that is given; none while it is not over.
  abbrev pub after_batch :
      (W → Option (Result (Unit {0}) × W)) → Result (Unit {0}) × W → Option (Result (Unit {0}) × W)
  after_batch next (ok _, w) = next w
  after_batch next r = some r

  abbrev pub after_receive :
      (W → Option (Result (Unit {0}) × W))
      → (List Message → W → Result (Unit {0}) × W)
      → Result (List Message) × W
      → Option (Result (Unit {0}) × W)
  after_receive next batch (ok messages, w) = after_batch next (batch messages w)
  after_receive next batch (err e, w) = some (err e, w)
  after_receive next batch (panic, w) = some (panic, w)
  after_receive next batch (hang, w) = some (hang, w)

  unfoldable pub rounds :
      ℕ
      → Exec W (List Message)
      → (List Message → W → Result (Unit {0}) × W)
      → W
      → Option (Result (Unit {0}) × W)
  rounds zero receive batch w = none
  rounds (suc n) receive batch w = after_receive (λ u. rounds n receive batch u) batch (receive w)

-- The resolver that is set if the endpoint's URL is.
unfoldable pub endpoint : SqsSource → Option Endpoint
endpoint s =
    if not (str_eq s.endpoint_url "")
    then some (record {
      partition_id = s.partition_id;
      url = s.endpoint_url;
      signing_region = s.signing_region;
    })
    else none

module _ {Config Service W : Type 0} (aws : Aws Config Service W) where
  abbrev pub after_url :
      ℕ → SqsSource → Service → Context → Fn W → Result String × W → Option (Result (Unit {0}) × W)
  after_url n s svc ctx f (ok url, w) =
      rounds n (aws.receive_message svc url s.batch_size s.timeout)
        (λ messages u. handle_batch (aws.delete_message svc url) f ctx messages u) w
  after_url n s svc ctx f (err e, w) = some (err e, w)
  after_url n s svc ctx f (panic, w) = some (panic, w)
  after_url n s svc ctx f (hang, w) = some (hang, w)

  unfoldable pub serve_config :
      ℕ → SqsSource → Context → Fn W → Result Config × W → Option (Result (Unit {0}) × W)
  unfolding endpoint rounds handle_batch
  serve_config n s ctx f (ok cfg, w) =
      let svc = aws.new_from_config cfg (endpoint s) in
      after_url n s svc ctx f (aws.get_queue_url svc s.queue_name w)
  serve_config n s ctx f (err e, w) = some (err e, w)
  serve_config n s ctx f (panic, w) = some (panic, w)
  serve_config n s ctx f (hang, w) = some (hang, w)

  -- Serve, for the number of rounds that is given
  unfoldable pub serve : ℕ → SqsSource → Context → Fn W → W → Option (Result (Unit {0}) × W)
  unfolding serve_config
  serve n s ctx f w = serve_config n s ctx f (aws.load_default_config ctx w)
