-- ===== src/Middlewares/Kafka.antt =====
-- run/middleware/kafka: outputs and errors are sent to topics.
pub mod Sending
use fnrun.Prelude.{
  ℕ, String, Bool, true, false, Option, none, some, List, [], ◌∷◌, str_eq, not, ◌&&◌, if◌then◌else◌,
}
use fnrun.Value.{Value, null, Fields}
use fnrun.Exec.{
  Error, wrap, Context, Result, ok, err, panic, hang, Reply, returns, panics, hangs, Fn, Exec,
  ◌>>=◌, pure, Method,
}

-- The configuration of a kafkaMiddleware.
pub record KafkaConfig : Type 0 where
  pub brokers : List String
  pub success_topic : String
  pub error_topic : String
  pub cert_file : String
  pub key_file : String
  pub ca_file : String
  pub verify_ssl : Bool

-- kafkaMiddleware. `initialized` says whether the sync.Once has run.
pub record KafkaMiddleware (Producer : Type 0) : Type 0 where
  pub config : KafkaConfig
  pub producer : Option Producer
  pub initialization_error : Option Error
  pub initialized : Bool

-- tls.Config, with the fields that are set: the key pair, the authorities' file, and whether the
-- server's certificate goes unverified.
pub record TlsConfig : Type 0 where
  pub key_pair : String × String
  pub root_cas : String
  pub insecure_skip_verify : Bool

-- sarama.Config, with the fields that are set; `tls` is absent unless it is enabled.
pub record ProducerConfig : Type 0 where
  pub wait_for_all : Bool
  pub max_retries : ℕ
  pub return_successes : Bool
  pub tls : Option TlsConfig

-- What is printed into a message: fmt.Sprint of the output or of the error.
pub data Printed : Type 0 where
  output : Value → Printed
  error : Error → Printed

-- sarama.ProducerMessage, with the fields that are set
pub record ProducerMessage : Type 0 where
  pub topic : String
  pub value : Printed

-- crypto/tls, ioutil and sarama: loading a key pair, reading a file, making a producer, sending.
pub record Client (Producer W : Type 0) : Type 0 where
  pub load_key_pair : String → String → Exec W (String × String)
  pub read_file : String → Exec W String
  pub new_producer : List String → ProducerConfig → Exec W Producer
  pub send : Option Producer → ProducerMessage → W → Option Error × W
  -- Error(), for errors.Wrap
  pub message_of : Error → String

abbrev pub is_null : Value → Bool
is_null null = true
is_null v = false

-- errors.Wrap of the fn's error with the message of the refusal, if the broker has refused.
abbrev pub wrapped_by : (Error → String) → Error → Option Error → Error
wrapped_by message_of e none = e
wrapped_by message_of e (some e') = wrap e (message_of e')

-- ConfigureMap: the decoder writes into the middleware itself, also when it fails; a string of brokers
-- is split at its commas by the decoder's hook.
unfoldable pub configure_map :
    {Producer W : Type 0}
    → (Fields → KafkaConfig → Result (Unit {0}) × KafkaConfig)
    → Fields
    → KafkaMiddleware Producer
    → Method (KafkaMiddleware Producer) W
configure_map decode fs m w =
    ((decode fs m.config).0, record m { config = (decode fs m.config).1 }, w)

-- New
unfoldable pub new : {Producer : Type 0} → KafkaMiddleware Producer
new = record {
  config = record {
    brokers = [];
    success_topic = "";
    error_topic = "";
    cert_file = "";
    key_file = "";
    ca_file = "";
    verify_ssl = false;
  };
  producer = none;
  initialization_error = none;
  initialized = false;
}

module _ {Producer W : Type 0} (client : Client Producer W) where
  -- sendMessage
  unfoldable pub send_message : Option Producer → String → Printed → W → Option Error × W
  send_message producer topic message w =
      client.send producer (record { topic = topic; value = message }) w

  -- newTLSConfiguration
  unfoldable pub new_tls_configuration : KafkaConfig → Exec W (Option TlsConfig)
  new_tls_configuration c =
      if not (str_eq c.cert_file "") && not (str_eq c.key_file "") && not (str_eq c.ca_file "")
      then (do
        cert ← client.load_key_pair c.cert_file c.key_file
        ca_cert ← client.read_file c.ca_file
        pure (
            some (record {
              key_pair = cert;
              root_cas = ca_cert;
              insecure_skip_verify = c.verify_ssl;
            })))
      else pure none

  -- initializeProducer, for a middleware without a producer
  unfoldable pub initialize_producer : KafkaConfig → Exec W Producer
  unfolding new_tls_configuration
  initialize_producer c = do
    tls_config ← new_tls_configuration c
    client.new_producer c.brokers (record {
      wait_for_all = true;
      max_retries = 10;
      return_successes = true;
      tls = tls_config;
    })

  -- The body of the sync.Once, on what initializeProducer gives; a panic runs through Do, which counts
  -- as done.
  abbrev pub after_initialization :
      KafkaMiddleware Producer
      → Result Producer × W
      → Result (Unit {0}) × KafkaMiddleware Producer × W
  after_initialization m (ok p, w) =
      (ok tt, record m { producer = some p; initialization_error = none; initialized = true }, w)
  after_initialization m (err e, w) =
      (ok tt, record m { initialization_error = some e; initialized = true }, w)
  after_initialization m (panic, w) = (panic, record m { initialized = true }, w)
  after_initialization m (hang, w) = (hang, m, w)

  -- The same, by whether the sync.Once has run and whether there is a producer.
  unfoldable pub initialize_with :
      Bool → Option Producer → KafkaMiddleware Producer → Method (KafkaMiddleware Producer) W
  unfolding initialize_producer
  initialize_with true producer m w = (ok tt, m, w)
  initialize_with false (some p) m w = (ok tt, record m { initialized = true }, w)
  initialize_with false none m w = after_initialization m (initialize_producer m.config w)

  unfoldable pub initialize : KafkaMiddleware Producer → Method (KafkaMiddleware Producer) W
  unfolding initialize_with
  initialize m = initialize_with m.initialized m.producer m

  -- The first `if` after the fn has returned the error `e`: the error that is returned.
  unfoldable pub report_error : KafkaMiddleware Producer → Error → W → Error × W
  unfolding send_message
  report_error m e w =
      if not (str_eq m.config.error_topic "")
      then (let (sent, w') = send_message m.producer m.config.error_topic (error e) w in
          (wrapped_by client.message_of e sent, w'))
      else (e, w)

  -- The second `if`, where the fn has returned no error.
  unfoldable pub report_success : KafkaMiddleware Producer → Value → W → Option Error × W
  unfolding send_message
  report_success m v w =
      if not (str_eq m.config.success_topic "") && not (is_null v)
      then send_message m.producer m.config.success_topic (output v) w
      else (none, w)

  unfoldable pub report : KafkaMiddleware Producer → Reply × W → Reply × W
  unfolding report_error report_success
  report m (returns v none, w) = let (e, w') = report_success m v w in (returns v e, w')
  report m (returns v (some e), w) = let (e', w') = report_error m e w in (returns v (some e'), w')
  report m (panics, w) = (panics, w)
  report m (hangs, w) = (hangs, w)

  abbrev pub after_initialize :
      Context
      → Value
      → Fn W
      → Option Error
      → KafkaMiddleware Producer
      → W
      → KafkaMiddleware Producer × Reply × W
  after_initialize ctx input f (some e) m w = (m, returns null (some e), w)
  after_initialize ctx input f none m w = let (r, w') = report m (f ctx input w) in (m, r, w')

  abbrev pub continue_invoke :
      Context
      → Value
      → Fn W
      → Result (Unit {0}) × KafkaMiddleware Producer × W
      → KafkaMiddleware Producer × Reply × W
  continue_invoke ctx input f (ok _, m, w) = after_initialize ctx input f m.initialization_error m w
  continue_invoke ctx input f (err e, m, w) = (m, returns null (some e), w)
  continue_invoke ctx input f (panic, m, w) = (m, panics, w)
  continue_invoke ctx input f (hang, m, w) = (m, hangs, w)

  -- Invoke
  unfoldable pub invoke :
      KafkaMiddleware Producer → Context → Value → Fn W → W → KafkaMiddleware Producer × Reply × W
  unfolding initialize report
  invoke m ctx input f w = continue_invoke ctx input f (initialize m w)
