-- ===== src/Main/Served.antt =====
-- What the factories of the sources make.
use fnrun.Prelude.{ℕ, ◌≡◌, true, some, String, Option}
use fnrun.Value.{Fields}
use fnrun.Exec.{Context, Result, pure, Fn, Source, configured_by}
use fnrun.Config.{Configurable, bare}
use fnrun.Registry.{Factory}
use fnrun.Sources.Cron
use fnrun.Sources.Cron.{Cron}
use fnrun.Sources.ServiceBus
use fnrun.Sources.ServiceBus.{QueueSource, Bus}
use fnrun.Sources.Sqs
use fnrun.Sources.Sqs.{SqsSource, Aws}
use fnrun.Sources.Lambda
use fnrun.Sources.Lambda.{LambdaSource, Runtime}
use fnrun.Sources.Http
use fnrun.Sources.Http.{HttpSource, Listening}
use fnrun.Sources.Kafka.Serving
use fnrun.Sources.Kafka.Serving.{KafkaSource, GroupClient}
use fnrun.Sources.Kafka.Hooks.{Mapstructure}
use fnrun.Main.Cells.{Cells, factory, configured_at}

-- A Serve that runs for as long as it takes. Once its loop is over within some number of rounds, its
-- result is the one that the loop has then.
pub record Unbounded {W A : Type 0} (bounded : ℕ → W → Option A) : Type 0 where
  pub run : W → A
  pub agrees : (n : ℕ) (w : W) (r : A) → bounded n w ≡ some r → run w ≡ r

pub record ServiceBusPackage (Queue W : Type 0) : Type 0 where
  pub decode : Fields → QueueSource → Result (Unit {0}) × QueueSource
  pub bus : Bus Queue W
  pub serve :
      (q : QueueSource) (ctx : Context) (f : Fn W) → Unbounded (λ n. ServiceBus.serve bus n q ctx f)

pub record SqsPackage (Config Service W : Type 0) : Type 0 where
  pub decode : Fields → SqsSource → Result (Unit {0}) × SqsSource
  pub aws : Aws Config Service W
  pub serve : (s : SqsSource) (ctx : Context) (f : Fn W) → Unbounded (λ n. Sqs.serve aws n s ctx f)

pub record LambdaPackage (W : Type 0) : Type 0 where
  pub decode : Fields → LambdaSource → Result (Unit {0}) × LambdaSource
  -- AWS_LAMBDA_RUNTIME_API
  pub runtime_api : String
  pub runtime : Runtime W
  pub serve :
      (l : LambdaSource) (ctx : Context) (f : Fn W)
      → Unbounded (λ n. Lambda.serve runtime n l ctx f)

-- The source keeps the client of its consumer group.
pub record KafkaPackage (Version Group W : Type 0) : Type 0 where
  pub cells : Cells (KafkaSource Version Group) W
  pub mapstructure : Mapstructure Version (KafkaSource Version Group)
  pub parse_kafka_version : String → Result Version
  -- the version 2.1.1
  pub version : Version
  pub sarama : GroupClient Version Group W
  pub serve :
      (k : KafkaSource Version Group) (ctx : Context) (f : Fn W)
      → Unbounded (λ n. Serving.serve sarama n k ctx f)

-- The Serve of the HTTP source is a relation, in Sources/Http/Running.
pub record HttpPackage (Listener W : Type 0) : Type 0 where
  pub decode : Fields → HttpSource → Result (Unit {0}) × HttpSource
  pub listen : String → W → Result Listener × W
  pub serve : Listening Listener → Source W

module _ {W : Type 0} (cron : Cron W) where
  unfoldable pub cron_object : Configurable W (Source W)
  unfolding Cron.new Cron.serve Cron.configure_string
  cron_object = record (bare "*cron.cronSource" (Cron.serve cron Cron.new)) {
    requires_config = some true;
    configure_string =
        some (λ s. configured_by (Cron.serve cron) (Cron.configure_string cron s Cron.new));
  }

module _ {Queue W : Type 0} (p : ServiceBusPackage Queue W) where
  abbrev servicebus_source : QueueSource → Source W
  servicebus_source q ctx f = (p.serve q ctx f).run

  unfoldable pub servicebus_object : Configurable W (Source W)
  unfolding ServiceBus.new ServiceBus.configure_map
  servicebus_object = record (bare "*servicebus.queueSource" (servicebus_source ServiceBus.new)) {
    requires_config = some true;
    configure_map = some (λ fs.
        configured_by servicebus_source (ServiceBus.configure_map p.decode fs ServiceBus.new));
  }

module _ {Config Service W : Type 0} (p : SqsPackage Config Service W) where
  abbrev sqs_source : SqsSource → Source W
  sqs_source s ctx f = (p.serve s ctx f).run

  unfoldable pub sqs_object : Configurable W (Source W)
  unfolding Sqs.new Sqs.configure_string Sqs.configure_map
  sqs_object = record (bare "*sqs.sqsSource" (sqs_source Sqs.new)) {
    requires_config = some true;
    configure_string = some (λ name. pure (sqs_source (Sqs.configure_string name Sqs.new)));
    configure_map = some (λ fs. configured_by sqs_source (Sqs.configure_map p.decode fs Sqs.new));
  }

module _ {W : Type 0} (p : LambdaPackage W) where
  abbrev lambda_source : LambdaSource → Source W
  lambda_source l ctx f = (p.serve l ctx f).run

  unfoldable pub lambda_object : Configurable W (Source W)
  unfolding Lambda.new Lambda.configure_map
  lambda_object = record (bare "*lambda.lambdaSource" (lambda_source (Lambda.new p.runtime_api))) {
    configure_map = some (λ fs.
        configured_by lambda_source (Lambda.configure_map p.decode fs (Lambda.new p.runtime_api)));
  }

module _ {Listener W : Type 0} (p : HttpPackage Listener W) where
  unfoldable pub http_source_object : Configurable W (Source W)
  unfolding Http.new Http.configure_map
  http_source_object = record (bare "*http.httpSource" (p.serve Http.new)) {
    configure_map =
        some (λ fs. configured_by p.serve (Http.configure_map p.listen p.decode fs Http.new));
  }

module _ {Version Group W : Type 0} (p : KafkaPackage Version Group W) where
  -- Serve, called on the object at an address
  unfoldable pub kafka_source : ℕ → Source W
  kafka_source a ctx f w =
      let (r, k, w') = (p.serve (p.cells.read a w) ctx f).run w in (r, p.cells.write a k w')

  unfoldable pub kafka_source_object : ℕ → Configurable W (Source W)
  unfolding kafka_source configured_at Serving.configure_map
  kafka_source_object a = record (bare "*kafka.kafkaSource" (kafka_source a)) {
    requires_config = some true;
    configure_map = some (λ fs.
        configured_at p.cells a (kafka_source a)
          (Serving.configure_map p.mapstructure p.parse_kafka_version fs));
  }

  unfoldable pub kafka_source_factory : Factory W (Source W)
  unfolding factory kafka_source_object Serving.new
  kafka_source_factory = factory p.cells (Serving.new p.version) kafka_source_object
