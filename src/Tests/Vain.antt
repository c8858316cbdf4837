-- ===== src/Tests/Vain.antt =====
-- main with the kafka source, over a broker whose connection is lost once.
use fnrun.Prelude.{
  ℕ, zero, suc, ◌+◌, ◌≡◌, refl, sym, ap, ◌∙◌, Bool, true, false, Option, none, some, String, List,
  [], ◌∷◌,
}
use fnrun.Value.{null}
use fnrun.Value.Int.{pos}
use mathlib.Core.Option
use fnrun.Exec.{text, Context, Result, ok, err, panic, hang, returns, Fn}
use fnrun.Runner.{Runner}
use fnrun.Runner
use fnrun.Sources.Kafka.{ConsumerMessage, Handler, handler}
use fnrun.Sources.Kafka.Serving.{
  KafkaSource, GroupClient, new, serve, after_set_up, consume_rounds, served_by,
  set_up_consumer_group,
}
use fnrun.Main.{Platform, rounds}
use fnrun.Main.Cells.{Cells, Memory}
use fnrun.Main.Served.{KafkaPackage, kafka_source}
use fnrun.Main.Restarting.{Restarts}
use fnrun.Main.Vain.{served_in_vain}
use fnrun.Tests.World.{background}
use fnrun.Tests.Memory
use fnrun.Tests.Memory.{Heap, memory, self}

-- How many inputs there were, whether the client has been closed, and the sources.
abbrev Broker : Type 0
Broker = ℕ × Bool × Heap (KafkaSource String ℕ)

abbrev message : ConsumerMessage
message = record {
  key = "k";
  value = "v";
  offset = pos 0;
  partition = pos 0;
  topic = "t";
  timestamp = 0;
}

abbrev lost : {A : Type 0} → Result A × Broker → Result A × Broker
lost (r, w) = (err (text "lost"), w)

abbrev consume : ℕ → List String → Handler Broker → Broker → Result (Unit {0}) × Broker
consume client topics h (n, true, m) = (err (text "closed"), (n, true, m))
consume client topics h (n, false, m) =
    lost (h.consume_claim (λ m w. w) (message ∷ []) (n, false, m))

abbrev sarama : GroupClient String ℕ Broker
sarama = record {
  new_consumer_group = λ brokers group config w. (ok 0, w);
  consume = consume;
  close = λ client (n, closed, m). (n, true, m);
  is_cancelled = λ ctx w. false;
}

abbrev counting : Fn Broker
counting ctx input (n, closed, m) = (returns input none, (n + 1, closed, m))

abbrev cells : Cells (KafkaSource String ℕ) Broker
cells = record {
  alloc = λ c (n, b, m). let (a, m') = Memory.cells.alloc c m in (a, (n, b, m'));
  read = λ a (n, b, m). Memory.cells.read a m;
  write = λ a c (n, b, m). (n, b, Memory.cells.write a c m);
}

sources : Memory cells
unfolding memory
sources = record {
  next = λ (n, b, m). m.0;
  alloc-next = λ c w. refl;
  next-alloc = λ c w. refl;
  next-write = λ a c w. refl;
  read_new = λ c w. memory.read_new c w.2;
  read-alloc = λ a c w less. memory.read-alloc a c w.2 less;
  read-write = λ a c w. memory.read-write a c w.2;
  read_other = λ a b c w h. memory.read_other a b c w.2 h;
}

abbrev Served : Type 0
Served = Result (Unit {0}) × KafkaSource String ℕ × Broker

-- No loop takes more than one round.
consume_rounds-one :
    (n : ℕ) (k : KafkaSource String ℕ) (client : ℕ) (ctx : Context) (f : Fn Broker) (i : ℕ)
    (b : Bool) (m : Heap (KafkaSource String ℕ))
    → consume_rounds sarama (suc n) k client ctx f (i, b, m)
      ≡ consume_rounds sarama 1 k client ctx f (i, b, m)
unfolding consume_rounds handler
consume_rounds-one n k client ctx f i true m = refl
consume_rounds-one n k client ctx f i false m = refl

abbrev run_on : ℕ → KafkaSource String ℕ → Context → Fn Broker → Broker → Option ℕ → Option Served
run_on n k ctx f w o = elim o [
  | none ↦ some (panic, k, w)
  | some client ↦ Option.map (served_by sarama k) (consume_rounds sarama n k client ctx f w)
]

run_on-one :
    (n : ℕ) (k : KafkaSource String ℕ) (ctx : Context) (f : Fn Broker) (w : Broker) (o : Option ℕ)
    (r : Served)
    → run_on n k ctx f w o ≡ some r
    → run_on 1 k ctx f w o ≡ some r
unfolding consume_rounds
run_on-one n k ctx f w none r h = h
run_on-one zero k ctx f w (some c) r h = cc
run_on-one (suc n) k ctx f w (some c) r h =
    sym (ap (Option.map (served_by sarama k)) (consume_rounds-one n k c ctx f w.0 w.1 w.2)) ∙ h

after_set_up-one :
    (n : ℕ) (ctx : Context) (f : Fn Broker) (s : Result (Unit {0})) (k : KafkaSource String ℕ)
    (w : Broker) (r : Served)
    → after_set_up sarama n ctx f (s, k, w) ≡ some r
    → after_set_up sarama 1 ctx f (s, k, w) ≡ some r
after_set_up-one n ctx f (ok x) k w r h = run_on-one n k ctx f w k.client r h
after_set_up-one n ctx f (err e) k w r h = h
after_set_up-one n ctx f panic k w r h = h
after_set_up-one n ctx f hang k w r h = h

abbrev from_some : Served → Option Served → Served
from_some d none = d
from_some d (some r) = r

unfoldable served : KafkaSource String ℕ → Context → Fn Broker → Broker → Served
unfolding serve
served k ctx f w = from_some (panic, k, w) (serve sarama 1 k ctx f w)

served-agrees :
    (k : KafkaSource String ℕ) (ctx : Context) (f : Fn Broker) (n : ℕ) (w : Broker) (r : Served)
    → serve sarama n k ctx f w ≡ some r
    → served k ctx f w ≡ r
unfolding served serve set_up_consumer_group
served-agrees k ctx f n w r h =
    let (s, k', w') = set_up_consumer_group sarama k w in
    ap (from_some (panic, k, w)) (after_set_up-one n ctx f s k' w' r h)

abbrev kafka_package : KafkaPackage String ℕ Broker
unfolding served
kafka_package = record {
  cells = cells;
  mapstructure = record {
    compose_decode_hook_func = λ hooks s t v. ok v;
    string_to_slice_hook_func = λ sep s t v. ok v;
    decode = λ hook fs k. (ok tt, k);
  };
  parse_kafka_version = λ s. ok s;
  version = "2.1.1";
  sarama = sarama;
  serve = λ k ctx f. record { run = served k ctx f; agrees = served-agrees k ctx f };
}

abbrev platform : Platform Broker
platform = record {
  file_path = "fnrun.yaml";
  auto_restart = true;
  restart_wait = pos 10;
  getenv = λ name. "";
  read_file = λ path w. (ok path, w);
  expand_env = λ s. s;
  unmarshal = λ s. err (text "yaml");
  decode = λ fs. record { source = null; middleware = null; fn = null };
  log = λ line w. w;
  wait = λ duration w. w;
}

abbrev runner : Runner Broker
unfolding kafka_source
runner = record {
  registry = self;
  source = some (kafka_source kafka_package 0);
  fn = some counting;
}

abbrev IsClosed : ℕ → Broker → Type 0
IsClosed client (n, b, m) = b ≡ true

consume-IsClosed :
    (client : ℕ) (topics : List String) (h : Handler Broker) (w : Broker)
    → IsClosed client w
    → consume client topics h w ≡ (err (text "closed"), w)
consume-IsClosed client topics h (n, b, m) e = rw e

-- A configured source, before its first Serve.
abbrev start : Broker
unfolding new
start = (0, false, (1, λ a. new "2.1.1"))

first_run :
    serve sarama 1 (new "2.1.1") background counting start
    ≡ some (
      err (text "lost"),
      record (new "2.1.1") { client = some 0 },
      (1, true, (1, λ a. new "2.1.1")),
    )
unfolding serve handler new start
first_run = refl

served_in_vain_example :
    ((m : ℕ) → rounds platform m runner start ≡ none)
    × ((m : ℕ) (v : Broker)
        → Restarts platform runner (suc m) start v
        → (Runner.run runner background v).0 ≡ err (text "closed"))
unfolding new start kafka_package runner
served_in_vain_example =
    served_in_vain platform kafka_package sources IsClosed (λ client w. refl) 0 0 runner counting
      (text "closed") consume-IsClosed (λ w. refl) (λ k w e. e) (λ line w i. i) (λ w i. i) refl refl
      1 (record (new "2.1.1") { client = some 0 }) start (1, true, (1, λ a. new "2.1.1"))
      (err (text "lost")) refl first_run refl tt
