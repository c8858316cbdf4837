-- ===== src/Tests/Program.antt =====
-- The program, over small packages and a platform whose world counts.
use fnrun.Prelude.{
  ℕ, zero, suc, ◌+◌, ◌≤◌, ap, subst, Bool-cases, inl, inr, str_eq, ◌≡◌, refl, ◌↔◌, ◌⊎◌, arith, true,
  false, some, String, [], ◌∷◌, lookup, insert,
}
use fnrun.Value.{Value, null, str, object, array, nil, cons, Fields, end, field, get_or_null}
use fnrun.Value.Int.{pos}
use fnrun.Exec.{text, Result, ok, err, panic, Source, Fn}
use fnrun.Config.{configure}
use fnrun.Registry.{
  register_fn, register_middleware, register_source, register_fn_with_registry,
  register_middleware_with_registry, register_source_with_registry,
}
use fnrun.Registry.Laws.{register}
use fnrun.Making.{make}
use fnrun.Fns.{middleware_fn, identity_fn}
use fnrun.Middlewares.Key
use fnrun.Pipeline.{compose}
use fnrun.Runner.{Runner}
use fnrun.Runner
use fnrun.Main.{Packages, Platform, finders, set_up, rounds, running, main}
use fnrun.Main.Objects.{Libraries}
use fnrun.Main.Program.{Assembles}
use fnrun.Main.Starting.{set_up_iff, IsPath}
use fnrun.Main.Restarting.{Ends}
use fnrun.Main.Ending.{Fails, main_ends_iff}
use fnrun.Pool.{PoolConfig}
use fnrun.Main.Depth.{weight, weight_of_fields}
use fnrun.Main.Depth.Whole.{IsBelow, ReadsBelow, main_enough}
use fnrun.Main.Depth.Enough.{IsPart}
use fnrun.Tests.World.{plain, with_string, counted, echo, counting, once}
use fnrun.Tests.Assembly.{decode}

abbrev libs : Libraries ℕ ℕ
libs = record {
  post = λ url content_type body w. (err (text "no network"), w);
  listen = λ w. w;
  decode_http = λ fs h. (ok tt, h);
  decode_json = λ fs j. (ok tt, j);
  decode_jq = λ fs. err (text "no jq");
  json = record { marshal = λ v. err (text "json"); unmarshal = λ s. err (text "json") };
  gojq = λ s. err (text "no jq");
  run_jq = λ code ctx v w. fnrun.Middlewares.Jq.done;
  decode_pool = λ fs. ok (record {
    max_wait_duration = "";
    concurrency = pos 2;
    template = get_or_null "template" fs;
  });
  pools = record {
    cells = record {
      alloc = λ c w. (w, w + 1);
      read = λ a w. record { capacity = 0; queue = [] };
      write = λ a c w. w;
    };
    fires_first = λ duration w. false;
  };
  parse_duration = λ s. err (text "duration");
  now = λ w. pos w;
  log = λ line w. w + 1;
}

abbrev packages : Packages ℕ
packages = record {
  cli = counted (with_string echo);
  circuitbreaker = counted (plain counting);
  kafka_middleware = counted (plain counting);
  ratelimiter = counted (plain counting);
  tap = counted (plain counting);
  servicebus = counted (with_string once);
  cron = counted (with_string once);
  http = counted (with_string once);
  kafka = counted (with_string once);
  lambda = counted (with_string once);
  sqs = counted (with_string once);
}

abbrev configuration : Fields
configuration = field "source" (object (field "fnrun.source/cron" (str "s") end)) (
    field "middleware" (array (cons (object (field "fnrun.middleware/key" (str "k") end)) nil))
      (field "fn" (str "fnrun.fn/identity") end))

abbrev platform : Platform ℕ
platform = record {
  file_path = "fnrun.yaml";
  auto_restart = true;
  restart_wait = pos 10000000000;
  getenv = λ name. "";
  read_file = λ path w. (ok path, w + 1);
  expand_env = λ s. s;
  unmarshal = λ s. ok configuration;
  decode = decode;
  log = λ line w. w + 1;
  wait = λ duration w. w + 1000;
}

abbrev assembled : Runner ℕ
assembled = record {
  registry = finders libs packages 2;
  source = some once;
  fn = some (middleware_fn (compose (Key.invoke (Key.new_with_key "k") ∷ [])) identity_fn);
}

set_up_run : set_up platform (finders libs packages 2) 0 ≡ (ok assembled, 12)
unfolding set_up finders decode configure make lookup insert register register_fn
    register_middleware register_source register_fn_with_registry register_middleware_with_registry
    register_source_with_registry
set_up_run = refl

set_up_iff_example : (set_up platform (finders libs packages 2) 0 ≡ (ok assembled, 12)) ↔ (
    (path : String) × (bytes : String) × (u : ℕ) × (fs : Fields) × (f : Fn ℕ) × (s : Source ℕ)
    × IsPath platform path
    × (platform.read_file path 0 ≡ (ok bytes, u))
    × (platform.unmarshal (platform.expand_env bytes) ≡ ok fs)
    × Assembles (finders libs packages 1) (platform.decode fs) u f s 12
    × (assembled ≡ record { registry = finders libs packages 2; source = some s; fn = some f }))
set_up_iff_example = set_up_iff libs packages platform 1 0 assembled 12

-- A source that fails once, and then panics.
abbrev failing_once : Source ℕ
failing_once ctx f zero = (err (text "lost connection"), 1)
failing_once ctx f (suc w) = (panic, suc w)

abbrev fragile : Runner ℕ
fragile = record assembled { source = some failing_once }

main_ends_iff_example : (main platform 2 (finders libs packages 2) 0 ≡ some (panic, 13)) ↔ (
    (Fails (set_up platform (finders libs packages 2) 0).0 panic
      × ((set_up platform (finders libs packages 2) 0).1 ≡ 13))
    ⊎ ((r : Runner ℕ) × ((set_up platform (finders libs packages 2) 0).0 ≡ ok r)
        × Ends platform r 2
            (platform.log running (set_up platform (finders libs packages 2) 0).1)
            panic
            13))
main_ends_iff_example = main_ends_iff platform 2 (finders libs packages 2) 0 13 panic refl

fragile_run : rounds platform 3 fragile 0 ≡ some (panic, 1004)
unfolding rounds Runner.run
fragile_run = refl

get_or_null_part : (k : String) (fs : Fields) → weight (get_or_null k fs) ≤ weight_of_fields fs
unfolding get_or_null weight
get_or_null_part k end = omega arith
get_or_null_part k (field j v fs) = elim (Bool-cases (str_eq j k)) [
  | inl e ↦ rw e (omega arith)
  | inr e ↦ rw e (omega (arith, get_or_null_part k fs))
]

template_of : Result PoolConfig → Value
template_of (ok cfg) = cfg.template
template_of _ = null

template-IsPart : IsPart libs.decode_pool
unfolding template_of
template-IsPart fs cfg e =
    subst (λ v. weight v ≤ weight_of_fields fs) (ap template_of e) (get_or_null_part "template" fs)

fields_of : Result Fields → Fields
fields_of (ok fs) = fs
fields_of _ = end

configuration_below : ReadsBelow platform 4 0
unfolding decode weight fields_of get_or_null
configuration_below bytes u fs e e' =
    subst (λ x. IsBelow 4 (decode x)) (ap fields_of e') (omega arith, omega arith, omega arith)

main_enough_example :
    main platform 1 (finders libs packages 4) 0 ≡ main platform 1 (finders libs packages 9) 0
main_enough_example =
    main_enough libs packages platform template-IsPart 1 4 4 9 0 (omega arith) (omega arith)
      configuration_below
