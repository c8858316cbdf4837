-- ===== src/Tests/Memory.antt =====
-- A memory of objects of one type, as a world of its own, and libraries that are not called.
use fnrun.Prelude.{true, [], ℕ, suc, refl, ◌==◌, if◌then◌else◌, arith, none}
use fnrun.Value.Int.{pos}
use fnrun.Exec.{text, ok, err, raise}
use fnrun.Registry.{Factory, Finders}
use fnrun.Main.{Packages}
use fnrun.Main.Objects.{Libraries}
use fnrun.Main.Cells.{Cells, Memory}

-- How many objects there are, and what they are.
abbrev pub Heap : Type 0 → Type 0
Heap S = ℕ × (ℕ → S)

module _ {S : Type 0} where
  abbrev pub update : (ℕ → S) → ℕ → S → ℕ → S
  update m a c b = if a == b then c else m b

  abbrev pub cells : Cells S (Heap S)
  cells = record {
    alloc = λ c (n, m). (n, (suc n, update m n c));
    read = λ a (n, m). m a;
    write = λ a c (n, m). (n, update m a c);
  }

  unfoldable pub memory : Memory cells
  memory = record {
    next = λ w. w.0;
    alloc-next = λ c w. refl;
    next-alloc = λ c w. refl;
    next-write = λ a c w. refl;
    read_new = λ c w. ground arith;
    read-alloc = λ a c w less. ground (arith, less);
    read-write = λ a c w. ground arith;
    read_other = λ a b c w h. ground (arith, h);
  }

abbrev pub libs : {W : Type 0} → Libraries ℕ W
libs = record {
  post = λ url content_type body w. (err (text "no network"), w);
  listen = λ w. w;
  decode_http = λ fs h. (ok tt, h);
  decode_json = λ fs j. (ok tt, j);
  decode_jq = λ fs. err (text "no jq");
  json = record { marshal = λ v. err (text "json"); unmarshal = λ s. err (text "json") };
  gojq = λ s. err (text "no jq");
  run_jq = λ code ctx v w. fnrun.Middlewares.Jq.done;
  decode_pool = λ fs. err (text "no pool");
  pools = record {
    cells = record {
      alloc = λ c w. (0, w);
      read = λ a w. record { capacity = 0; queue = [] };
      write = λ a c w. w;
    };
    fires_first = λ duration w. true;
  };
  parse_duration = λ s. err (text "duration");
  now = λ w. pos 0;
  log = λ line w. w;
}

abbrev pub unused : {W I : Type 0} → Factory W I
unused = raise (text "not used")

abbrev pub packages : {W : Type 0} → Packages W
packages = record {
  cli = unused;
  circuitbreaker = unused;
  kafka_middleware = unused;
  ratelimiter = unused;
  tap = unused;
  servicebus = unused;
  cron = unused;
  http = unused;
  kafka = unused;
  lambda = unused;
  sqs = unused;
}

abbrev pub self : {W : Type 0} → Finders W
self = record { find_source = λ key. none; find_middleware = λ key. none; find_fn = λ key. none }
