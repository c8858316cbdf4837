-- ===== src/Tests/Isolation.antt =====
-- A pool of two commands, in a memory of cli fns, and a circuit breaker in one of its own.
use fnrun.Prelude.{ℕ, ◌≡◌, refl, true, false, String, none, some, List, [], ◌∷◌, length}
use fnrun.Value.{null, str, end}
use fnrun.Value.Int.{pos}
use fnrun.Exec.{text, ok, err, returns, panics, Fn}
use fnrun.Registry.{Finders}
use fnrun.Fns.Cli
use fnrun.Fns.Cli.{CliFn, CliConfig, service}
use fnrun.Fns.Cli.Os
use fnrun.Fns.Cli.Service
use fnrun.Fns.Cli.Configuring.{unstarted}
use fnrun.Pool
use fnrun.Pool.{PoolFn, PoolConfig}
use fnrun.Pool.Filling.{pool_of}
use fnrun.Pool.Configuring.{IsConcurrency}
use fnrun.Pool.Invoking.{channel}
use fnrun.Main.Cells.{Keeps-refl}
use fnrun.Main.Assembling.{open_main}
use fnrun.Main.Placed.{CliPackage, cli_fn, cli_factory}
use fnrun.Main.Isolation.{with_cli, commands, Separate, pool-Separate}
use fnrun.Making.{make}
use fnrun.Middlewares.Limits.{CircuitBreaker, new_broken}
use fnrun.Main.Placed.{CircuitbreakerPackage, circuitbreaker_middleware}
use fnrun.Main.Packaged.{with_breaker, unconfigured_breaker}
use fnrun.Tests.World.{background}
use fnrun.Tests.Memory.{Heap, update, cells, memory, libs, packages, self}

abbrev Object : Type 0
Object = CliFn String ℕ ℕ

abbrev World : Type 0
World = Heap Object

-- Commands parse to themselves; nothing can be started.
abbrev os : Os.Process String ℕ ℕ World
os = record {
  parse_cmd = λ s w. (ok s, w);
  environ = [];
  with_env = λ cmd env. cmd;
  clone_cmd = λ cmd w. (ok cmd, w);
  stdin_pipe = λ cmd w. (ok 0, w);
  stdout_pipe = λ cmd w. (ok tt, w);
  stderr_pipe = λ cmd w. (ok tt, w);
  start = λ cmd w. (err (text "not found"), w);
  print_line = λ stdin input w. (ok tt, w);
  kill = λ run w. (ok tt, w);
  is_process_done = λ e. false;
  ctx_err = λ ctx w. text "done";
  message_of = λ e. "message";
}

abbrev cli : CliPackage String ℕ ℕ World
cli = record {
  cells = cells;
  decode = λ fs. err (text "no map");
  os = os;
  of_service = λ ctx w. (ok (Service.done, true), w);
  of_script = record {
    output = λ cmd w. (ok "", w);
    process = λ cmd w. none;
    interrupted = λ cmd ctx w. none;
  };
}

abbrev two : PoolConfig
two = record { max_wait_duration = ""; concurrency = pos 2; template = commands "cat" }

abbrev registry : Finders World
registry = with_cli cli libs packages self

abbrev fresh : Object
fresh = record { f = service (unstarted "cat") }

-- The memory as it is in the end, each object as it was allocated and as it was configured.
abbrev placed : ℕ → (ℕ → Object) → ℕ → Object
placed a m = update (update m a Cli.new) a fresh

abbrev empty : World
empty = (0, λ a. Cli.new)

abbrev filled : World
filled = (2, placed 1 (placed 0 empty.1))

abbrev full : PoolFn World
full = pool_of (pos 500000000) registry 2 (cli_fn cli 0 ∷ cli_fn cli 1 ∷ [])

pool-Separate_example :
    (n : ℕ) × (fns : List (Fn World)) × IsConcurrency (pos 2) n
    × (full.fn_chan ≡ some (channel n fns))
    × (length fns ≡ n)
    × Separate cli memory empty fns filled
unfolding Pool.configure_map Pool.new Pool.or_default Cli.new open_main cli_factory
pool-Separate_example =
    pool-Separate cli memory (λ s w. Keeps-refl memory w) (λ c w. Keeps-refl memory w) libs packages
      self (λ fs. ok two) (λ s. err (text "duration")) end two "cat" empty filled full refl refl
      refl

abbrev breaker : CircuitbreakerPackage ℕ (Heap (CircuitBreaker ℕ))
breaker = record {
  cells = cells;
  decode = λ fs. record { name = ""; max_requests = pos 0; interval = pos 0; timeout = pos 0 };
  new_breaker = λ c. 0;
  execute = λ cb call w. call w;
}

abbrev no_breakers : Heap (CircuitBreaker ℕ)
no_breakers = (0, λ a. record { cb = some 1 })

abbrev placed_breaker : Heap (CircuitBreaker ℕ)
placed_breaker = (1, update no_breakers.1 0 (record { cb = none }))

abbrev silent : Fn (Heap (CircuitBreaker ℕ))
silent ctx input w = (returns input none, w)

unconfigured_breaker_example :
    (make
        (with_breaker libs packages self breaker memory).find_middleware
        (text "missing")
        "fnrun.middleware/circuitbreaker"
        null
        no_breakers
      ≡ (ok (circuitbreaker_middleware breaker 0), placed_breaker))
    × (circuitbreaker_middleware breaker 0 background (str "x") silent placed_breaker
        ≡ (panics, placed_breaker))
unfolding new_broken memory
unconfigured_breaker_example =
    unconfigured_breaker libs packages self breaker memory (text "missing") background (str "x")
      silent no_breakers placed_breaker (Keeps-refl memory placed_breaker)
