-- ===== src/Pool.antt =====
-- run/fn/pool/pool.go: a fn that hands each input to a free fn of a fixed number of them.
pub mod Filling
pub mod Configuring
pub mod Invoking
pub mod Calls
pub mod Ownership
pub mod Alone
pub mod Rotating
use fnrun.Prelude.{
  ℕ, zero, suc, ◌<◌, String, Bool, true, false, Option, none, some, List, [], ◌∷◌, ◌++◌, length,
  ltb, str_eq, if◌then◌else◌,
}
use fnrun.Value.{Value, null, str, object, Fields}
use fnrun.Value.Int.{ℤ, pos, negsuc}
use fnrun.Exec.{
  Error, text, errorf, Exec, pure, raise, crash, ◌>>=◌, Context, Reply, returns, panics, hangs, Fn,
  Result, ok, err, panic, hang, Method, then_method, configured_by, continue_method,
}
use fnrun.Config.{Configurable, get_single_pair}
use fnrun.Registry.{Finders}
use fnrun.Making.{make, make_single}

-- A buffered channel: its capacity, and what was sent and not yet received, the oldest first.
pub record Channel (A : Type 0) : Type 0 where
  pub capacity : ℕ
  pub queue : List A

-- poolFn; `fn_chan` is nil until make, and a duration is a number of nanoseconds
pub record PoolFn (W : Type 0) : Type 0 where
  pub max_wait_duration : ℤ
  pub registry : Finders W
  pub fn_chan : Option (Channel (Fn W))

-- The struct that ConfigureMap decodes into.
pub record PoolConfig : Type 0 where
  pub max_wait_duration : String
  pub concurrency : ℤ
  pub template : Value

abbrev pub availability_timeout : Error
availability_timeout = text "could not get access to Fn before timeout"

abbrev pub fn_not_found : String → Error
fn_not_found key = errorf "a registered fn not found for key %q" (key ∷ [])

-- `c <- x`, which waits for ever if the buffer stays full; on a nil channel it waits for ever
module _ {A : Type 0} where
  unfoldable pub send : Channel A → A → Option (Channel A)
  send c x =
      if ltb (length c.queue) c.capacity
      then some (record c { queue = c.queue ++ x ∷ [] })
      else none

  -- What comes of `p.fnChan <- f`, and of the results behind it.
  abbrev pub sent : Option (Channel A) → Value → Option Error → Option (Channel A) × Reply
  sent none output e = (none, hangs)
  sent (some c') output e = (some c', returns output e)

  -- What the invocation gives once `f` has returned. If `f` panics the send is not reached.
  unfoldable pub give_back : A → Channel A → Reply → Option (Channel A) × Reply
  unfolding send
  give_back f c (returns output e) = sent (send c f) output e
  give_back f c panics = (some c, panics)
  give_back f c hangs = (some c, hangs)

  -- The channel after the invocation; a send that never ends leaves it as it is.
  abbrev pub kept : Channel A → Option (Channel A) × Reply → Channel A × Reply
  kept c (none, r) = (c, r)
  kept c (some c', r) = (c', r)

-- `if concurrency == 0 { concurrency = 8 }`
unfoldable pub or_default : ℤ → ℤ
or_default (pos zero) = pos 8
or_default n = n

module _ {W : Type 0} where
  -- createFn and createFnFromTemplate
  unfoldable pub create_fn_from_template : Finders W → Value → Exec W (Fn W)
  unfolding make get_single_pair
  create_fn_from_template registry (str key) = make registry.find_fn (fn_not_found key) key null
  create_fn_from_template registry (object fs) = make_single registry.find_fn fn_not_found fs
  create_fn_from_template registry cfg = raise (text "unsupported config type")

  -- `p.fnChan <- f`, at the end of a round of the loop
  unfoldable pub offer : PoolFn W → Fn W → Option (PoolFn W)
  unfolding send
  offer p f = elim p.fn_chan [
    | none ↦ none
    | some c ↦ elim (send c f) [ none ↦ none | some c' ↦ some (record p { fn_chan = some c' }) ]
  ]

  -- The loop of ConfigureMap, with the number of rounds that are left.
  unfoldable pub fill : ℕ → Value → PoolFn W → Method (PoolFn W) W
  unfolding create_fn_from_template offer
  fill zero template p = λ w. (ok tt, p, w)
  fill (suc n) template p =
      then_method (create_fn_from_template p.registry template)
        (λ f w. elim (offer p f) [ none ↦ (hang, p, w) | some p' ↦ fill n template p' w ]) p

  -- `p.fnChan = make(chan fn.Fn, concurrency)` and the loop; make panics at a negative size
  unfoldable pub make_fns : ℤ → Value → PoolFn W → Method (PoolFn W) W
  unfolding fill
  make_fns (negsuc n) template p w = (panic, p, w)
  make_fns (pos n) template p w =
      fill n template (record p { fn_chan = some (record { capacity = n; queue = [] }) }) w

  -- `if cfg.MaxWaitDuration != "" { ... }`; the parameter is time.ParseDuration
  unfoldable pub parsed_wait : (String → Result ℤ) → String → ℤ → Exec W ℤ
  parsed_wait parse_duration s before w =
      if str_eq s "" then (ok before, w) else (parse_duration s, w)

  -- ConfigureMap; the parameters are mapstructure.Decode into the struct, and time.ParseDuration
  unfoldable pub configure_map :
      (Fields → Result PoolConfig) → (String → Result ℤ) → Fields → PoolFn W → Method (PoolFn W) W
  unfolding parsed_wait make_fns or_default
  configure_map decode parse_duration config_map p =
      then_method (λ w. (decode config_map, w))
        (λ cfg.
          then_method (parsed_wait parse_duration cfg.max_wait_duration p.max_wait_duration)
            (λ d.
              make_fns (or_default cfg.concurrency) cfg.template
                (record p { max_wait_duration = d }))
            p)
        p

  -- The case of Invoke that receives from the channel and calls the fn.
  unfoldable pub call_free :
      Fn W → Channel (Fn W) → Context → Value → W → (Channel (Fn W) × Reply) × W
  unfolding give_back
  call_free f c ctx input w = let (r, w') = f ctx input w in (kept c (give_back f c r), w')

  -- Invoke, for one call that runs alone. `timer_first` says whether the timer has fired before the
  -- select looks at the channel: with both cases ready, either is taken.
  unfoldable pub invoke_channel :
      Bool → Channel (Fn W) → Context → Value → W → (Channel (Fn W) × Reply) × W
  unfolding call_free
  invoke_channel true c ctx input w = ((c, returns null (some availability_timeout)), w)
  invoke_channel false c ctx input w = elim c.queue [
    | [] ↦ ((c, returns null (some availability_timeout)), w)
    | f ∷ rest ↦ call_free f (record c { queue = rest }) ctx input w
  ]

  -- Invoke on the pool; a receive from a nil channel waits for ever, so that the timer decides.
  unfoldable pub invoke : Bool → PoolFn W → Context → Value → W → (PoolFn W × Reply) × W
  unfolding invoke_channel
  invoke timer_first p ctx input w = elim p.fn_chan [
    | none ↦ ((p, returns null (some availability_timeout)), w)
    | some c ↦
        let ((c', r), w') = invoke_channel timer_first c ctx input w in
        ((record p { fn_chan = some c' }, r), w')
  ]

  -- New: a pool waits for 500ms unless it is configured otherwise
  unfoldable pub new : Finders W → PoolFn W
  new registry = record { max_wait_duration = pos 500000000; registry = registry; fn_chan = none }
