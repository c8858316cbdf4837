-- ===== src/Tests/Pool.antt =====
-- Pools of two fns.
use fnrun.Prelude.{ℕ, ◌+◌, String, ◌≡◌, refl, ◌↔◌, false, none, List, [], ◌∷◌, map, arith}
use fnrun.Value.{Value, int, str, Fields, end}
use fnrun.Value.Int.{ℤ, pos}
use fnrun.Exec.{Result, ok, err, text, returns, Context, Fn}
use fnrun.Pool.{PoolFn, PoolConfig, invoke_channel, configure_map}
use fnrun.Pool.Filling.{pool_of}
use fnrun.Pool.Configuring.{Filled, configure_pool_iff}
use fnrun.Pool.Calls.{Calls, start, arrive, receive, finish, Reach, here, next}
use fnrun.Pool.Ownership.{IsShared, IsDistinct, Reach-IsShared}
use fnrun.Pool.Alone.{Simulates, invoke-Simulates}
use fnrun.Pool.Rotating.{channel_at, invoke_each, invoke_each-in_turn}
use fnrun.Tests.World.{background, echo, registry}

abbrev pool : PoolFn ℕ
pool = record { max_wait_duration = pos 500; registry = registry; fn_chan = none }

abbrev decode : PoolConfig → Fields → Result PoolConfig
decode cfg fs = ok cfg

abbrev no_durations : String → Result ℤ
no_durations s = err (text "time: invalid duration")

abbrev two : PoolConfig
two = record { max_wait_duration = ""; concurrency = pos 2; template = str "echo" }

configure_pool_iff_example :
    (configure_map (decode two) no_durations end pool 0
      ≡ (ok tt, pool_of (pos 500) registry 2 (echo ∷ echo ∷ []), 2))
    ↔ ((cfg : PoolConfig) × (◌≡◌ {A = Result PoolConfig} (ok two) (ok cfg))
        × Filled no_durations pool cfg 0 (pool_of (pos 500) registry 2 (echo ∷ echo ∷ [])) 2)
configure_pool_iff_example =
    configure_pool_iff (decode two) no_durations end pool 0
      (pool_of (pos 500) registry 2 (echo ∷ echo ∷ [])) 2

abbrev fns : List ℕ
fns = 10 ∷ 20 ∷ []

abbrev both_run : Calls
both_run = record (start fns) { free = []; running = (2, 20) ∷ (1, 10) ∷ [] }

both_run_reached : Reach (start fns) both_run
both_run_reached =
    next
      (next (next (next here (arrive 1)) (arrive 2)) (receive 1 10 (2 ∷ []) [] (20 ∷ []) refl refl))
      (receive 2 20 [] [] [] refl refl)

Reach-IsShared_example : IsShared fns both_run
Reach-IsShared_example = Reach-IsShared fns both_run_reached

fns-IsDistinct : IsDistinct fns
fns-IsDistinct f = ground arith

abbrev one_left : Calls
one_left = record (start fns) { free = 10 ∷ []; running = (2, 20) ∷ [] }

one_left_reached : Reach (start fns) one_left
one_left_reached = next both_run_reached (finish 1 10 ((2, 20) ∷ []) [] refl (omega arith))

all_free_reached : Reach (start fns) (record (start fns) { free = 10 ∷ 20 ∷ [] })
all_free_reached = next one_left_reached (finish 2 20 [] [] refl (omega arith))

-- Call 1 runs alone, while call 2 waits.
abbrev one_waits : Calls
one_waits = record (start fns) { waiting = 2 ∷ [] }

invoke-Simulates_example :
    Simulates
      (λ f. echo)
      background
      (str "in")
      1
      one_waits
      0
      (invoke_channel false
        (record { capacity = one_waits.capacity; queue = map (λ f. echo) one_waits.free })
        background
        (str "in")
        0)
invoke-Simulates_example =
    invoke-Simulates (λ f. echo) background (str "in") false 1 one_waits 0 (omega arith)

-- Fns that reply with their own number.
abbrev numbered : ℕ → Fn ℕ
numbered i ctx input w = (returns (int (pos i)) none, w + 1)

abbrev inputs : List (Context × Value)
inputs = (background, str "a") ∷ (background, str "b") ∷ (background, str "c") ∷ []

invoke_each-in_turn_example : invoke_each (channel_at numbered 2 1) inputs 0 ≡ (
  channel_at numbered 2 0,
  returns (int (pos 1)) none ∷ returns (int (pos 0)) none ∷ returns (int (pos 1)) none ∷ [],
  3,
)
invoke_each-in_turn_example =
    invoke_each-in_turn numbered 2 (λ i ctx input w. tt) inputs 1 0 (omega arith)
