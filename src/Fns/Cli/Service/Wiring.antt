-- ===== src/Fns/Cli/Service/Wiring.antt =====
-- A service that is alive has a process and a pipe to it, so that no nil pointer is dereferenced.
use fnrun.Prelude.{
  ◌≡◌, refl, ◌≢◌, Bool, true, false, Option, none, some, List, [], ◌∷◌, All, if◌then◌else◌,
}
use fnrun.Value.{Value}
use fnrun.Exec.{Error, Context, Result, ok, err, panic, hang, Reply, panics, assign_result}
use fnrun.Fns.Cli.Os.{Process, kill_process}
use fnrun.Fns.Cli.Service.{
  Service, Selected, response, done, failed, Select, unless_done, kill, launch, start_with, start,
  exited, print, after_kill, conclude, after_print, after_start, invoke,
}

abbrev pub IsGiven : {A : Type 0} → Option A → Type 0
IsGiven none = ⊥
IsGiven (some a) = Unit

module _ {Cmd Run Stdin : Type 0} where
  abbrev pub IsStarted : Service Cmd Run Stdin → Type 0
  IsStarted s = IsGiven s.process × IsGiven s.stdin

  abbrev pub IsWired : Service Cmd Run Stdin → Type 0
  IsWired s = s.alive ≡ true → IsStarted s

-- Nothing that the service calls panics by itself.
pub record IsCalm {Cmd Run Stdin W : Type 0} (os : Process Cmd Run Stdin W) (select : Select W)
    : Type 0 where
  pub launch_calm : (c : Cmd) (w : W) → (launch os c w).0 ≢ panic
  pub print_calm : (p : Stdin) (v : Value) (w : W) → (os.print_line p v w).0 ≢ panic
  pub kill_calm : (r : Run) (w : W) → (os.kill r w).0 ≢ panic
  pub select_calm : (ctx : Context) (w : W) → (select ctx w).0 ≢ panic

-- What happens to a service: an invocation, or the end of its process between two of them.
pub data Event : Type 0 where
  invoked : Context → Value → Event
  ended : Event

module _ {Cmd Run Stdin W : Type 0} (os : Process Cmd Run Stdin W) (select : Select W) where
  unfoldable pub replies : List Event → Service Cmd Run Stdin → W → List Reply
  unfolding exited
  replies [] s w = []
  replies (invoked ctx input ∷ events) s w =
      let (r, s', w') = invoke os select s ctx input w in r ∷ replies events s' w'
  replies (ended ∷ events) s w = replies events (exited s) w

  -- A reply that is no panic, with a service that is wired.
  abbrev IsFine : Reply × Service Cmd Run Stdin × W → Type 0
  IsFine x = (x.0 ≢ panics) × IsWired x.1

module _ {Cmd Run Stdin W : Type 0} (os : Process Cmd Run Stdin W) (select : Select W)
    (calm : IsCalm os select) where
  open calm use {launch_calm, print_calm, kill_calm, select_calm}

  kill_process_calm : (o : Option Run) (w : W) → IsGiven o → (kill_process os o w).0 ≢ panic
  kill_process_calm (some run) w g = kill_calm run w
  kill_process_calm none w g = absurd g

  unless_done_calm : (x : Result (Unit {0}) × W) → x.0 ≢ panic → (unless_done os x).0 ≢ panic
  unless_done_calm (ok _, w) h = h
  unless_done_calm (err e, w) h = checked (os.is_process_done e)
    where
      checked : (b : Bool) → ◌≢◌ {A = Result (Unit {0})} (if b then ok tt else err e) panic
      checked true p = cc
      checked false p = cc
  unless_done_calm (panic, w) h = h
  unless_done_calm (hang, w) h = h

  after_kill-IsFine :
      (f : Error → Error) (g : W → Error) (r : Result (Unit {0})) (s : Service Cmd Run Stdin)
      (w : W)
      → r ≢ panic
      → s.alive ≡ false
      → IsFine os select (after_kill os f g (r, s, w))
  after_kill-IsFine f g (ok _) s w h dead = (λ p. cc, λ p. cc)
  after_kill-IsFine f g (err e) s w h dead = (λ p. cc, λ p. cc)
  after_kill-IsFine f g panic s w h dead = absurd (h refl)
  after_kill-IsFine f g hang s w h dead = (λ p. cc, λ p. cc)

  killed-IsFine :
      (f : Error → Error) (g : W → Error) (s : Service Cmd Run Stdin) (w : W)
      → IsStarted s
      → IsFine os select (after_kill os f g (kill os s w))
  unfolding kill
  killed-IsFine f g s w started =
      after_kill-IsFine f g _ _ _
        (unless_done_calm (kill_process os s.process w) (kill_process_calm s.process w started.0))
        refl

  conclude-IsFine :
      (ctx : Context) (s : Service Cmd Run Stdin) (x : Result (Selected × Bool) × W)
      → IsStarted s
      → x.0 ≢ panic
      → IsFine os select (conclude os ctx s x)
  unfolding conclude
  conclude-IsFine ctx s (ok (response line, b), w) started h = (λ p. cc, λ p. started)
  conclude-IsFine ctx s (ok (done, b), w) started h = killed-IsFine _ _ s w started
  conclude-IsFine ctx s (ok (failed e, b), w) started h = killed-IsFine _ _ s w started
  conclude-IsFine ctx s (err e, w) started h = (λ p. cc, λ p. started)
  conclude-IsFine ctx s (panic, w) started h = absurd (h refl)
  conclude-IsFine ctx s (hang, w) started h = (λ p. cc, λ p. started)

  print-ne-panic : (o : Option Stdin) (v : Value) (w : W) → IsGiven o → (print os o v w).0 ≢ panic
  unfolding print
  print-ne-panic (some p) v w g = print_calm p v w
  print-ne-panic none v w g = absurd g

  after_print-IsFine :
      (ctx : Context) (s : Service Cmd Run Stdin) (x : Result (Unit {0}) × W)
      → IsStarted s
      → x.0 ≢ panic
      → IsFine os select (after_print os select ctx s x)
  after_print-IsFine ctx s (ok _, w) started h =
      conclude-IsFine ctx s (select ctx w) started (select_calm ctx w)
  after_print-IsFine ctx s (err e, w) started h = (λ p. cc, λ p. started)
  after_print-IsFine ctx s (panic, w) started h = absurd (h refl)
  after_print-IsFine ctx s (hang, w) started h = (λ p. cc, λ p. started)

  after_start-IsFine :
      (ctx : Context) (input : Value) (s : Service Cmd Run Stdin) (w : W)
      → IsStarted s
      → IsFine os select (after_start os select ctx input (ok tt, s, w))
  after_start-IsFine ctx input s w started =
      after_print-IsFine ctx s (print os s.stdin input w) started
        (print-ne-panic s.stdin input w started.1)

  launched-IsFine :
      (ctx : Context) (input : Value) (s : Service Cmd Run Stdin) (x : Result (Run × Stdin)) (w : W)
      → s.alive ≡ false
      → x ≢ panic
      → IsFine os select (
          after_start os select ctx input (
            assign_result
              (λ (run, stdin). record s { process = some run; stdin = some stdin; alive = true })
              s
              x
              w))
  launched-IsFine ctx input s (ok (run, stdin)) w dead h = after_start-IsFine ctx input _ w (tt, tt)
  launched-IsFine ctx input s (err e) w dead h = (λ p. cc, λ p. cc)
  launched-IsFine ctx input s panic w dead h = absurd (h refl)
  launched-IsFine ctx input s hang w dead h = (λ p. cc, λ p. cc)

  start_with-IsFine :
      (b : Bool) (ctx : Context) (input : Value) (s : Service Cmd Run Stdin) (w : W)
      → s.alive ≡ b
      → IsWired s
      → IsFine os select (after_start os select ctx input (start_with os b s w))
  unfolding start_with
  start_with-IsFine true ctx input s w e wired = after_start-IsFine ctx input s w (wired e)
  start_with-IsFine false ctx input s w e wired =
      launched-IsFine ctx input s (launch os s.base_cmd w).0 (launch os s.base_cmd w).1 e
        (launch_calm s.base_cmd w)

  -- An invocation of a service that is wired leaves it wired, and does not panic.
  invoke-IsFine :
      (s : Service Cmd Run Stdin) (ctx : Context) (input : Value) (w : W)
      → IsWired s
      → IsFine os select (invoke os select s ctx input w)
  unfolding invoke start
  invoke-IsFine s ctx input w wired = start_with-IsFine s.alive ctx input s w refl wired

  -- If what it calls does not panic, and it has a process and a pipe to it if it is alive, as a new one
  -- is not: no invocation of a service panics, whatever came before it:
  -- invocations with any outcome, and ends of its process. So the service never prints to a pipe,
  -- nor kills a process, that it does not have.
  pub replies-ne-panics :
      (events : List Event) (s : Service Cmd Run Stdin) (w : W)
      → IsWired s
      → All (λ r. r ≢ panics) (replies os select events s w)
  unfolding replies exited
  replies-ne-panics [] s w wired = tt
  replies-ne-panics (invoked ctx input ∷ events) s w wired =
      let (fine, wired') = invoke-IsFine s ctx input w wired in
      (fine, replies-ne-panics events _ _ wired')
  replies-ne-panics (ended ∷ events) s w wired = replies-ne-panics events _ w (λ p. cc)
