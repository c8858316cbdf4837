-- ===== src/Fns/Cli/Running.antt =====
-- A service with its goroutines, as steps: the invocation, the scanner of each process' output, the
-- goroutine that waits for each process, and the processes. A process is a number, in the order of
-- the starts. Any number of invocations run at once: Invoke takes no lock over its start, its print and
-- its select. An input is printed as one line.
pub mod Answers
pub mod Stale
pub mod Simulation
pub mod Refining
pub mod Living
use fnrun.Prelude.{
  ℕ, suc, ◌≡◌, ◌≢◌, Bool, true, false, String, Option, none, some, List, [], ◌∷◌, ◌++◌, All,
}

pub record Running : Type 0 where
  pub alive : Bool
  -- the process of `cmd`, to whose input `stdin` leads
  pub current : Option ℕ
  pub started : ℕ
  -- the processes that Wait has not returned for
  pub live : List ℕ
  -- the lines that have been printed to the processes, and not read by them
  pub stdin : List (ℕ × String)
  -- the lines that the processes have printed, and their scanners have not sent
  pub stdout : List (ℕ × String)
  -- outputChannel and errorChannel, each with a buffer of one; what it holds came from a process
  pub outputs : List (ℕ × String)
  pub errors : List ℕ
  -- the processes whose goroutine is to send the error of Wait
  pub failed : List ℕ
  -- how many invocations have found no process and are to start one, and how many are to print
  pub entering : ℕ
  pub printing : ℕ
  -- the inputs of the invocations that are in their select
  pub waiting : List String
  -- the inputs that were answered by a line, and the lines
  pub answers : List (String × String)
  -- the inputs whose invocation returned the error of a process, and the process
  pub failures : List (String × ℕ)
  -- the inputs whose invocation was cancelled, and the process that it killed
  pub cancelled : List (String × ℕ)

-- newService
abbrev pub start : Running
start = record {
  alive = false;
  current = none;
  started = 0;
  live = [];
  stdin = [];
  stdout = [];
  outputs = [];
  errors = [];
  failed = [];
  entering = 0;
  printing = 0;
  waiting = [];
  answers = [];
  failures = [];
  cancelled = [];
}

-- Each process answers a line `x` of its input by the line `g x`.
pub data Step (g : String → String) (s : Running) : Running → Type 0 where
  -- getAlive, called by start
  find_dead : s.alive ≡ false → Step g s (record s { entering = suc s.entering })
  find_alive : s.alive ≡ true → Step g s (record s { printing = suc s.printing })
  -- the rest of start: a pipe or the start fails, or there is a new process
  give_up : (n : ℕ) → s.entering ≡ suc n → Step g s (record s { entering = n })
  launch :
      (n : ℕ)
      → s.entering ≡ suc n
      → Step g s (record s {
        alive = true;
        current = some s.started;
        started = suc s.started;
        live = s.started ∷ s.live;
        entering = n;
        printing = suc s.printing;
      })
  -- fmt.Fprintln to the pipe of the process that is there then, which may fail
  misprint : (n : ℕ) → s.printing ≡ suc n → Step g s (record s { printing = n })
  print :
      (p n : ℕ) (input : String)
      → s.printing ≡ suc n
      → s.current ≡ some p
      → Step g s (record s {
        stdin = s.stdin ++ (p, input) ∷ [];
        printing = n;
        waiting = input ∷ s.waiting;
      })
  -- a process reads the first line that is left for it, and answers
  answer :
      (p : ℕ) (x : String) (before after : List (ℕ × String)) (older younger : List ℕ)
      → s.live ≡ older ++ p ∷ younger
      → s.stdin ≡ before ++ (p, x) ∷ after
      → All (λ line. line.0 ≢ p) before
      → Step g s (record s { stdin = before ++ after; stdout = s.stdout ++ (p, g x) ∷ [] })
  -- `s.outputChannel <- scanner.Text()`
  scan :
      (p : ℕ) (x : String) (before after : List (ℕ × String))
      → s.stdout ≡ before ++ (p, x) ∷ after
      → All (λ line. line.0 ≢ p) before
      → s.outputs ≡ []
      → Step g s (record s { stdout = before ++ after; outputs = (p, x) ∷ [] })
  -- cmd.Wait returns nil, or an error
  exit :
      (p : ℕ) (older younger : List ℕ)
      → s.live ≡ older ++ p ∷ younger
      → Step g s (record s { alive = false; live = older ++ younger })
  exit_failing :
      (p : ℕ) (older younger : List ℕ)
      → s.live ≡ older ++ p ∷ younger
      → Step g s (record s { alive = false; live = older ++ younger; failed = p ∷ s.failed })
  -- `s.errorChannel <- err`
  report :
      (p : ℕ) (before after : List ℕ)
      → s.failed ≡ before ++ p ∷ after
      → s.errors ≡ []
      → Step g s (record s { failed = before ++ after; errors = p ∷ [] })
  -- the three cases of the select of one of the invocations; kill notes that the process ends, which
  -- the process does by a step of its own
  respond :
      (p : ℕ) (input x : String) (rest : List (ℕ × String)) (before after : List String)
      → s.waiting ≡ before ++ input ∷ after
      → s.outputs ≡ (p, x) ∷ rest
      → Step g s
          (record s { outputs = rest; waiting = before ++ after; answers = (input, x) ∷ s.answers })
  cancel :
      (p : ℕ) (input : String) (before after : List String)
      → s.waiting ≡ before ++ input ∷ after
      → s.current ≡ some p
      → Step g s (record s {
        alive = false;
        waiting = before ++ after;
        cancelled = (input, p) ∷ s.cancelled;
      })
  fail :
      (p : ℕ) (input : String) (rest : List ℕ) (before after : List String)
      → s.waiting ≡ before ++ input ∷ after
      → s.errors ≡ p ∷ rest
      → Step g s (record s {
        alive = false;
        errors = rest;
        waiting = before ++ after;
        failures = (input, p) ∷ s.failures;
      })

pub data Reach (g : String → String) (s : Running) : Running → Type 0 where
  here : Reach g s s
  next : {t u : Running} → Reach g s t → Step g t u → Reach g s u

-- The same by steps that a condition allows.
pub data ReachBy (g : String → String) (P : (t u : Running) → Step g t u → Type 0) (s : Running)
    : Running → Type 0 where
  still : ReachBy g P s s
  more : {t u : Running} → ReachBy g P s t → (step : Step g t u) → P t u step → ReachBy g P s u
