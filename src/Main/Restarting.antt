-- ===== src/Main/Restarting.antt =====
-- The loop of main: how long it goes on.
use fnrun.Prelude.{
  ℕ, zero, suc, ◌<◌, ◌≡◌, refl, sym, ap, subst, ◌∙◌, ◌↔◌, true, Option, none, some, arith,
}
use fnrun.Exec.{Error, Result, ok, err, panic, hang}
use fnrun.Runner.{Runner}
use fnrun.Runner
use fnrun.Main.{
  Platform, received_error, restarting_in, restarting, background, restart, after_run, rounds,
}

-- A run that ends with nil or an error, and one that panics or never ends.
abbrev pub IsReturned : Result (Unit {0}) → Type 0
IsReturned (ok _) = Unit
IsReturned (err e) = Unit
IsReturned _ = ⊥

abbrev pub IsFatal : Result (Unit {0}) → Type 0
IsFatal panic = Unit
IsFatal hang = Unit
IsFatal _ = ⊥

abbrev pub error_of : Result (Unit {0}) → Option Error
error_of (err e) = some e
error_of _ = none

module _ {W : Type 0} (platform : Platform W) (r : Runner W) where
  -- What the world is like when the next run begins.
  abbrev pub resumed : Result (Unit {0}) → W → W
  resumed x w = platform.log restarting (
      platform.wait platform.restart_wait (
        platform.log (restarting_in platform.restart_wait)
          (platform.log (received_error (error_of x)) w)))

  -- A number of runs, each of which has returned, and been waited for, before the next one began.
  pub data Restarts : ℕ → W → W → Type 0 where
    first : {w : W} → Restarts zero w w
    again :
        {k : ℕ} {w u v : W} {x : Result (Unit {0})}
        → Runner.run r (background platform) w ≡ (x, u)
        → IsReturned x
        → Restarts k (resumed x u) v
        → Restarts (suc k) w v

  -- The loop is over within `n` runs, with the result `x`.
  abbrev pub Ends : ℕ → W → Result (Unit {0}) → W → Type 0
  Ends n w x w' =
      (k : ℕ) × (v : W) × (k < n)
      × Restarts k w v
      × (Runner.run r (background platform) v ≡ (x, w'))
      × IsFatal x

  restart-resumes :
      (next : W → Option (Result (Unit {0}) × W)) (x : Result (Unit {0})) (u : W)
      → platform.auto_restart ≡ true
      → restart platform platform.auto_restart next (error_of x) u ≡ next (resumed x u)
  restart-resumes next x u auto = ap (λ b. restart platform b next (error_of x) u) auto

  pub after_run-returned :
      (next : W → Option (Result (Unit {0}) × W)) (x : Result (Unit {0})) (u : W)
      → platform.auto_restart ≡ true
      → IsReturned x
      → after_run platform next (x, u) ≡ next (resumed x u)
  unfolding after_run
  after_run-returned next (ok a) u auto returned = restart-resumes next (ok a) u auto
  after_run-returned next (err e) u auto returned = restart-resumes next (err e) u auto
  after_run-returned next panic u auto returned = absurd returned
  after_run-returned next hang u auto returned = absurd returned

  after_run-fatal :
      (next : W → Option (Result (Unit {0}) × W)) (x : Result (Unit {0})) (u : W)
      → IsFatal x
      → after_run platform next (x, u) ≡ some (x, u)
  unfolding after_run
  after_run-fatal next (ok _) u fatal = absurd fatal
  after_run-fatal next (err e) u fatal = absurd fatal
  after_run-fatal next panic u fatal = refl
  after_run-fatal next hang u fatal = refl

  not_below_zero : (k : ℕ) → ¬ (k < 0)
  not_below_zero k less = omega (arith, less)

  Ends-rounds :
      (n : ℕ) (w v w' : W) (k : ℕ) (x : Result (Unit {0}))
      → platform.auto_restart ≡ true
      → k < n
      → Restarts k w v
      → Runner.run r (background platform) v ≡ (x, w')
      → IsFatal x
      → rounds platform n r w ≡ some (x, w')
  unfolding rounds
  Ends-rounds zero w v w' k x auto less restarts e fatal = absurd (not_below_zero k less)
  Ends-rounds (suc n) w v w' k x auto less first e fatal =
      ap (after_run platform (λ u. rounds platform n r u)) e
      ∙ after_run-fatal (λ u. rounds platform n r u) x w' fatal
  Ends-rounds (suc n) w v w' k x auto less (again {k = j} {u} {x = y} ran returned restarts) e
        fatal =
      ap (after_run platform (λ u. rounds platform n r u)) ran
      ∙ after_run-returned (λ u. rounds platform n r u) y u auto returned
      ∙ Ends-rounds n (resumed y u) v w' j x auto (omega (arith, less)) restarts e fatal

  Ends_again :
      (n : ℕ) (w u : W) (y : Result (Unit {0})) {x : Result (Unit {0})} {w' : W}
      → Runner.run r (background platform) w ≡ (y, u)
      → IsReturned y
      → Ends n (resumed y u) x w'
      → Ends (suc n) w x w'
  Ends_again n w u y ran returned (k, v, less, restarts, e, fatal) =
      (suc k, v, omega (arith, less), again ran returned restarts, e, fatal)

  Ends_now :
      (n : ℕ) (w w' : W) (x y : Result (Unit {0})) (u : W)
      → Runner.run r (background platform) w ≡ (y, u)
      → IsFatal y
      → ◌≡◌ {A = Option (Result (Unit {0}) × W)} (some (y, u)) (some (x, w'))
      → Ends (suc n) w x w'
  Ends_now n w w' x y u e fatal h =
      let same : y ≡ x = cc in (zero, w, omega arith, first, e ∙ cc, subst IsFatal same fatal)

  after_run-Ends :
      (n : ℕ) (w w' : W) (x : Result (Unit {0})) (y : Result (Unit {0}) × W)
      → platform.auto_restart ≡ true
      → ((v : W) → rounds platform n r v ≡ some (x, w') → Ends n v x w')
      → Runner.run r (background platform) w ≡ y
      → after_run platform (λ u. rounds platform n r u) y ≡ some (x, w')
      → Ends (suc n) w x w'
  after_run-Ends n w w' x (ok a, u) auto later e h = Ends_again n w u (ok a) e tt (
      later (resumed (ok a) u)
        (sym (after_run-returned (λ u. rounds platform n r u) (ok a) u auto tt) ∙ h))
  after_run-Ends n w w' x (err b, u) auto later e h = Ends_again n w u (err b) e tt (
      later (resumed (err b) u)
        (sym (after_run-returned (λ u. rounds platform n r u) (err b) u auto tt) ∙ h))
  after_run-Ends n w w' x (panic, u) auto later e h =
      Ends_now n w w' x panic u e tt (sym (after_run-fatal _ panic u tt) ∙ h)
  after_run-Ends n w w' x (hang, u) auto later e h =
      Ends_now n w w' x hang u e tt (sym (after_run-fatal _ hang u tt) ∙ h)

  rounds-Ends :
      (n : ℕ) (w w' : W) (x : Result (Unit {0}))
      → platform.auto_restart ≡ true
      → rounds platform n r w ≡ some (x, w')
      → Ends n w x w'
  unfolding rounds
  rounds-Ends zero w w' x auto h = cc
  rounds-Ends (suc n) w w' x auto h =
      after_run-Ends n w w' x (Runner.run r (background platform) w) auto
        (λ v h'. rounds-Ends n v w' x auto h') refl h

  -- With automatic restarts, the loop is over within a number of runs exactly when one of them, after
  -- runs that returned nil or an error, panics or never ends: no error of a source ends the program.
  pub rounds_end_iff :
      (n : ℕ) (w w' : W) (x : Result (Unit {0}))
      → platform.auto_restart ≡ true
      → (rounds platform n r w ≡ some (x, w')) ↔ Ends n w x w'
  rounds_end_iff n w w' x auto = (
    rounds-Ends n w w' x auto,
    λ (k, v, less, restarts, e, fatal). Ends-rounds n w v w' k x auto less restarts e fatal,
  )
