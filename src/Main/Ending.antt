-- ===== src/Main/Ending.antt =====
-- How main ends: in its set-up, or in a run.
use fnrun.Prelude.{◌⊎◌, inl, inr, ℕ, ◌≡◌, refl, ap, ◌∙◌, ◌↔◌, true, some}
use fnrun.Value.{object}
use fnrun.Config.{configure}
use fnrun.Registry.{Finders}
use fnrun.Exec.{Result, ok, err, panic, hang, Exec, continue}
use fnrun.Runner.{Runner}
use fnrun.Main.{Platform, or_panic, running, config_path, runner_object, set_up, after_set_up, main}
use fnrun.Main.Restarting.{Ends, rounds_end_iff}

-- A result that no error of the code is.
abbrev IsNoError : {A : Type 0} → Result A → Type 0
IsNoError (err e) = ⊥
IsNoError _ = Unit

or_panic-IsNoError : {A : Type 0} (r : Result A) → IsNoError (or_panic r)
or_panic-IsNoError (ok a) = tt
or_panic-IsNoError (err e) = tt
or_panic-IsNoError panic = tt
or_panic-IsNoError hang = tt

module _ {W A B : Type 0} where
  continue-IsNoError :
      (r : Result A) (k : A → Exec W B) (w : W)
      → ((a : A) (u : W) → IsNoError (k a u).0)
      → IsNoError (continue (or_panic r) k w).0
  continue-IsNoError (ok a) k w h = h a w
  continue-IsNoError (err e) k w h = tt
  continue-IsNoError panic k w h = tt
  continue-IsNoError hang k w h = tt

-- The failure of the set-up is the program's.
abbrev pub Fails : {A : Type 0} → Result A → Result (Unit {0}) → Type 0
Fails panic x = x ≡ panic
Fails hang x = x ≡ hang
Fails _ x = ⊥

module _ {W : Type 0} (platform : Platform W) where
  set_up-IsNoError : (registry : Finders W) (w : W) → IsNoError (set_up platform registry w).0
  unfolding set_up
  set_up-IsNoError registry w =
      continue-IsNoError (platform.read_file (config_path platform) w).0 _ _ (λ bytes u.
        continue-IsNoError (platform.unmarshal (platform.expand_env bytes)) _ u (λ fs v.
          or_panic-IsNoError (configure (runner_object platform registry) (object fs) v).0))

  module _ (n : ℕ) (x : Result (Unit {0})) (w' : W) (auto : platform.auto_restart ≡ true) where
    -- The end of the program, after the set-up.
    abbrev Outcome : Result (Runner W) → W → Type 0
    Outcome y u =
        (Fails y x × (u ≡ w'))
        ⊎ ((r : Runner W) × (y ≡ ok r) × Ends platform r n (platform.log running u) x w')

    after_set_up-Outcome :
        (y : Result (Runner W)) (u : W)
        → IsNoError y
        → after_set_up platform n (y, u) ≡ some (x, w')
        → Outcome y u
    after_set_up-Outcome (ok r) u fine h =
        inr (r, refl, (rounds_end_iff platform r n (platform.log running u) w' x auto).0 h)
    after_set_up-Outcome (err e) u fine h = absurd fine
    after_set_up-Outcome panic u fine h = inl (cc, cc)
    after_set_up-Outcome hang u fine h = inl (cc, cc)

    Outcome-after_set_up :
        (y : Result (Runner W)) (u : W)
        → Outcome y u
        → after_set_up platform n (y, u) ≡ some (x, w')
    Outcome-after_set_up y u (inr (r, e, ends)) =
        ap (λ z. after_set_up platform n (z, u)) e
        ∙ (rounds_end_iff platform r n (platform.log running u) w' x auto).1 ends
    Outcome-after_set_up (ok r) u (inl (f, e)) = absurd f
    Outcome-after_set_up (err b) u (inl (f, e)) = absurd f
    Outcome-after_set_up panic u (inl (f, e)) = cc
    Outcome-after_set_up hang u (inl (f, e)) = cc

  -- With automatic restarts, main is over within `n` runs exactly when the set-up panics, as it does on
  -- every error, or never ends, or when a run panics or never ends after runs that returned nil or
  -- an error: no error of a source ends the program.
  pub main_ends_iff :
      (n : ℕ) (registry : Finders W) (w w' : W) (x : Result (Unit {0}))
      → platform.auto_restart ≡ true
      → (main platform n registry w ≡ some (x, w')) ↔ (
          (Fails (set_up platform registry w).0 x × ((set_up platform registry w).1 ≡ w'))
          ⊎ ((r : Runner W) × ((set_up platform registry w).0 ≡ ok r)
              × Ends platform r n (platform.log running (set_up platform registry w).1) x w'))
  unfolding main
  main_ends_iff n registry w w' x auto =
      let (y, u) = set_up platform registry w in
      (
        after_set_up-Outcome n x w' auto y u (set_up-IsNoError registry w),
        Outcome-after_set_up n x w' auto y u,
      )
