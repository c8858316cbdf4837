-- ===== src/Fns/Cli/Running/Stale.antt =====
-- What a cancelled invocation leaves behind, invocations at the same time, and an invocation whose
-- process ends without an answer.
use fnrun.Prelude.{ap, ◌∙◌, false, suc, ℕ, ◌≡◌, refl, String, some, [], ◌∷◌, no_middle}
use fnrun.Fns.Cli.Running.{
  Running, start, Step, find_dead, find_alive, give_up, launch, misprint, print, answer, scan, exit,
  exit_failing, report, respond, cancel, fail, ReachBy, still, more,
}

module _ (g : String → String) (a b : String) where
  -- The invocation for `a` has been cancelled, after its process has printed the answer.
  abbrev left_behind : Running
  left_behind = record start {
    current = some 0;
    started = 1;
    live = 0 ∷ [];
    stdout = (0, g a) ∷ [];
    cancelled = (a, 0) ∷ [];
  }

-- No process ends, and no invocation is cancelled.
abbrev IsSteady : {g : String → String} (s t : Running) → Step g s t → Type 0
IsSteady s t (exit p older younger e) = ⊥
IsSteady s t (exit_failing p older younger e) = ⊥
IsSteady s t (cancel p input before after e e') = ⊥
IsSteady s t step = Unit

-- Of two invocations at the same time each can return the answer to the other's input, though no
-- process ends and nothing is cancelled: Invoke takes no lock over its print and its select.
overlapping_swap :
    (g : String → String) (a b : String)
    → (t : Running) × ReachBy g IsSteady start t
      × (t.answers ≡ (a, g b) ∷ (b, g a) ∷ [])
      × (t.started ≡ 1)
overlapping_swap g a b = (
  _,
  more
      (more
        (more
          (more
            (more
              (more
                (more
                  (more
                    (more (more (more still (find_dead refl) tt) (launch 0 refl) tt)
                      (find_alive refl) tt)
                    (print 0 1 a refl refl) tt)
                  (print 0 0 b refl refl) tt)
                (answer 0 a [] ((0, b) ∷ []) [] [] refl refl tt) tt)
              (scan 0 (g a) [] [] refl tt refl) tt)
            (respond 0 b (g a) [] [] (a ∷ []) refl refl) tt)
          (answer 0 b [] [] [] [] refl refl tt) tt)
        (scan 0 (g b) [] [] refl tt refl) tt)
      (respond 0 a (g b) [] [] [] refl refl) tt,
  refl,
  refl,
)

-- No invocation is cancelled, and no other one begins.
abbrev pub IsUndisturbed : {g : String → String} (s t : Running) → Step g s t → Type 0
IsUndisturbed s t (cancel p input before after e e') = ⊥
IsUndisturbed s t (find_dead e) = ⊥
IsUndisturbed s t (find_alive e) = ⊥
IsUndisturbed s t step = Unit

-- An invocation waits, and no other one runs, with one process and without anything on its way back.
pub record IsLone (p : ℕ) (input : String) (s : Running) : Type 0 where
  pub waits : s.waiting ≡ input ∷ []
  pub unentered : s.entering ≡ 0
  pub printed : s.printing ≡ 0
  pub alone : s.live ≡ p ∷ []
  pub unsent : s.stdout ≡ []
  pub unheard : s.outputs ≡ []
  pub unfailed : s.failed ≡ []
  pub errorless : s.errors ≡ []

-- The service once the process has ended.
abbrev pub after_exit : Running → Running
after_exit s = record s { alive = false; live = [] }

zero-ne-suc : {B : Type 0} (m n : ℕ) → m ≡ suc n → m ≡ 0 → B
zero-ne-suc m n e e' = cc

module _ {g : String → String} (p : ℕ) (input : String) where
  stuck :
      (s : Running) {u t : Running}
      → IsLone p input s
      → u ≡ after_exit s
      → (step : Step g u t) → ¬ IsUndisturbed u t step
  stuck s v h (find_dead e) c = c
  stuck s v h (find_alive e) c = c
  stuck s {u} v h (give_up n e) c =
      zero-ne-suc u.entering n e (ap (λ (x : Running). x.entering) h ∙ v.unentered)
  stuck s {u} v h (launch n e) c =
      zero-ne-suc u.entering n e (ap (λ (x : Running). x.entering) h ∙ v.unentered)
  stuck s {u} v h (misprint n e) c =
      zero-ne-suc u.printing n e (ap (λ (x : Running). x.printing) h ∙ v.printed)
  stuck s {u} v h (print q n b e current) c =
      zero-ne-suc u.printing n e (ap (λ (x : Running). x.printing) h ∙ v.printed)
  stuck s {u} v h (answer q x before after older younger e e' first) c =
      no_middle q older younger u.live e (ap (λ (x : Running). x.live) h)
  stuck s {u} v h (scan q x before after e first room) c =
      no_middle (q, x) before after u.stdout e (ap (λ (x : Running). x.stdout) h ∙ v.unsent)
  stuck s {u} v h (exit q older younger e) c =
      no_middle q older younger u.live e (ap (λ (x : Running). x.live) h)
  stuck s {u} v h (exit_failing q older younger e) c =
      no_middle q older younger u.live e (ap (λ (x : Running). x.live) h)
  stuck s {u} v h (report q before after e room) c =
      no_middle q before after u.failed e (ap (λ (x : Running). x.failed) h ∙ v.unfailed)
  stuck s {u} v h (respond q b x rest before after e e') c =
      no_middle (q, x) [] rest u.outputs e' (ap (λ (x : Running). x.outputs) h ∙ v.unheard)
  stuck s v h (cancel q b before after e e') c = c
  stuck s {u} v h (fail q b rest before after e e') c =
      no_middle q [] rest u.errors e' (ap (λ (x : Running). x.errors) h ∙ v.errorless)

  -- If the one process of a service ends with status 0 while one invocation waits for its answer, no
  -- other one runs, and nothing is on its way back, then nothing happens until this invocation is
  -- cancelled or another one comes: it is not told that its process has ended, and waits.
  pub abandoned_waits :
      {s t : Running}
      → IsLone p input s
      → ReachBy g IsUndisturbed (after_exit s) t
      → Step g s (after_exit s) × (t ≡ after_exit s) × (t.waiting ≡ input ∷ [])
  abandoned_waits {s} v r =
      (exit p [] [] v.alone, stays r, ap (λ (x : Running). x.waiting) (stays r) ∙ v.waits)
    where
      stays : {t : Running} → ReachBy g IsUndisturbed (after_exit s) t → t ≡ after_exit s
      stays still = refl
      stays (more r step c) = absurd (stuck s v (stays r) step c)
