-- ===== src/Fns/Cli/Running/Answers.antt =====
-- Which answers the invocations get.
use fnrun.Prelude.{
  subst, sym, ℕ, ◌≡◌, refl, ap, ◌∙◌, ◌⊎◌, inl, inr, String, List, [], ◌∷◌, ◌++◌, All, no_middle,
}
use fnrun.Fns.Cli.Running.{
  Running, start, Step, find_dead, find_alive, give_up, launch, misprint, print, answer, scan, exit,
  exit_failing, report, respond, cancel, fail, ReachBy, still, more,
}

-- The steps of an execution in which no process ends, no invocation is cancelled, and no input is
-- printed while another invocation is in its select.
abbrev pub IsCalm : {g : String → String} (s t : Running) → Step g s t → Type 0
IsCalm s t (exit p older younger e) = ⊥
IsCalm s t (exit_failing p older younger e) = ⊥
IsCalm s t (cancel p input before after e e') = ⊥
IsCalm s t (print p n input e e') = s.waiting ≡ []
IsCalm s t step = Unit

abbrev Lines : Type 0
Lines = List (ℕ × String)

-- What is on its way while at most one invocation waits: its input, or the answer to it, and nothing
-- else.
abbrev Flight : (String → String) → List String → Lines → Lines → Lines → Type 0
Flight g [] stdin stdout outputs = (stdin ≡ []) × (stdout ≡ []) × (outputs ≡ [])
Flight g (input ∷ []) stdin stdout outputs =
    (p : ℕ) × (((stdin ≡ (p, input) ∷ []) × (stdout ≡ []) × (outputs ≡ []))
      ⊎ (((stdin ≡ []) × (stdout ≡ (p, g input) ∷ []) × (outputs ≡ []))
          ⊎ ((stdin ≡ []) × (stdout ≡ []) × (outputs ≡ (p, g input) ∷ []))))
Flight g (input ∷ other ∷ rest) stdin stdout outputs = ⊥

record IsPaired (g : String → String) (s : Running) : Type 0 where
  flight : Flight g s.waiting s.stdin s.stdout s.outputs
  unfailed : s.failed ≡ []
  errorless : s.errors ≡ []
  paired : All (λ (answer : String × String). answer.1 ≡ g answer.0) s.answers
  unbroken : s.failures ≡ []
  uncancelled : s.cancelled ≡ []

pub split_one :
    {A : Type 0} (x y : A) (before after xs : List A)
    → xs ≡ before ++ x ∷ after
    → xs ≡ y ∷ []
    → (before ++ after ≡ []) × (x ≡ y)
split_one x y [] after xs e e' = (cc, cc)
split_one x y (z ∷ []) after xs e e' = cc
split_one x y (z ∷ z' ∷ before) after xs e e' = cc

module _ (g : String → String) where
  Flight-print :
      (p : ℕ) (input : String) (w : List String) (a b c : Lines)
      → Flight g w a b c
      → w ≡ []
      → Flight g (input ∷ w) (a ++ (p, input) ∷ []) b c
  Flight-print p input [] a b c (ea, eb, ec) e =
      (p, inl (ap (λ l. l ++ (p, input) ∷ []) ea, eb, ec))
  Flight-print p input (i ∷ w) a b c f e = cc

  Flight-answer :
      (p : ℕ) (x : String) (before after : Lines) (w : List String) (a b c : Lines)
      → Flight g w a b c
      → a ≡ before ++ (p, x) ∷ after
      → Flight g w (before ++ after) (b ++ (p, g x) ∷ []) c
  Flight-answer p x before after [] a b c f e = no_middle (p, x) before after a e f.0
  Flight-answer p x before after (i ∷ []) a b c (q, inl (ea, eb, ec)) e =
      let (none_left, same) = split_one (p, x) (q, i) before after a e ea in
      (
        q,
        inr (
            inl (
              none_left,
              ap (λ l. l ++ (p, g x) ∷ []) eb ∙ ap (λ (y : ℕ × String). (y.0, g y.1) ∷ []) same,
              ec,
            )),
      )
  Flight-answer p x before after (i ∷ []) a b c (q, inr (inl f)) e =
      no_middle (p, x) before after a e f.0
  Flight-answer p x before after (i ∷ []) a b c (q, inr (inr f)) e =
      no_middle (p, x) before after a e f.0
  Flight-answer p x before after (i ∷ j ∷ w) a b c f e = absurd f

  Flight-scan :
      (p : ℕ) (x : String) (before after : Lines) (w : List String) (a b c : Lines)
      → Flight g w a b c
      → b ≡ before ++ (p, x) ∷ after
      → Flight g w a (before ++ after) ((p, x) ∷ [])
  Flight-scan p x before after [] a b c f e = no_middle (p, x) before after b e f.1
  Flight-scan p x before after (i ∷ []) a b c (q, inl f) e = no_middle (p, x) before after b e f.1
  Flight-scan p x before after (i ∷ []) a b c (q, inr (inl (ea, eb, ec))) e =
      let (none_left, same) = split_one (p, x) (q, g i) before after b e eb in
      (q, inr (inr (ea, none_left, ap (λ (y : ℕ × String). y ∷ []) same)))
  Flight-scan p x before after (i ∷ []) a b c (q, inr (inr f)) e =
      no_middle (p, x) before after b e f.1
  Flight-scan p x before after (i ∷ j ∷ w) a b c f e = absurd f

  -- The answer that is received is the one to the input that waits, and nothing is left.
  Flight-respond :
      (p : ℕ) (input x : String) (rest : Lines) (before after w : List String) (a b c : Lines)
      → Flight g w a b c
      → w ≡ before ++ input ∷ after
      → c ≡ (p, x) ∷ rest
      → (x ≡ g input) × Flight g (before ++ after) a b rest
  Flight-respond p input x rest before after [] a b c f e e' =
      no_middle input before after [] e refl
  Flight-respond p input x rest before after (i ∷ []) a b c (q, inl (ea, eb, ec)) e e' = cc
  Flight-respond p input x rest before after (i ∷ []) a b c (q, inr (inl (ea, eb, ec))) e e' = cc
  Flight-respond p input x rest before after (i ∷ []) a b c (q, inr (inr (ea, eb, ec))) e e' =
      let (none_left, same) = split_one input i before after (i ∷ []) e refl in
      (cc, subst (λ l. Flight g l a b rest) (sym none_left) (ea, eb, cc))
  Flight-respond p input x rest before after (i ∷ j ∷ w) a b c f e e' = absurd f

  -- The invariant, where only the flight and the answers have changed.
  goes_on :
      (s t : Running)
      → IsPaired g s
      → Flight g t.waiting t.stdin t.stdout t.outputs
      → t.failed ≡ s.failed
      → t.errors ≡ s.errors
      → All (λ (answer : String × String). answer.1 ≡ g answer.0) t.answers
      → t.failures ≡ s.failures
      → t.cancelled ≡ s.cancelled
      → IsPaired g t
  goes_on s t v flight failed errors answers failures cancelled = record {
    flight = flight;
    unfailed = failed ∙ v.unfailed;
    errorless = errors ∙ v.errorless;
    paired = answers;
    unbroken = failures ∙ v.unbroken;
    uncancelled = cancelled ∙ v.uncancelled;
  }

  Step-IsPaired :
      {s t : Running} (step : Step g s t) → IsCalm s t step → IsPaired g s → IsPaired g t
  Step-IsPaired {s} {t} (find_dead e) calm v = goes_on s t v v.flight refl refl v.paired refl refl
  Step-IsPaired {s} {t} (find_alive e) calm v = goes_on s t v v.flight refl refl v.paired refl refl
  Step-IsPaired {s} {t} (give_up n e) calm v = goes_on s t v v.flight refl refl v.paired refl refl
  Step-IsPaired {s} {t} (launch n e) calm v = goes_on s t v v.flight refl refl v.paired refl refl
  Step-IsPaired {s} {t} (misprint n e) calm v = goes_on s t v v.flight refl refl v.paired refl refl
  Step-IsPaired {s} {t} (print p n input e current) calm v =
      goes_on s t v (Flight-print p input s.waiting s.stdin s.stdout s.outputs v.flight calm) refl
        refl v.paired refl refl
  Step-IsPaired {s} {t} (answer p x before after older younger live e first) calm v =
      goes_on s t v (Flight-answer p x before after s.waiting s.stdin s.stdout s.outputs v.flight e)
        refl refl v.paired refl refl
  Step-IsPaired {s} {t} (scan p x before after e first room) calm v =
      goes_on s t v (Flight-scan p x before after s.waiting s.stdin s.stdout s.outputs v.flight e)
        refl refl v.paired refl refl
  Step-IsPaired (exit p older younger e) calm v = absurd calm
  Step-IsPaired (exit_failing p older younger e) calm v = absurd calm
  Step-IsPaired {s} (report p before after e room) calm v =
      no_middle p before after s.failed e v.unfailed
  Step-IsPaired {s} {t} (respond p input x rest before after e e') calm v =
      let (same, flight) =
        Flight-respond p input x rest before after s.waiting s.stdin s.stdout s.outputs v.flight e
          e' in
      goes_on s t v flight refl refl (same, v.paired) refl refl
  Step-IsPaired (cancel p input before after e e') calm v = absurd calm
  Step-IsPaired {s} (fail p input rest before after e e') calm v =
      no_middle p [] rest s.errors e' v.errorless

  ReachBy-IsPaired : {t : Running} → ReachBy g IsCalm start t → IsPaired g t
  ReachBy-IsPaired still = record {
    flight = (refl, refl, refl);
    unfailed = refl;
    errorless = refl;
    paired = tt;
    unbroken = refl;
    uncancelled = refl;
  }
  ReachBy-IsPaired (more r step calm) = Step-IsPaired step calm (ReachBy-IsPaired r)

  -- For a new service whose processes answer each line `x` by `g x`, inputs that are printed as one line
  -- each, and invocations that may start and fail to start in any order: while no process ends, no invocation is cancelled, and no invocation
  -- prints its input while another one is in its select, every invocation that has been answered has
  -- the answer to its own input, and none has returned the error of a process.
  pub calm_answers :
      {t : Running}
      → ReachBy g IsCalm start t
      → All (λ (answer : String × String). answer.1 ≡ g answer.0) t.answers
        × (t.failures ≡ [])
        × (t.cancelled ≡ [])
  calm_answers r = let v = ReachBy-IsPaired r in (v.paired, v.unbroken, v.uncancelled)
