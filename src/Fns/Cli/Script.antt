-- ===== src/Fns/Cli/Script.antt =====
-- run/fn/cli/script.go: a process for each invocation.
use fnrun.Prelude.{String, ◌≡◌, refl, ap, sym, ◌∙◌, ◌≢◌, ◌↔◌, Option, none, some}
use fnrun.Value.{Value, null, str}
use fnrun.Exec.{
  Error, Context, Result, ok, err, panic, hang, Reply, returns, panics, hangs, Fn, Exec, ◌>>=◌,
  pure, pure-eq-ok, >>=-eq-ok, ok->>=,
}
use fnrun.Fns.Cli.Os.{Process, kill_process}

-- The case that the select takes.
pub data Selected : Type 0 where
  done : Selected
  failed : Error → Selected
  result : String → Selected

-- cmd.Output of os/exec, cmd.Process, which is nil while the command is not started, and the race of
-- the goroutine with the context: the world in which the context is found done, if it is done
-- before the goroutine has sent.
pub record Outputs (Cmd Run W : Type 0) : Type 0 where
  pub output : Cmd → Exec W String
  pub process : Cmd → W → Option Run
  pub interrupted : Cmd → Context → W → Option W

module _ {Cmd Run W : Type 0} (outputs : Outputs Cmd Run W) where
  -- The goroutine: what it sends on errorChan or outputChan, and the process as it is then.
  unfoldable pub sent : Cmd → Result String × W → Result (Selected × Option Run) × W
  sent cmd (ok output_bytes, w) = (ok (result output_bytes, outputs.process cmd w), w)
  sent cmd (err e, w) = (ok (failed e, outputs.process cmd w), w)
  sent cmd (panic, w) = (panic, w)
  sent cmd (hang, w) = (hang, w)

  -- The case of the select that is taken; the wait may be endless.
  unfoldable pub selected_of : Cmd → Option W → W → Result (Selected × Option Run) × W
  unfolding sent
  selected_of cmd (some w') w = (ok (done, outputs.process cmd w'), w')
  selected_of cmd none w = sent cmd (outputs.output cmd w)

  unfoldable pub select : Cmd → Context → Exec W (Selected × Option Run)
  unfolding selected_of
  select cmd ctx w = selected_of cmd (outputs.interrupted cmd ctx w) w

-- A result of `(T, error)`, or of no result, that the code does not read; it goes on with a reply.
abbrev pub and_reply : {A W : Type 0} → Result A × W → (W → Reply) → Reply × W
and_reply (ok _, w) r = (r w, w)
and_reply (err e, w) r = (r w, w)
and_reply (panic, w) r = (panics, w)
and_reply (hang, w) r = (hangs, w)

module _ {Cmd Run Stdin W : Type 0} (os : Process Cmd Run Stdin W) where
  -- Up to the select: the pipes, and the input.
  unfoldable pub prepare : Cmd → Value → Exec W Cmd
  prepare base_cmd input = do
    cmd ← os.clone_cmd base_cmd
    _ ← os.stderr_pipe cmd
    stdin ← os.stdin_pipe cmd
    _ ← os.print_line stdin input
    pure cmd

  -- The cases of the select.
  unfoldable pub conclude : Context → Result (Selected × Option Run) × W → Reply × W
  conclude ctx (ok (done, process), w) =
      and_reply (kill_process os process w) (λ u. returns null (some (os.ctx_err ctx u)))
  conclude ctx (ok (failed e, process), w) =
      and_reply (kill_process os process w) (λ u. returns null (some e))
  conclude ctx (ok (result output, process), w) = (returns (str output) none, w)
  conclude ctx (err e, w) = (returns null (some e), w)
  conclude ctx (panic, w) = (panics, w)
  conclude ctx (hang, w) = (hangs, w)

  -- Invoke
  unfoldable pub invoke : Outputs Cmd Run W → Cmd → Fn W
  unfolding prepare conclude select
  invoke outputs base_cmd ctx input w =
      conclude ctx ((prepare base_cmd input >>= λ cmd. select outputs cmd ctx) w)

-- The cases of the select that kill the process.
abbrev pub IsCutShort : Selected → Type 0
IsCutShort done = Unit
IsCutShort (failed e) = Unit
IsCutShort (result output) = ⊥

and_reply-ne-fine :
    {A W : Type 0} (r : Result A × W) (e : W → Error) (v : Value) (w' : W)
    → and_reply r (λ w. returns null (some (e w))) ≢ (returns v none, w')
and_reply-ne-fine (ok a, w) e v w' h = cc
and_reply-ne-fine (err x, w) e v w' h = cc
and_reply-ne-fine (panic, w) e v w' h = cc
and_reply-ne-fine (hang, w) e v w' h = cc

module _ {Cmd Run Stdin W : Type 0} (os : Process Cmd Run Stdin W)
    (outputs : Outputs Cmd Run W) where
  conclude-fine :
      (ctx : Context) (r : Result (Selected × Option Run)) (w w' : W) (v : Value)
      → conclude os ctx (r, w) ≡ (returns v none, w')
      → (output : String) × (process : Option Run) × (◌≡◌ {A = Result (Selected × Option Run) × W}
          (r, w)
          (ok (result output, process), w'))
        × (v ≡ str output)
  unfolding conclude
  conclude-fine ctx (ok (done, process)) w w' v h =
      absurd (and_reply-ne-fine (kill_process os process w) (os.ctx_err ctx) v w' h)
  conclude-fine ctx (ok (failed e, process)) w w' v h =
      absurd (and_reply-ne-fine (kill_process os process w) (λ u. e) v w' h)
  conclude-fine ctx (ok (result output, process)) w w' v h = (output, process, cc, cc)
  conclude-fine ctx (err e) w w' v h = cc
  conclude-fine ctx panic w w' v h = cc
  conclude-fine ctx hang w w' v h = cc

  -- The pipes and the input, one call after the other.
  abbrev pub Prepares : Cmd → Value → W → Cmd → W → Type 0
  Prepares base_cmd input w cmd u =
      (stdin : Stdin) × (w₁ : W) × (w₂ : W) × (w₃ : W) × (os.clone_cmd base_cmd w ≡ (ok cmd, w₁))
      × (os.stderr_pipe cmd w₁ ≡ (ok tt, w₂))
      × (os.stdin_pipe cmd w₂ ≡ (ok stdin, w₃))
      × (os.print_line stdin input w₃ ≡ (ok tt, u))

  prepare-Prepares :
      (base_cmd cmd : Cmd) (input : Value) (w u : W)
      → prepare os base_cmd input w ≡ (ok cmd, u)
      → Prepares base_cmd input w cmd u
  unfolding prepare
  prepare-Prepares base_cmd cmd input w u h =
      let (own, w₁, cloned, h₁) = >>=-eq-ok (os.clone_cmd base_cmd) _ w h in
      let (_, w₂, piped, h₂) = >>=-eq-ok (os.stderr_pipe own) _ w₁ h₁ in
      let (stdin, w₃, piped', h₃) = >>=-eq-ok (os.stdin_pipe own) _ w₂ h₂ in
      let (_, w₄, printed, h₄) = >>=-eq-ok (os.print_line stdin input) _ w₃ h₃ in
      let (same, at) = pure-eq-ok own w₄ h₄ in
      (
        stdin,
        w₁,
        w₂,
        w₃,
        cloned ∙ ap (λ c. (ok c, w₁)) same,
        ap (λ c. os.stderr_pipe c w₁) (sym same) ∙ piped,
        ap (λ c. os.stdin_pipe c w₂) (sym same) ∙ piped',
        printed ∙ ap (λ v. (ok tt, v)) at,
      )

  Prepares-prepare :
      (base_cmd cmd : Cmd) (input : Value) (w u : W)
      → Prepares base_cmd input w cmd u
      → prepare os base_cmd input w ≡ (ok cmd, u)
  unfolding prepare
  Prepares-prepare base_cmd cmd input w u (stdin, w₁, w₂, w₃, cloned, piped, piped', printed) =
      rw (cloned, piped, piped', printed)

  selected_of-result :
      (cmd : Cmd) (o : Option W) (w w' : W) (x : String) (process : Option Run)
      → selected_of outputs cmd o w ≡ (ok (result x, process), w')
      → (o ≡ none) × (outputs.output cmd w ≡ (ok x, w'))
  unfolding selected_of sent
  selected_of-result cmd (some v) w w' x process h = cc
  selected_of-result cmd none w w' x process h =
      (refl, sent-result (outputs.output cmd w).0 (outputs.output cmd w).1 h)
    where
      sent-result :
          (r : Result String) (v : W)
          → sent outputs cmd (r, v) ≡ (ok (result x, process), w')
          → ◌≡◌ {A = Result String × W} (r, v) (ok x, w')
      sent-result (ok y) v h = cc
      sent-result (err e) v h = cc
      sent-result panic v h = cc
      sent-result hang v h = cc

  -- A script returns a value without an error exactly when a clone of its command gets its pipes, the
  -- input is written to the one for its input, the context is not done before the command has
  -- ended, and cmd.Output gives an output without an error; the value is that output.
  pub invoke-result_iff :
      (base_cmd : Cmd) (ctx : Context) (input v : Value) (w w' : W)
      → (invoke os outputs base_cmd ctx input w ≡ (returns v none, w')) ↔ (
          (cmd : Cmd) × (u : W) × (output : String) × Prepares base_cmd input w cmd u
          × (outputs.interrupted cmd ctx u ≡ none)
          × (outputs.output cmd u ≡ (ok output, w'))
          × (v ≡ str output))
  unfolding invoke conclude select selected_of sent
  invoke-result_iff base_cmd ctx input v w w' = (
    λ h.
        let (output, process, e, ev) = conclude-fine ctx _ _ w' v h in
        let (cmd, u, prepared, selected) = >>=-eq-ok (prepare os base_cmd input) _ w e in
        let (running, given) =
          selected_of-result cmd (outputs.interrupted cmd ctx u) u w' output process selected in
        (cmd, u, output, prepare-Prepares base_cmd cmd input w u prepared, running, given, ev),
    λ (cmd, u, output, prepared, running, given, ev).
        ap (conclude os ctx) (
          ok->>= (prepare os base_cmd input) _ w (Prepares-prepare base_cmd cmd input w u prepared)
          ∙ ap (λ o. selected_of outputs cmd o u) running
          ∙ ap (sent outputs cmd) given)
        ∙ ap (λ x. (returns x none, w')) (sym ev),
  )

  -- A select that ends by an error or by the context before there is a process, as it is when the
  -- command cannot be started, makes the invocation panic instead of returning the error.
  invoke_unstarted :
      (base_cmd cmd : Cmd) (ctx : Context) (input : Value) (s : Selected) (w u w' : W)
      → prepare os base_cmd input w ≡ (ok cmd, u)
      → select outputs cmd ctx u ≡ (ok (s, none), w')
      → IsCutShort s
      → invoke os outputs base_cmd ctx input w ≡ (panics, w')
  unfolding invoke conclude
  invoke_unstarted base_cmd cmd ctx input s w u w' prepared selected cut =
      ap (conclude os ctx) (ok->>= (prepare os base_cmd input) _ w prepared ∙ selected)
      ∙ crashes s cut
    where
      crashes : (s : Selected) → IsCutShort s → conclude os ctx (ok (s, none), w') ≡ (panics, w')
      crashes done cut = refl
      crashes (failed e) cut = refl
      crashes (result output) cut = absurd cut
