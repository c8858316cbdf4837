-- ===== src/Fns/Cli/Configuring.antt =====
-- What a cli fn is configured to.
use fnrun.Prelude.{
  ◌++◌, ◌≡◌, refl, ap, sym, subst, ◌∙◌, ◌↔◌, Bool, true, false, none, String, List, ap₂,
}
use fnrun.Value.{Fields}
use fnrun.Exec.{
  Result, ok, >>=-eq-ok, ok->>=, pure-eq-ok, then_assign_iff, then_method-eq-ok, ok-then_method,
}
use fnrun.Fns.Cli.Os.{Process, create_base_cmd}
use fnrun.Fns.Cli.Service.{Service, new_service}
use fnrun.Fns.Cli.{Inner, service, script, CliFn, CliConfig, new_inner, configure_map}

-- A service that has started no process yet.
abbrev pub unstarted : {Cmd Run Stdin : Type 0} → Cmd → Service Cmd Run Stdin
unstarted base_cmd = record { alive = false; base_cmd = base_cmd; process = none; stdin = none }

module _ {Cmd Run Stdin W : Type 0} (os : Process Cmd Run Stdin W) where
  -- The inner fn for the flag `script`: the command for each invocation, or a service on its own clone
  -- of the command.
  abbrev pub Becomes : Bool → Cmd → W → Inner Cmd Run Stdin → W → Type 0
  Becomes true cmd u f w' = (f ≡ script cmd) × (u ≡ w')
  Becomes false cmd u f w' =
      (own : Cmd) × (os.clone_cmd cmd u ≡ (ok own, w')) × (f ≡ service (unstarted own))

  pub new_inner-Becomes :
      (b : Bool) (cmd : Cmd) (u w' : W) (f : Inner Cmd Run Stdin)
      → new_inner os b cmd u ≡ (ok f, w')
      → Becomes b cmd u f w'
  unfolding new_inner new_service
  new_inner-Becomes true cmd u w' f h = let (e, e') = pure-eq-ok _ u h in (sym e, e')
  new_inner-Becomes false cmd u w' f h =
      let (s, v, made, e) = >>=-eq-ok (new_service os cmd) _ u h in
      let (own, v', cloned, e') = >>=-eq-ok (os.clone_cmd cmd) _ u made in
      let (same, at_v) = pure-eq-ok _ v' e' in
      let (same', at_w') = pure-eq-ok _ v e in
      (own, cloned ∙ ap (λ x. (ok own, x)) (at_v ∙ at_w'), sym same' ∙ ap service (sym same))

  Becomes-new_inner :
      (b : Bool) (cmd : Cmd) (u w' : W) (f : Inner Cmd Run Stdin)
      → Becomes b cmd u f w'
      → new_inner os b cmd u ≡ (ok f, w')
  unfolding new_inner new_service
  Becomes-new_inner true cmd u w' f (e, e') = rw (e, e')
  Becomes-new_inner false cmd u w' f (own, cloned, e) = rw (cloned, e)

  create_base_cmd-eq-ok :
      (command_str : String) (env : List String) (made : Cmd) (w u : W)
      → create_base_cmd os command_str env w ≡ (ok made, u)
      → (cmd : Cmd) × (os.parse_cmd command_str w ≡ (ok cmd, u))
        × (made ≡ os.with_env cmd (os.environ ++ env))
  unfolding create_base_cmd
  create_base_cmd-eq-ok command_str env made w u h =
      let (cmd, v, parsed, e) = >>=-eq-ok (os.parse_cmd command_str) _ w h in
      let (same, at) = pure-eq-ok _ v e in (cmd, parsed ∙ ap (λ x. (ok cmd, x)) at, sym same)

  -- Configuring a cli fn with a map succeeds exactly when the map decodes and its command parses;
  -- its fn is then the script of that command, in the environment of the program with the given
  -- additions, or, unless `script` is set, a service on a clone of it that has started no process.
  pub configure_cli_iff :
      (decode : Fields → Result CliConfig) (fs : Fields) (c c' : CliFn Cmd Run Stdin) (w w' : W)
      → (configure_map os decode fs c w ≡ (ok tt, c', w')) ↔ (
          (cfg : CliConfig) × (cmd : Cmd) × (u : W) × (decode fs ≡ ok cfg)
          × (os.parse_cmd cfg.command w ≡ (ok cmd, u))
          × Becomes cfg.script (os.with_env cmd (os.environ ++ cfg.env)) u c'.f w')
  unfolding configure_map create_base_cmd
  configure_cli_iff decode fs c c' w w' = (
    λ h.
        let (cfg, v, decoded, h₁) = then_method-eq-ok (λ u. (decode fs, u)) _ c w h in
        let (made_cmd, u, created, h₂) =
          then_method-eq-ok (create_base_cmd os cfg.command cfg.env) _ c v h₁ in
        let (cmd, parsed, same) = create_base_cmd-eq-ok cfg.command cfg.env made_cmd v u created in
        let (f, made, e) =
          (then_assign_iff (λ f. record { f = f }) c (new_inner os cfg.script made_cmd) u c' w').0
            h₂ in
        (
          cfg,
          cmd,
          u,
          ap (λ (x : Result CliConfig × W). x.0) decoded,
          ap (os.parse_cmd cfg.command) (ap (λ (x : Result CliConfig × W). x.1) decoded) ∙ parsed,
          subst (λ (x : Cmd × Inner Cmd Run Stdin). Becomes cfg.script x.0 u x.1 w')
              (ap₂ (λ x y. (x, y)) same (ap (λ (x : CliFn Cmd Run Stdin). x.f) (sym e)))
              (new_inner-Becomes cfg.script made_cmd u w' f made),
        ),
    λ (cfg, cmd, u, decoded, created, becomes).
        ok-then_method (λ v. (decode fs, v)) _ c w (ap (λ r. (r, w)) decoded)
        ∙ ok-then_method (create_base_cmd os cfg.command cfg.env) _ c w
            (ok->>= (os.parse_cmd cfg.command) _ w created)
        ∙ (then_assign_iff (λ f. record { f = f }) c
              (new_inner os cfg.script (os.with_env cmd (os.environ ++ cfg.env))) u c' w').1
            (c'.f, Becomes-new_inner cfg.script _ u w' c'.f becomes, refl),
  )
