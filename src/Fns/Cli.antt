-- ===== src/Fns/Cli.antt =====
-- run/fn/cli: a fn that is an external command, a long-running one or one for each invocation.
pub mod Os
pub mod Script
pub mod Service
pub mod Running
pub mod Configuring
use fnrun.Prelude.{String, Bool, true, false, Option, none, some, List, []}
use fnrun.Value.{Value, null, Fields}
use fnrun.Exec.{
  Error, errorf, Context, Result, ok, err, Reply, returns, Exec, Method, then_method, then_assign,
  pure, ◌>>=◌,
}
use fnrun.Fns.Cli.Os.{Process, create_base_cmd}
use fnrun.Fns.Cli.Script
use fnrun.Fns.Cli.Service
use fnrun.Fns.Cli.Service.{new_service}

abbrev pub unconfigured_cmd : Error
unconfigured_cmd = errorf "cli: unconfigured command" []

-- The field `f` of a cliFn: nil, a *service or a *script.
pub data Inner (Cmd Run Stdin : Type 0) : Type 0 where
  unset : Inner Cmd Run Stdin
  service : Service.Service Cmd Run Stdin → Inner Cmd Run Stdin
  script : Cmd → Inner Cmd Run Stdin

pub record CliFn (Cmd Run Stdin : Type 0) : Type 0 where
  pub f : Inner Cmd Run Stdin

-- The struct that ConfigureMap decodes into.
pub record CliConfig : Type 0 where
  pub command : String
  pub env : List String
  pub script : Bool

-- New
unfoldable pub new : {Cmd Run Stdin : Type 0} → CliFn Cmd Run Stdin
new = record { f = unset }

module _ {Cmd Run Stdin W : Type 0} (os : Process Cmd Run Stdin W) where
  -- `newScript(baseCmd)` or `newService(baseCmd)`
  unfoldable pub new_inner : Bool → Cmd → Exec W (Inner Cmd Run Stdin)
  unfolding new_service
  new_inner true base_cmd = pure (script base_cmd)
  new_inner false base_cmd = do s ← new_service os base_cmd; pure (service s)

  -- ConfigureString
  unfoldable pub configure_string : String → CliFn Cmd Run Stdin → Method (CliFn Cmd Run Stdin) W
  unfolding create_base_cmd new_inner
  configure_string command_str c =
      then_method (create_base_cmd os command_str [])
        (λ cmd. then_assign (new_inner false cmd) (λ f. record { f = f }) c) c

  -- ConfigureMap; the parameter is mapstructure.Decode from the zero struct
  unfoldable pub configure_map :
      (Fields → Result CliConfig) → Fields → CliFn Cmd Run Stdin → Method (CliFn Cmd Run Stdin) W
  unfolding create_base_cmd new_inner
  configure_map decode fs c =
      then_method (λ w. (decode fs, w))
        (λ cfg.
          then_method (create_base_cmd os cfg.command cfg.env)
            (λ base_cmd. then_assign (new_inner cfg.script base_cmd) (λ f. record { f = f }) c) c)
        c

  -- Invoke, by the inner fn.
  unfoldable pub invoke_inner :
      Service.Select W
      → Script.Outputs Cmd Run W
      → Inner Cmd Run Stdin
      → Context
      → Value
      → W
      → Reply × CliFn Cmd Run Stdin × W
  invoke_inner of_service of_script unset ctx input w =
      (returns null (some unconfigured_cmd), record { f = unset }, w)
  invoke_inner of_service of_script (service s) ctx input w =
      let (r, s', w') = Service.invoke os of_service s ctx input w in
      (r, record { f = service s' }, w')
  invoke_inner of_service of_script (script cmd) ctx input w =
      let (r, w') = Script.invoke os of_script cmd ctx input w in (r, record { f = script cmd }, w')

  -- Invoke
  unfoldable pub invoke :
      Service.Select W
      → Script.Outputs Cmd Run W
      → CliFn Cmd Run Stdin
      → Context
      → Value
      → W
      → Reply × CliFn Cmd Run Stdin × W
  unfolding invoke_inner
  invoke of_service of_script c ctx input w = invoke_inner of_service of_script c.f ctx input w
