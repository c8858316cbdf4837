-- ===== src/Fns.antt =====
-- fn/fn.go, run/fn/identity and run/fn/middleware: the smallest fns.
pub mod Http
pub mod Cli
use fnrun.Prelude.{none}
use fnrun.Value.{Value}
use fnrun.Exec.{Context, Reply, returns, Fn, Middleware}

module _ {W : Type 0} where
  -- NewFnFromInvokeFunc: the adapter's Invoke calls the function that it holds.
  unfoldable pub new_fn_from_invoke_func : (Context → Value → W → Reply × W) → Fn W
  new_fn_from_invoke_func f ctx input w = f ctx input w

  -- identityFn.Invoke
  unfoldable pub identity_fn : Fn W
  identity_fn ctx input w = (returns input none, w)

  -- middlewareFn.Invoke, on the two fields that run/fn/middleware.New stores
  unfoldable pub middleware_fn : Middleware W → Fn W → Fn W
  middleware_fn middleware fn ctx input w = middleware ctx input fn w
