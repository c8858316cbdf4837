-- ===== src/Registry.antt =====
-- run/run.go: the registry of factories.
pub mod Laws
use fnrun.Prelude.{String, Option, List, [], lookup, insert}
use fnrun.Exec.{Exec, Fn, Middleware, Source}
use fnrun.Config.{Configurable}

-- What the finders hand out: a call of a factory makes a new object, and may change the world.
abbrev pub Factory : Type 0 → Type 0 → Type 0
Factory W I = Exec W (Configurable W I)

-- run.Registry, as its clients use it: the finders.
pub record Finders (W : Type 0) : Type 0 where
  pub find_source : String → Option (Factory W (Source W))
  pub find_middleware : String → Option (Factory W (Middleware W))
  pub find_fn : String → Option (Factory W (Fn W))

-- The struct `registry`, over the types of its three kinds of factories. `self` is the pointer that
-- the closures of Register...WithRegistry capture.
pub record Registry {ℓ} (Ref S M F : Type ℓ) : Type ℓ where
  pub self : Ref
  pub source : List (String × S)
  pub middleware : List (String × M)
  pub fn : List (String × F)

module _ {ℓ} {Ref S M F : Type ℓ} where
  -- NewRegistry, at the address that it allocates
  unfoldable pub new_registry : Ref → Registry Ref S M F
  new_registry self = record { self = self; source = []; middleware = []; fn = [] }

  unfoldable pub register_source : String → S → Registry Ref S M F → Registry Ref S M F
  register_source key f r = record r { source = insert key f r.source }

  unfoldable pub register_middleware : String → M → Registry Ref S M F → Registry Ref S M F
  register_middleware key f r = record r { middleware = insert key f r.middleware }

  unfoldable pub register_fn : String → F → Registry Ref S M F → Registry Ref S M F
  register_fn key f r = record r { fn = insert key f r.fn }

  unfoldable pub register_source_with_registry :
      String → (Ref → S) → Registry Ref S M F → Registry Ref S M F
  register_source_with_registry key f r = register_source key (f r.self) r

  unfoldable pub register_middleware_with_registry :
      String → (Ref → M) → Registry Ref S M F → Registry Ref S M F
  register_middleware_with_registry key f r = register_middleware key (f r.self) r

  unfoldable pub register_fn_with_registry :
      String → (Ref → F) → Registry Ref S M F → Registry Ref S M F
  register_fn_with_registry key f r = register_fn key (f r.self) r

  unfoldable pub find_source : Registry Ref S M F → String → Option S
  find_source r key = lookup key r.source

  unfoldable pub find_middleware : Registry Ref S M F → String → Option M
  find_middleware r key = lookup key r.middleware

  unfoldable pub find_fn : Registry Ref S M F → String → Option F
  find_fn r key = lookup key r.fn
