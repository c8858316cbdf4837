-- ===== src/Registry/Laws.antt =====
-- Registering and finding: the three tables are maps, and do not disturb one another.
use fnrun.Prelude.{
  String, ◌≡◌, refl, Option, none, some, List, [], ◌∷◌, ◌∙◌, lookup, lookup-insert, str_eq,
  if◌then◌else◌, arith,
}
use fnrun.Registry.{
  Registry, new_registry, register_source, register_middleware, register_fn,
  register_source_with_registry, register_middleware_with_registry, register_fn_with_registry,
  find_source, find_middleware, find_fn,
}

-- A call of a Register method, as data.
pub data Registration {ℓ} (Ref S M F : Type ℓ) : Type ℓ where
  source : String → S → Registration Ref S M F
  middleware : String → M → Registration Ref S M F
  fn : String → F → Registration Ref S M F
  source_with_registry : String → (Ref → S) → Registration Ref S M F
  middleware_with_registry : String → (Ref → M) → Registration Ref S M F
  fn_with_registry : String → (Ref → F) → Registration Ref S M F

module _ {ℓ} {Ref S M F : Type ℓ} where
  unfoldable pub register : Registration Ref S M F → Registry Ref S M F → Registry Ref S M F
  register (Registration.source k f) r = register_source k f r
  register (Registration.middleware k f) r = register_middleware k f r
  register (Registration.fn k f) r = register_fn k f r
  register (source_with_registry k f) r = register_source_with_registry k f r
  register (middleware_with_registry k f) r = register_middleware_with_registry k f r
  register (fn_with_registry k f) r = register_fn_with_registry k f r

  -- The calls of a program, in order.
  unfoldable pub register_all :
      List (Registration Ref S M F) → Registry Ref S M F → Registry Ref S M F
  register_all [] r = r
  register_all (x ∷ xs) r = register_all xs (register x r)

  -- What one call says of a fn, a middleware or a source under a key.
  abbrev pub fn_of : Ref → String → Registration Ref S M F → Option F
  fn_of self key (Registration.fn k f) = if str_eq k key then some f else none
  fn_of self key (fn_with_registry k f) = if str_eq k key then some (f self) else none
  fn_of self key _ = none

  abbrev pub middleware_of : Ref → String → Registration Ref S M F → Option M
  middleware_of self key (Registration.middleware k f) = if str_eq k key then some f else none
  middleware_of self key (middleware_with_registry k f) =
      if str_eq k key then some (f self) else none
  middleware_of self key _ = none

  abbrev pub source_of : Ref → String → Registration Ref S M F → Option S
  source_of self key (Registration.source k f) = if str_eq k key then some f else none
  source_of self key (source_with_registry k f) = if str_eq k key then some (f self) else none
  source_of self key _ = none

-- The last answer of a history, or the one from before it.
abbrev pub or_before {ℓ} : {B : Type ℓ} → Option B → Option B → Option B
or_before (some b) before = some b
or_before none before = before

abbrev pub last_of {ℓ κ} : {A : Type ℓ} {B : Type κ} → (A → Option B) → List A → Option B → Option B
last_of f [] before = before
last_of f (x ∷ xs) before = last_of f xs (or_before (f x) before)

-- A name for the line `unfolding` of the proofs about one call.
open_register : Unit {0}
unfolding register register_source register_middleware register_fn register_source_with_registry
    register_middleware_with_registry register_fn_with_registry find_source find_middleware find_fn
open_register = tt

module _ {ℓ} {Ref S M F : Type ℓ} where
  register-self :
      (x : Registration Ref S M F) (r : Registry Ref S M F) → (register x r).self ≡ r.self
  unfolding open_register
  register-self (Registration.source k f) r = refl
  register-self _ r = refl

  find_fn-register :
      (x : Registration Ref S M F) (r : Registry Ref S M F) (key : String)
      → find_fn (register x r) key ≡ or_before (fn_of r.self key x) (find_fn r key)
  unfolding open_register
  find_fn-register (Registration.fn k f) r key = ground (arith, lookup-insert k key f r.fn)
  find_fn-register (fn_with_registry k f) r key =
      ground (arith, lookup-insert k key (f r.self) r.fn)
  find_fn-register _ r key = refl

  find_fn-register_all :
      (xs : List (Registration Ref S M F)) (r : Registry Ref S M F) (key : String)
      → find_fn (register_all xs r) key ≡ last_of (fn_of r.self key) xs (find_fn r key)
  unfolding register_all
  find_fn-register_all [] r key = refl
  find_fn-register_all (x ∷ xs) r key = find_fn-register_all xs (register x r) key ∙ λ i.
      last_of (fn_of (register-self x r i) key) xs (find_fn-register x r key i)

  find_middleware-register :
      (x : Registration Ref S M F) (r : Registry Ref S M F) (key : String)
      → find_middleware (register x r) key
        ≡ or_before (middleware_of r.self key x) (find_middleware r key)
  unfolding open_register
  find_middleware-register (Registration.middleware k f) r key =
      ground (arith, lookup-insert k key f r.middleware)
  find_middleware-register (middleware_with_registry k f) r key =
      ground (arith, lookup-insert k key (f r.self) r.middleware)
  find_middleware-register _ r key = refl

  find_middleware-register_all :
      (xs : List (Registration Ref S M F)) (r : Registry Ref S M F) (key : String)
      → find_middleware (register_all xs r) key
        ≡ last_of (middleware_of r.self key) xs (find_middleware r key)
  unfolding register_all
  find_middleware-register_all [] r key = refl
  find_middleware-register_all (x ∷ xs) r key =
      find_middleware-register_all xs (register x r) key ∙ λ i.
      last_of (middleware_of (register-self x r i) key) xs (find_middleware-register x r key i)

  find_source-register :
      (x : Registration Ref S M F) (r : Registry Ref S M F) (key : String)
      → find_source (register x r) key ≡ or_before (source_of r.self key x) (find_source r key)
  unfolding open_register
  find_source-register (Registration.source k f) r key =
      ground (arith, lookup-insert k key f r.source)
  find_source-register (source_with_registry k f) r key =
      ground (arith, lookup-insert k key (f r.self) r.source)
  find_source-register _ r key = refl

  find_source-register_all :
      (xs : List (Registration Ref S M F)) (r : Registry Ref S M F) (key : String)
      → find_source (register_all xs r) key ≡ last_of (source_of r.self key) xs (find_source r key)
  unfolding register_all
  find_source-register_all [] r key = refl
  find_source-register_all (x ∷ xs) r key = find_source-register_all xs (register x r) key ∙ λ i.
      last_of (source_of (register-self x r i) key) xs (find_source-register x r key i)

  -- After any sequence of Register calls on a new registry, each finder gives what the last call of
  -- its own kind under the key has registered, and reports absence if there was none; the factories
  -- of the ...WithRegistry calls are made with the registry itself.
  pub find-register_all :
      (self : Ref) (xs : List (Registration Ref S M F)) (key : String)
      → (find_fn (register_all xs (new_registry self)) key ≡ last_of (fn_of self key) xs none)
        × (find_middleware (register_all xs (new_registry self)) key
            ≡ last_of (middleware_of self key) xs none)
        × (find_source (register_all xs (new_registry self)) key
            ≡ last_of (source_of self key) xs none)
  unfolding new_registry find_fn find_middleware find_source lookup
  find-register_all self xs key = (
    find_fn-register_all xs (new_registry self) key,
    find_middleware-register_all xs (new_registry self) key,
    find_source-register_all xs (new_registry self) key,
  )
