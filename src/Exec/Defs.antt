-- ===== src/Exec/Defs.antt =====
-- Go's calling convention. `W` is the world outside the modelled objects: the processes, brokers,
-- sockets and clocks that a call may read or change. A function `(T, error)` whose callers read
-- `T` only if the error is nil is `Exec W T`; an `Fn.Invoke`, whose callers may read both results,
-- returns a `Reply`. A panic (nil dereference, bad make) and a wait that never ends are
-- results of their own.
use fnrun.Prelude.{String, Option, List, some}
use fnrun.Value.{Value, null}
use fnrun.Value.Int.{ℤ}

pub data Error : Type 0 where
  -- errors.New
  text : String → Error
  -- fmt.Errorf: the format and its arguments
  errorf : String → List String → Error
  -- errors.Wrap of github.com/pkg/errors
  wrap : Error → String → Error
  -- an error that another library made
  foreign : String → Error

pub data Result {ℓ} (A : Type ℓ) : Type ℓ where
  ok : A → Result A
  err : Error → Result A
  panic : Result A
  -- it waits for ever
  hang : Result A

abbrev pub Exec {ℓ} : Type ℓ → Type ℓ → Type ℓ
Exec W A = W → Result A × W

module _ {ℓ} {W A : Type ℓ} where
  abbrev pub pure : A → Exec W A
  pure a w = (ok a, w)

  abbrev pub raise : Error → Exec W A
  raise e w = (err e, w)

  abbrev pub crash : Exec W A
  crash w = (panic, w)

  abbrev pub wait_forever : Exec W A
  wait_forever w = (hang, w)

module _ {ℓ} {W A B : Type ℓ} where
  abbrev pub continue : Result A → (A → Exec W B) → Exec W B
  continue (ok a) f w = f a w
  continue (err e) f w = (err e, w)
  continue panic f w = (panic, w)
  continue hang f w = (hang, w)

  infixl 10 ◌>>=◌
  abbrev pub ◌>>=◌ : Exec W A → (A → Exec W B) → Exec W B
  ◌>>=◌ m f w = continue (m w).0 f (m w).1

-- A context: only its deadline is read (by context.WithTimeout); whether it is done is a question
-- to the world.
pub record Context : Type 0 where
  pub deadline : Option ℤ

-- What an invocation gives: the two results of `Invoke`, or none.
pub data Reply : Type 0 where
  returns : Value → Option Error → Reply
  panics : Reply
  hangs : Reply

-- fn.Fn, run.Middleware and run.Source, which are interfaces of one method each.
abbrev pub Fn : Type 0 → Type 0
Fn W = Context → Value → W → Reply × W

abbrev pub Middleware : Type 0 → Type 0
Middleware W = Context → Value → Fn W → W → Reply × W

abbrev pub Source : Type 0 → Type 0
Source W = Context → Fn W → W → Result Unit × W

-- A method with a pointer receiver gives its error, the receiver as it is afterwards, and the world.
abbrev pub Method : Type 0 → Type 0 → Type 0
Method S W = W → Result (Unit {0}) × S × W

-- `x, err := m(); if err != nil { return err }; receiver = set(x); return nil`
module _ {S W A : Type 0} where
  abbrev pub assign_result : (A → S) → S → Result A → W → Result (Unit {0}) × S × W
  assign_result set s (ok a) w = (ok tt, set a, w)
  assign_result set s (err e) w = (err e, s, w)
  assign_result set s panic w = (panic, s, w)
  assign_result set s hang w = (hang, s, w)

  abbrev pub then_assign : Exec W A → (A → S) → S → Method S W
  then_assign m set s w = assign_result set s (m w).0 (m w).1

-- `x, err := m(); if err != nil { return err }; return receiver.f(x)`
module _ {S W A : Type 0} where
  abbrev pub continue_method : Result A → (A → Method S W) → S → Method S W
  continue_method (ok a) f s w = f a w
  continue_method (err e) f s w = (err e, s, w)
  continue_method panic f s w = (panic, s, w)
  continue_method hang f s w = (hang, s, w)

  abbrev pub then_method : Exec W A → (A → Method S W) → S → Method S W
  then_method m f s w = continue_method (m w).0 f s (m w).1

-- The object as its factory's caller gets it once the method has returned nil.
abbrev pub as_configured : {S A : Type 0} → (S → A) → Result (Unit {0}) → S → Result A
as_configured view (ok _) s = ok (view s)
as_configured view (err e) s = err e
as_configured view panic s = panic
as_configured view hang s = hang

abbrev pub configured_by : {S W A : Type 0} → (S → A) → Method S W → Exec W A
configured_by view m w = (as_configured view (m w).0 (m w).1, (m w).2)

-- `x, err := ...; if err != nil { return nil, err }` in an Invoke, on a result that the world does not
-- change.
module _ {W : Type 0} where
  abbrev pub or_reply : Result Value → (Value → W → Reply × W) → W → Reply × W
  or_reply (ok v) k w = k v w
  or_reply (err e) k w = (returns null (some e), w)
  or_reply panic k w = (panics, w)
  or_reply hang k w = (hangs, w)
