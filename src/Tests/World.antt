-- ===== src/Tests/World.antt =====
-- A small world, a number that every action raises, and a registry of objects in it.
use fnrun.Prelude.{ℕ, ◌+◌, true, none, some, str_eq, if◌then◌else◌}
use fnrun.Value.{str}
use fnrun.Exec.{Context, text, returns, ok, err, Fn, Middleware, Source}
use fnrun.Config.{Configurable}
use fnrun.Registry.{Factory, Finders}

abbrev pub background : Context
background = record { deadline = none }

-- An object with no configuration method, one that requires a string, and a factory that counts.
abbrev pub plain : {I : Type 0} → I → Configurable ℕ I
plain i = record {
  type_of = "*plain";
  unconfigured = i;
  requires_config = none;
  configure_string = none;
  configure_integer = none;
  configure_float = none;
  configure_bool = none;
  configure_map = none;
  configure_array = none;
  configure_generic = none;
  configure_empty = none;
}

abbrev pub with_string : {I : Type 0} → I → Configurable ℕ I
with_string i = record (plain i) {
  requires_config = some true;
  configure_string = some (λ s w. if str_eq s "bad" then (err (text "bad"), w) else (ok i, w + 10));
}

abbrev pub counted : {I : Type 0} → Configurable ℕ I → Factory ℕ I
counted made w = (ok made, w + 1)

abbrev pub echo : Fn ℕ
echo ctx input w = (returns input none, w + 100)

-- A middleware that counts, and one that replaces the input.
abbrev pub counting : Middleware ℕ
counting ctx input f w = f ctx input (w + 1000)

abbrev pub replacing : Middleware ℕ
replacing ctx input f w = f ctx (str "replaced") w

-- A source that invokes its fn once.
abbrev pub once : Source ℕ
once ctx f w = (ok tt, (f ctx (str "in") w).1)

abbrev pub registry : Finders ℕ
registry = record {
  find_source = λ key. if str_eq key "source" then some (counted (with_string once)) else none;
  find_middleware = λ key.
      if str_eq key "counting"
      then some (counted (plain counting))
      else if str_eq key "middleware"
      then some (counted (with_string replacing))
      else none;
  find_fn = λ key.
      if str_eq key "echo"
      then some (counted (plain echo))
      else if str_eq key "fn"
      then some (counted (with_string echo))
      else none;
}
