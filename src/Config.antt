-- ===== src/Config.antt =====
-- run/config/config.go: how configuration data is applied to an object.
pub mod Selection
pub mod Refusal
use fnrun.Prelude.{ℕ, String, Bool, true, false, Option, none, some, [], ◌∷◌}
use fnrun.Value.{
  Value, null, str, int, float64, bool, object, array, Items, Fields, end, field, type_name,
}
use fnrun.Value.Int.{ℤ}
use fnrun.Exec.{Error, text, errorf, Exec, pure, raise}

-- An object that a factory made and that is used as an `I` after it is configured: the methods that
-- `Configure` asks for by type assertions, each `none` if the object's type lacks it. A method
-- gives the object as it is after the call.
pub record Configurable (W I : Type 0) : Type 0 where
  pub type_of : String
  pub unconfigured : I
  pub requires_config : Option Bool
  pub configure_string : Option (String → Exec W I)
  pub configure_integer : Option (ℤ → Exec W I)
  pub configure_float : Option (ℕ → Exec W I)
  pub configure_bool : Option (Bool → Exec W I)
  pub configure_map : Option (Fields → Exec W I)
  pub configure_array : Option (Items → Exec W I)
  pub configure_generic : Option (Value → Exec W I)
  pub configure_empty : Option (Exec W I)

-- An object whose type has none of the methods.
abbrev pub bare : {W I : Type 0} → String → I → Configurable W I
bare type_of unconfigured = record {
  type_of = type_of;
  unconfigured = unconfigured;
  requires_config = none;
  configure_string = none;
  configure_integer = none;
  configure_float = none;
  configure_bool = none;
  configure_map = none;
  configure_array = none;
  configure_generic = none;
  configure_empty = none;
}

module _ {W I : Type 0} where
  unfoldable pub misconfigured_type_error : Configurable W I → Value → Error
  unfolding type_name
  misconfigured_type_error target config =
      errorf "%T could not be configured with object of type %T"
        (target.type_of ∷ type_name config ∷ [])

  -- `if t, ok := target.(...); ok { return t.Configure...(config) }`, and the end of the function
  abbrev pub call_or_misconfigured :
      {A : Type 0} → Option (A → Exec W I) → A → Configurable W I → Value → Exec W I
  call_or_misconfigured (some method) a target config = method a
  call_or_misconfigured none a target config = raise (misconfigured_type_error target config)

  -- the test `!ok || !t.RequiresConfig()` of the nil case
  abbrev pub nil_config : Configurable W I → Option Bool → Exec W I
  nil_config target none = pure target.unconfigured
  nil_config target (some false) = pure target.unconfigured
  nil_config target (some true) = raise (misconfigured_type_error target null)

  -- Configure
  unfoldable pub configure : Configurable W I → Value → Exec W I
  unfolding misconfigured_type_error
  configure target null = elim target.configure_empty [
    | some method ↦ method
    | none ↦ nil_config target target.requires_config
  ]
  configure target (str s) = call_or_misconfigured target.configure_string s target (str s)
  configure target (int n) = call_or_misconfigured target.configure_integer n target (int n)
  configure target (float64 n) = call_or_misconfigured target.configure_float n target (float64 n)
  configure target (bool b) = call_or_misconfigured target.configure_bool b target (bool b)
  configure target (object fs) = call_or_misconfigured target.configure_map fs target (object fs)
  configure target (array xs) = call_or_misconfigured target.configure_array xs target (array xs)
  configure target value = call_or_misconfigured target.configure_generic value target value

-- GetSinglePair; the range over a map of one entry reads that entry
unfoldable pub get_single_pair : {W : Type 0} → Fields → Exec W (String × Value)
get_single_pair (field k v end) = pure (k, v)
get_single_pair fs = raise (text "expected map to have exactly one entry")
