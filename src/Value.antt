-- ===== src/Value.antt =====
-- Go's `interface{}`: the values that travel between sources, middlewares and fns, and the
-- configuration data that YAML decoding produces. Each constructor is a dynamic type that some
-- code of the repository produces or tests for.
pub mod Int
use fnrun.Prelude.{
  ℕ, zero, suc, String, Bool, true, false, Option, none, some, List, if◌then◌else◌, str_eq,
}
use fnrun.Value.Int.{ℤ}

mutual
  pub data Value : Type 0 where
    null : Value
    str : String → Value
    int : ℤ → Value
    int32 : ℤ → Value
    int64 : ℤ → Value
    -- the 64 bits of a float64
    float64 : ℕ → Value
    bool : Bool → Value
    object : Fields → Value
    array : Items → Value
    -- map[string]string and map[string][]string
    string_map : List (String × String) → Value
    string_lists : List (String × List String) → Value
    -- a value of any other type: the type's name and an identifier of the value
    other : String → ℕ → Value

  -- []interface{}
  pub data Items : Type 0 where
    nil : Items
    cons : Value → Items → Items

  -- map[string]interface{}
  pub data Fields : Type 0 where
    end : Fields
    field : String → Value → Fields → Fields

-- %T of a value
unfoldable pub type_name : Value → String
type_name null = "<nil>"
type_name (str s) = "string"
type_name (int n) = "int"
type_name (int32 n) = "int32"
type_name (int64 n) = "int64"
type_name (float64 n) = "float64"
type_name (bool b) = "bool"
type_name (object fs) = "map[string]interface {}"
type_name (array xs) = "[]interface {}"
type_name (string_map m) = "map[string]string"
type_name (string_lists m) = "map[string][]string"
type_name (other t n) = t

-- len(m)
unfoldable pub size : Fields → ℕ
size end = 0
size (field k v fs) = suc (size fs)

-- v, ok := m[k]
unfoldable pub get : String → Fields → Option Value
get k end = none
get k (field j v fs) = if str_eq j k then some v else get k fs

-- m[k], which is nil for a missing key
unfoldable pub get_or_null : String → Fields → Value
get_or_null k end = null
get_or_null k (field j v fs) = if str_eq j k then v else get_or_null k fs

-- m[k] = v
unfoldable pub put : String → Value → Fields → Fields
put k v end = field k v end
put k v (field j w fs) = if str_eq j k then field k v fs else field j w (put k v fs)
