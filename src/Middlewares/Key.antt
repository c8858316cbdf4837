-- ===== src/Middlewares/Key.antt =====
-- run/middleware/key and run/middleware/healthcheck.
use fnrun.Prelude.{String, ◌≡◌, refl, ap, Option, none, some, List, [], ◌∷◌, arith, eq_iff}
use text.Mathlib.TextPositions.{eq_refl}
use fnrun.Value.{Value, null, object, Fields, end, field, type_name, get_or_null, put}
use fnrun.Exec.{Error, errorf, Context, ok, Exec, returns, Fn, Middleware}
use fnrun.Pipeline.{compose}
use fnrun.Pipeline.Compose.{nest, compose-nest}

-- keyMiddleware
pub record KeyMiddleware : Type 0 where
  pub key : String

-- ConfigureString, which never fails
unfoldable pub configure_string : String → KeyMiddleware → KeyMiddleware
configure_string key k = record k { key = key }

abbrev pub not_a_map : Value → Error
not_a_map input =
    errorf "key middleware expected input to be of type map[string]interface{}, but it is %T"
      (type_name input ∷ [])

-- New and NewWithKey
unfoldable pub new_with_key : String → KeyMiddleware
new_with_key key = record { key = key }

unfoldable pub new : KeyMiddleware
unfolding new_with_key
new = record { key = "" }

module _ {W : Type 0} where
  -- keyMiddleware.Invoke
  unfoldable pub invoke : KeyMiddleware → Middleware W
  unfolding type_name get_or_null
  invoke k ctx (object m) f w = f ctx (get_or_null k.key m) w
  invoke k ctx input f w = (returns null (some (not_a_map input)), w)

  -- healthcheckMiddleware.Configure; the parameter starts the goroutine that serves the probe
  unfoldable pub configure_healthcheck : (W → W) → Exec W (Unit {0})
  configure_healthcheck listen w = (ok tt, listen w)

  -- healthcheckMiddleware.Invoke
  unfoldable pub healthcheck : Middleware W
  healthcheck ctx input f w = f ctx input w

pub get_or_null-put : (k : String) (v : Value) (fs : Fields) → get_or_null k (put k v fs) ≡ v
unfolding get_or_null put
get_or_null-put k v end = rw (eq_refl k)
get_or_null-put k v (field j w fs) = ground (arith, eq_refl k, eq_iff j k, get_or_null-put k v fs)

-- What stands at the end of a path of keys: null below a missing key, and nothing where a step leads
-- through a value that is no map.
unfoldable pub at_path : List String → Value → Option Value
unfolding get_or_null
at_path [] v = some v
at_path (k ∷ ks) (object m) = at_path ks (get_or_null k m)
at_path (k ∷ ks) v = none

abbrev key_chain : {W : Type 0} → List String → List (Middleware W)
key_chain [] = []
key_chain (k ∷ ks) = invoke (new_with_key k) ∷ key_chain ks

module _ {W : Type 0} where
  nest-key_chain :
      (ks : List String) (v r : Value) (f : Fn W) (ctx : Context) (w : W)
      → at_path ks v ≡ some r
      → nest (key_chain ks) f ctx v w ≡ f ctx r w
  unfolding nest invoke new_with_key at_path
  nest-key_chain [] v r f ctx w h = ap (λ x. f ctx x w) cc
  nest-key_chain (k ∷ ks) (object m) r f ctx w h = nest-key_chain ks (get_or_null k m) r f ctx w h
  nest-key_chain (k ∷ ks) _ r f ctx w h = cc

  -- A pipeline of key middlewares hands the fn the value at the end of the path of its keys, if no step
  -- of the path leads through a value that is no map, and adds no effect.
  compose-key_chain :
      (ks : List String) (v r : Value) (f : Fn W) (ctx : Context) (w : W)
      → at_path ks v ≡ some r
      → compose (key_chain ks) ctx v f w ≡ f ctx r w
  compose-key_chain ks v r f ctx w h =
      rw (compose-nest (key_chain ks) f ctx v w) (nest-key_chain ks v r f ctx w h)

  -- On an input that is no map the fn is not invoked: the error names the input's type, and the world
  -- is unchanged, whatever fn is behind.
  pub invoke-not_a_map :
      (k : KeyMiddleware) (v : Value) (f : Fn W) (ctx : Context) (w : W)
      → at_path (k.key ∷ []) v ≡ none
      → invoke k ctx v f w ≡ (returns null (some (not_a_map v)), w)
  unfolding invoke at_path
  invoke-not_a_map k (object m) f ctx w h = cc
  invoke-not_a_map k _ f ctx w h = refl
