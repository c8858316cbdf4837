-- ===== src/Config/Selection.antt =====
-- What `Configure` selects, as a relation between the object, the data and the method that is
-- called.
use fnrun.Prelude.{ℕ, String, ◌≡◌, refl, ◌≢◌, Bool, true, false, Option, none, some}
use fnrun.Value.{
  Value, null, str, int, int32, int64, float64, bool, object, array, string_map, string_lists,
  other, Items, Fields,
}
use fnrun.Value.Int.{ℤ}
use fnrun.Exec.{Exec, pure}
use fnrun.Config.{Configurable, nil_config, configure}

-- The values that no case of the switch names.
abbrev pub IsUncommon : Value → Type 0
IsUncommon (int32 n) = Unit
IsUncommon (int64 n) = Unit
IsUncommon (string_map m) = Unit
IsUncommon (string_lists m) = Unit
IsUncommon (other t n) = Unit
IsUncommon value = ⊥

module _ {W I : Type 0} where
  -- `Selects t c m`: applying the data `c` to `t` is the call `m`.
  pub data Selects (t : Configurable W I) : Value → Exec W I → Type 0 where
    by_empty : {m : Exec W I} → t.configure_empty ≡ some m → Selects t null m
    by_default :
        t.configure_empty ≡ none
        → t.requires_config ≢ some true
        → Selects t null (pure t.unconfigured)
    by_string :
        {m : String → Exec W I} (s : String) → t.configure_string ≡ some m → Selects t (str s) (m s)
    by_integer : {m : ℤ → Exec W I} (n : ℤ) → t.configure_integer ≡ some m → Selects t (int n) (m n)
    by_float : {m : ℕ → Exec W I} (n : ℕ) → t.configure_float ≡ some m → Selects t (float64 n) (m n)
    by_bool :
        {m : Bool → Exec W I} (b : Bool) → t.configure_bool ≡ some m → Selects t (bool b) (m b)
    by_map :
        {m : Fields → Exec W I} (fs : Fields)
        → t.configure_map ≡ some m
        → Selects t (object fs) (m fs)
    by_array :
        {m : Items → Exec W I} (xs : Items)
        → t.configure_array ≡ some m
        → Selects t (array xs) (m xs)
    by_generic :
        {m : Value → Exec W I} (v : Value)
        → IsUncommon v
        → t.configure_generic ≡ some m
        → Selects t v (m v)

  nil_config_unrequired :
      (t : Configurable W I) (r : Option Bool)
      → r ≢ some true
      → nil_config t r ≡ pure t.unconfigured
  nil_config_unrequired t none h = refl
  nil_config_unrequired t (some true) h = absurd (h refl)
  nil_config_unrequired t (some false) h = refl

  pub configure_generic :
      (t : Configurable W I) (v : Value) (m : Value → Exec W I)
      → IsUncommon v
      → t.configure_generic ≡ some m
      → configure t v ≡ m v
  unfolding configure
  configure_generic t (int32 n) m u e = rw e
  configure_generic t (int64 n) m u e = rw e
  configure_generic t (string_map f) m u e = rw e
  configure_generic t (string_lists f) m u e = rw e
  configure_generic t (other f n) m u e = rw e
  configure_generic t _ m u e = absurd u

  pub Selects-configure :
      (t : Configurable W I) (c : Value) (m : Exec W I) → Selects t c m → configure t c ≡ m
  unfolding configure
  Selects-configure t c m (by_empty e) = rw e
  Selects-configure t c m (by_default e r) = rw e (nil_config_unrequired t t.requires_config r)
  Selects-configure t c m (by_string s e) = rw e
  Selects-configure t c m (by_integer n e) = rw e
  Selects-configure t c m (by_float n e) = rw e
  Selects-configure t c m (by_bool b e) = rw e
  Selects-configure t c m (by_map fs e) = rw e
  Selects-configure t c m (by_array xs e) = rw e
  Selects-configure t c m (by_generic {m = g} v u e) = configure_generic t v g u e
