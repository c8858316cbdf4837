-- ===== src/Config/Refusal.antt =====
-- `Configure` on all objects and all data: the selected call, or the refusal.
use fnrun.Prelude.{
  ℕ, String, ◌≡◌, refl, ◌≢◌, ◌⊎◌, inl, inr, Bool, true, false, Option, none, some, Option-cases,
}
use fnrun.Value.{
  Value, null, str, int, int32, int64, float64, bool, object, array, string_map, string_lists,
  other, Items, Fields,
}
use fnrun.Value.Int.{ℤ}
use fnrun.Exec.{Exec, raise}
use fnrun.Config.{Configurable, misconfigured_type_error, call_or_misconfigured, configure}
use fnrun.Config.Selection.{
  IsUncommon, Selects, by_empty, by_default, by_string, by_integer, by_float, by_bool, by_map,
  by_array, by_generic, configure_generic,
}

module _ {W I : Type 0} where
  abbrev pub IsRefused : Configurable W I → Value → Type 0
  IsRefused t c = (m : Exec W I) → ¬ Selects t c m

  -- The method that `Configure` looks for, present or not.
  abbrev LookupCases : Configurable W I → Value → Type 0
  LookupCases t c =
      ((m : Exec W I) × Selects t c m × (configure t c ≡ m))
      ⊎ (IsRefused t c × (configure t c ≡ raise (misconfigured_type_error t c)))

  IsRefused-null :
      (t : Configurable W I)
      → t.configure_empty ≡ none
      → t.requires_config ≡ some true
      → IsRefused t null
  IsRefused-null t e r m (by_empty h) = cc
  IsRefused-null t e r m (by_default h k) = k r
  IsRefused-null t e r m (by_generic v u h) = u

  IsRefused-string :
      (t : Configurable W I) (s : String) → t.configure_string ≡ none → IsRefused t (str s)
  IsRefused-string t s e m (by_string _ h) = cc
  IsRefused-string t s e m (by_generic v u h) = u

  IsRefused-integer :
      (t : Configurable W I) (n : ℤ) → t.configure_integer ≡ none → IsRefused t (int n)
  IsRefused-integer t n e m (by_integer _ h) = cc
  IsRefused-integer t n e m (by_generic v u h) = u

  IsRefused-float :
      (t : Configurable W I) (n : ℕ) → t.configure_float ≡ none → IsRefused t (float64 n)
  IsRefused-float t n e m (by_float _ h) = cc
  IsRefused-float t n e m (by_generic v u h) = u

  IsRefused-bool :
      (t : Configurable W I) (b : Bool) → t.configure_bool ≡ none → IsRefused t (bool b)
  IsRefused-bool t b e m (by_bool _ h) = cc
  IsRefused-bool t b e m (by_generic v u h) = u

  IsRefused-map :
      (t : Configurable W I) (f : Fields) → t.configure_map ≡ none → IsRefused t (object f)
  IsRefused-map t f e m (by_map _ h) = cc
  IsRefused-map t f e m (by_generic v u h) = u

  IsRefused-array :
      (t : Configurable W I) (x : Items) → t.configure_array ≡ none → IsRefused t (array x)
  IsRefused-array t x e m (by_array _ h) = cc
  IsRefused-array t x e m (by_generic v u h) = u

  IsRefused-uncommon :
      (t : Configurable W I) (v : Value) → IsUncommon v → t.configure_generic ≡ none → IsRefused t v
  IsRefused-uncommon t v u e m (by_empty h) = u
  IsRefused-uncommon t v u e m (by_default h k) = u
  IsRefused-uncommon t v u e m (by_string _ h) = u
  IsRefused-uncommon t v u e m (by_integer _ h) = u
  IsRefused-uncommon t v u e m (by_float _ h) = u
  IsRefused-uncommon t v u e m (by_bool _ h) = u
  IsRefused-uncommon t v u e m (by_map _ h) = u
  IsRefused-uncommon t v u e m (by_array _ h) = u
  IsRefused-uncommon t v u e m (by_generic _ _ h) = cc

  -- The nil case without an EmptyConfigurer, on what the Required interface says.
  nil_config_cases :
      (t : Configurable W I) (r : Option Bool)
      → t.configure_empty ≡ none
      → t.requires_config ≡ r
      → LookupCases t null
  unfolding configure
  nil_config_cases t none e r = inl (_, by_default e (rw r (cc)), rw (e, r))
  nil_config_cases t (some false) e r = inl (_, by_default e (rw r (cc)), rw (e, r))
  nil_config_cases t (some true) e r = inr (IsRefused-null t e r, rw (e, r))

  configure_refused_uncommon :
      (t : Configurable W I) (v : Value)
      → IsUncommon v
      → t.configure_generic ≡ none
      → configure t v ≡ raise (misconfigured_type_error t v)
  unfolding configure
  configure_refused_uncommon t (int32 n) u e = rw e
  configure_refused_uncommon t (int64 n) u e = rw e
  configure_refused_uncommon t (string_map f) u e = rw e
  configure_refused_uncommon t (string_lists f) u e = rw e
  configure_refused_uncommon t (other f n) u e = rw e
  configure_refused_uncommon t _ u e = absurd u

  configure_cases_uncommon : (t : Configurable W I) (v : Value) → IsUncommon v → LookupCases t v
  configure_cases_uncommon t v u = elim (Option-cases t.configure_generic) [
    | inr (m, e) ↦ inl (m v, by_generic v u e, configure_generic t v m u e)
    | inl e ↦ inr (IsRefused-uncommon t v u e, configure_refused_uncommon t v u e)
  ]

  -- For every object and every data, either some method is selected, and configuring is that call, or
  -- none is, and configuring changes nothing and fails with the error that names both types.
  pub configure_cases :
      (t : Configurable W I) (c : Value)
      → ((m : Exec W I) × Selects t c m × (configure t c ≡ m))
        ⊎ (IsRefused t c × (configure t c ≡ raise (misconfigured_type_error t c)))
  unfolding configure
  configure_cases t null = elim (Option-cases t.configure_empty) [
    | inl e ↦ nil_config_cases t t.requires_config e refl
    | inr (m, e) ↦ inl (m, by_empty e, rw e)
  ]
  configure_cases t (str s) = elim (Option-cases t.configure_string) [
    | inl e ↦ inr (IsRefused-string t s e, rw e)
    | inr (m, e) ↦ inl (m s, by_string s e, rw e)
  ]
  configure_cases t (int n) = elim (Option-cases t.configure_integer) [
    | inl e ↦ inr (IsRefused-integer t n e, rw e)
    | inr (m, e) ↦ inl (m n, by_integer n e, rw e)
  ]
  configure_cases t (float64 n) = elim (Option-cases t.configure_float) [
    | inl e ↦ inr (IsRefused-float t n e, rw e)
    | inr (m, e) ↦ inl (m n, by_float n e, rw e)
  ]
  configure_cases t (bool b) = elim (Option-cases t.configure_bool) [
    | inl e ↦ inr (IsRefused-bool t b e, rw e)
    | inr (m, e) ↦ inl (m b, by_bool b e, rw e)
  ]
  configure_cases t (object fs) = elim (Option-cases t.configure_map) [
    | inl e ↦ inr (IsRefused-map t fs e, rw e)
    | inr (m, e) ↦ inl (m fs, by_map fs e, rw e)
  ]
  configure_cases t (array xs) = elim (Option-cases t.configure_array) [
    | inl e ↦ inr (IsRefused-array t xs e, rw e)
    | inr (m, e) ↦ inl (m xs, by_array xs e, rw e)
  ]
  configure_cases t (int32 n) = configure_cases_uncommon t (int32 n) tt
  configure_cases t (int64 n) = configure_cases_uncommon t (int64 n) tt
  configure_cases t (string_map f) = configure_cases_uncommon t (string_map f) tt
  configure_cases t (string_lists f) = configure_cases_uncommon t (string_lists f) tt
  configure_cases t (other f n) = configure_cases_uncommon t (other f n) tt

  call_or_misconfigured-type_of :
      {A : Type 0} (m : Option (A → Exec W I)) (a : A) (t u : Configurable W I) (c : Value)
      → t.type_of ≡ u.type_of
      → call_or_misconfigured m a t c ≡ call_or_misconfigured m a u c
  unfolding misconfigured_type_error
  call_or_misconfigured-type_of none a t u c e = rw e
  call_or_misconfigured-type_of (some m) a t u c e = refl

  -- RequiresConfig matters only for null: on any other data, what an object answers there changes
  -- neither the call nor the error.
  configure-requires_config :
      (t : Configurable W I) (r : Option Bool) (c : Value)
      → c ≢ null
      → configure (record t { requires_config = r }) c ≡ configure t c
  unfolding configure
  configure-requires_config t r null h = absurd (h refl)
  configure-requires_config t r (str x) h =
      call_or_misconfigured-type_of t.configure_string x _ t _ refl
  configure-requires_config t r (int x) h =
      call_or_misconfigured-type_of t.configure_integer x _ t _ refl
  configure-requires_config t r (float64 x) h =
      call_or_misconfigured-type_of t.configure_float x _ t _ refl
  configure-requires_config t r (bool x) h =
      call_or_misconfigured-type_of t.configure_bool x _ t _ refl
  configure-requires_config t r (object x) h =
      call_or_misconfigured-type_of t.configure_map x _ t _ refl
  configure-requires_config t r (array x) h =
      call_or_misconfigured-type_of t.configure_array x _ t _ refl
  configure-requires_config t r v h = call_or_misconfigured-type_of t.configure_generic v _ t v refl
