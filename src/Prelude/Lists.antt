-- ===== src/Prelude/Lists.antt =====
-- Lists measured by native numbers, predicates on all elements, and maps as association lists.
use Prim.Native.Nat.{ℕ, zero, suc, ◌+◌}
use Prim.Native.String.{String}
use mathlib.Core.Path.{◌≡◌, refl, ap}
use mathlib.Core.Option.{Option, none, some}
use mathlib.Core.List.{List, [], ◌∷◌, ◌++◌, map}
use native.Mathlib.Omega.{arith}
use text.Mathlib.Text.{◌==◌}
use text.Mathlib.TextEquality.{eq_iff}
use fnrun.Prelude.Tests.{if◌then◌else◌}

module _ {ℓ} {A : Type ℓ} where
  abbrev pub length : List A → ℕ
  length [] = 0
  length (x ∷ xs) = suc (length xs)

  abbrev pub get_elem? : List A → ℕ → Option A
  get_elem? [] i = none
  get_elem? (x ∷ xs) zero = some x
  get_elem? (x ∷ xs) (suc i) = get_elem? xs i

  pub length-append : (xs ys : List A) → length (xs ++ ys) ≡ length xs + length ys
  length-append [] ys = omega arith
  length-append (x ∷ xs) ys = omega (arith, length-append xs ys)

module _ {ℓ κ} {A : Type ℓ} {B : Type κ} (f : A → B) where
  pub length-map : (xs : List A) → length (map f xs) ≡ length xs
  length-map [] = refl
  length-map (x ∷ xs) = ap suc (length-map xs)

  pub map-append_one : (xs : List A) (x : A) → map f xs ++ f x ∷ [] ≡ map f (xs ++ x ∷ [])
  map-append_one [] x = refl
  map-append_one (y ∷ xs) x = ap (λ l. f y ∷ l) (map-append_one xs x)

-- An empty list is not split around an element.
pub no_middle {ℓ κ} :
    {A : Type ℓ} {B : Type κ} (x : A) (before after xs : List A)
    → xs ≡ before ++ x ∷ after
    → xs ≡ []
    → B
no_middle x [] after xs e e' = cc
no_middle x (y ∷ before) after xs e e' = cc

abbrev pub All {ℓ κ} : {A : Type ℓ} → (A → Type κ) → List A → Type κ
All P [] = Unit
All P (x ∷ xs) = P x × All P xs

pub All-append {ℓ κ} :
    {A : Type ℓ} (P : A → Type κ) (xs ys : List A) → All P xs → All P ys → All P (xs ++ ys)
All-append P [] ys hx hy = hy
All-append P (x ∷ xs) ys hx hy = (hx.0, All-append P xs ys hx.1 hy)

-- Go's `map[string]V` as an association list: assigning to a key replaces its entry, or appends one.
module _ {ℓ} {V : Type ℓ} where
  unfoldable pub insert : String → V → List (String × V) → List (String × V)
  insert key value ((key', value') ∷ entries) =
      if key' == key then (key, value) ∷ entries else (key', value') ∷ insert key value entries
  insert key value [] = (key, value) ∷ []

  -- `m[key]`, with its presence flag
  unfoldable pub lookup : String → List (String × V) → Option V
  lookup key ((key', value) ∷ entries) = if key' == key then some value else lookup key entries
  lookup key [] = none

  -- Reading a map that has been assigned to.
  pub lookup-insert :
      (assigned read : String) (value : V) (entries : List (String × V))
      → lookup read (insert assigned value entries)
        ≡ (if assigned == read then some value else lookup read entries)
  unfolding insert lookup
  lookup-insert assigned read value ((key, value') ∷ entries) = ground (
    arith,
    lookup-insert assigned read value entries,
    eq_iff key assigned,
    eq_iff key read,
    eq_iff assigned read,
  )
  lookup-insert assigned read value [] = refl
