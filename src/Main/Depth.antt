-- ===== src/Main/Depth.antt =====
-- How far main's registry is followed into itself: a configuration is made the same way by all
-- registries that lead back to themselves often enough for its nesting.
pub mod Loading
pub mod Pooling
pub mod Enough
pub mod Whole
use fnrun.Prelude.{
  ℕ, zero, suc, ◌+◌, ◌<◌, String, ◌≡◌, refl, sym, ap, subst, ◌∙◌, Bool, true, false, Option, none,
  some, List, [], ◌∷◌, All, str_eq, if◌then◌else◌,
}
use fnrun.Value.{Value, null, str, object, array, Items, nil, cons, Fields, end, field}
use fnrun.Exec.{Error, Exec, raise, ◌>>=◌, Fn, Middleware, Source}
use fnrun.Config.{configure}
use fnrun.Registry.{Factory, Finders}
use fnrun.Registry.Laws.{
  Registration, source_with_registry, middleware_with_registry, fn_with_registry, fn_of,
  middleware_of, source_of, or_before, last_of,
}
use fnrun.Making.{make}

-- How many strings, maps and arrays there are in the data.
unfoldable mutual
  pub weight : Value → ℕ
  weight null = 0
  weight (object fs) = suc (weight_of_fields fs)
  weight (array xs) = suc (weight_of_items xs)
  weight _ = 1

  pub weight_of_items : Items → ℕ
  weight_of_items nil = 0
  weight_of_items (cons v xs) = weight v + weight_of_items xs

  pub weight_of_fields : Fields → ℕ
  weight_of_fields end = 0
  weight_of_fields (field k v fs) = weight v + weight_of_fields fs

module _ {W I : Type 0} where
  -- The factories make the same of all data that weighs less.
  abbrev pub SameFactory : ℕ → Factory W I → Factory W I → Type 0
  SameFactory d f g =
      (c : Value) → weight c < d → (f >>= λ x. configure x c) ≡ (g >>= λ x. configure x c)

  abbrev pub SameFound : ℕ → Option (Factory W I) → Option (Factory W I) → Type 0
  SameFound d none none = Unit
  SameFound d (some f) (some g) = SameFactory d f g
  SameFound d _ _ = ⊥

  SameFound-self : (d : ℕ) (o : Option (Factory W I)) → SameFound d o o
  SameFound-self d none = tt
  SameFound-self d (some f) = λ c less. refl

  SameFound-or_before :
      (d : ℕ) (p q a b : Option (Factory W I))
      → SameFound d p q
      → SameFound d a b
      → SameFound d (or_before p a) (or_before q b)
  SameFound-or_before d none none a b h h' = h'
  SameFound-or_before d (some f) (some g) a b h h' = h
  SameFound-or_before d none (some g) a b h h' = absurd h
  SameFound-or_before d (some f) none a b h h' = absurd h

  SameFound-if :
      (d : ℕ) (b : Bool) (f g : Factory W I)
      → SameFactory d f g
      → SameFound d (if b then some f else none) (if b then some g else none)
  SameFound-if d true f g h = h
  SameFound-if d false f g h = tt

  SameFound-last_of :
      {A : Type 0} (d : ℕ) (p q : A → Option (Factory W I)) (xs : List A)
      (a b : Option (Factory W I))
      → All (λ x. SameFound d (p x) (q x)) xs
      → SameFound d a b
      → SameFound d (last_of p xs a) (last_of q xs b)
  SameFound-last_of d p q [] a b h h' = h'
  SameFound-last_of d p q (x ∷ xs) a b (h, hs) h' =
      SameFound-last_of d p q xs _ _ hs (SameFound-or_before d (p x) (q x) a b h h')

  -- The finders make the same of all data that weighs less, under every key.
  abbrev pub SameMade :
      ℕ → (String → Option (Factory W I)) → (String → Option (Factory W I)) → Type 0
  SameMade d find find' =
      (missing : Error) (key : String) (c : Value)
      → weight c < d
      → make find missing key c ≡ make find' missing key c

  abbrev make_found : Error → Value → Option (Factory W I) → Exec W I
  make_found missing c o = elim o [
    | none ↦ raise missing
    | some factory ↦ factory >>= λ x. configure x c
  ]

  SameFound-make_found :
      (d : ℕ) (missing : Error) (c : Value) (p q : Option (Factory W I))
      → weight c < d
      → SameFound d p q
      → make_found missing c p ≡ make_found missing c q
  SameFound-make_found d missing c none none less same = refl
  SameFound-make_found d missing c (some f) (some g) less same = same c less
  SameFound-make_found d missing c none (some g) less same = absurd same
  SameFound-make_found d missing c (some f) none less same = absurd same

  pub SameFound-SameMade :
      (d : ℕ) (find find' : String → Option (Factory W I))
      → ((key : String) → SameFound d (find key) (find' key))
      → SameMade d find find'
  unfolding make
  SameFound-SameMade d find find' h missing key c less =
      SameFound-make_found d missing c (find key) (find' key) less (h key)
