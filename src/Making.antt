-- ===== src/Making.antt =====
-- How the clients of a registry make an object from configuration data: find the factory of the
-- key, call it, and apply the data to the object.
use fnrun.Prelude.{String, ◌≡◌, refl, ◌↔◌, inl, inr, Option, none, some, Option-cases}
use fnrun.Value.{Value, Fields, end, field}
use fnrun.Exec.{Error, Result, ok, err, Exec, raise, ◌>>=◌, >>=-eq-ok}
use fnrun.Config.{Configurable, configure, get_single_pair}
use fnrun.Registry.{Factory}

module _ {W I : Type 0} where
  unfoldable pub make : (String → Option (Factory W I)) → Error → String → Value → Exec W I
  make find missing key c = elim (find key) [
    | none ↦ raise missing
    | some factory ↦ factory >>= λ x. configure x c
  ]

  -- What it means that the object `x` was made for the key with the data.
  pub record Makes (find : String → Option (Factory W I)) (key : String) (c : Value) (w : W) (x : I)
      (w' : W) : Type 0 where
    pub factory : Factory W I
    pub found : find key ≡ some factory
    pub made : Configurable W I
    pub between : W
    pub called : factory w ≡ (ok made, between)
    pub configured : configure made c between ≡ (ok x, w')

  module _ (find : String → Option (Factory W I)) (missing : Error) (key : String) (c : Value)
      {w w' : W} {x : I} where
    Makes-make : Makes find key c w x w' → make find missing key c w ≡ (ok x, w')
    unfolding make
    Makes-make s = rw (s.found, make, s.called) s.configured

    make-Makes : make find missing key c w ≡ (ok x, w') → Makes find key c w x w'
    unfolding make
    make-Makes h = elim (Option-cases (find key)) [
      | inl e ↦
          let h' : ◌≡◌ {A = Result I × W} (err missing, w) (ok x, w') = rw (e, make) at h in cc
      | inr (factory, e) ↦
          let (made, between, called, configured) = >>=-eq-ok factory _ w (rw (e, make) at h) in
          record {
            factory = factory;
            found = e;
            made = made;
            between = between;
            called = called;
            configured = configured;
          }
    ]

    pub make_iff : (make find missing key c w ≡ (ok x, w')) ↔ Makes find key c w x w'
    make_iff = (make-Makes, Makes-make)

  -- Nothing is made, and nothing changes, for a key that the registry does not know.
  pub make_missing :
      (find : String → Option (Factory W I)) (missing : Error) (key : String) (c : Value) (w : W)
      → find key ≡ none
      → make find missing key c w ≡ (err missing, w)
  unfolding make
  make_missing find missing key c w e = rw (e, make)

  -- The same for data that names the key and its configuration in one pair.
  abbrev pub make_single : (String → Option (Factory W I)) → (String → Error) → Fields → Exec W I
  make_single find missing fs = get_single_pair fs >>= λ (key, c). make find (missing key) key c

  -- The one entry of the map names the key and the data of the object that is made.
  abbrev pub MakesSingle : (String → Option (Factory W I)) → Fields → W → I → W → Type 0
  MakesSingle find fs w x w' =
      (key : String) × (c : Value) × (fs ≡ field key c end) × Makes find key c w x w'

  module _ (find : String → Option (Factory W I)) (missing : String → Error) where
    make_single-MakesSingle :
        (fs : Fields) (w : W) (x : I) (w' : W)
        → make_single find missing fs w ≡ (ok x, w')
        → MakesSingle find fs w x w'
    unfolding get_single_pair
    make_single-MakesSingle end w x w' h = cc
    make_single-MakesSingle (field key c end) w x w' h =
        (key, c, refl, (make_iff find (missing key) key c).0 h)
    make_single-MakesSingle (field key c (field j d fs)) w x w' h = cc

    MakesSingle-make_single :
        (fs : Fields) (w : W) (x : I) (w' : W)
        → MakesSingle find fs w x w'
        → make_single find missing fs w ≡ (ok x, w')
    unfolding get_single_pair
    MakesSingle-make_single fs w x w' (key, c, e, m) =
        rw (e, get_single_pair) ((make_iff find (missing key) key c).1 m)

    pub make_single_iff :
        (fs : Fields) (w : W) (x : I) (w' : W)
        → (make_single find missing fs w ≡ (ok x, w')) ↔ MakesSingle find fs w x w'
    make_single_iff fs w x w' =
        (make_single-MakesSingle fs w x w', MakesSingle-make_single fs w x w')
