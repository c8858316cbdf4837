-- ===== src/Main/Depth/Pooling.antt =====
-- A pool passes its template on to the registry, which is a part of its data.
use fnrun.Prelude.{
  ℕ, zero, suc, ◌≤◌, ◌≡◌, refl, ap, sym, ◌∙◌, fun_ext, arith, String, Option, none, some,
}
use fnrun.Value.{Value, null, str, object, Fields}
use fnrun.Value.Int.{ℤ, pos, negsuc}
use fnrun.Exec.{
  Result, ok, err, panic, hang, Exec, pure, ◌>>=◌, Fn, Method, then_method, continue_method,
  configured_by,
}
use fnrun.Config.{configure}
use fnrun.Registry.{Finders}
use fnrun.Pool
use fnrun.Pool.{
  Channel, PoolFn, PoolConfig, create_fn_from_template, offer, send, fill, make_fns, parsed_wait,
  or_default, fn_not_found,
}
use fnrun.Main.Pooled.{place_pool}
use fnrun.Main.Objects.{Libraries, pool_object, invoked_part}
use fnrun.Main.Depth.{weight, weight_of_fields, SameFactory}
use fnrun.Main.Depth.Loading.{Agree, make_single-same}

-- A method after a call is used as the same afterwards, if the method is, whatever the receivers.
abbrev Alike : {S W I : Type 0} → (S → I) → Method S W → Method S W → Type 0
Alike {W} view f g = (w : W) → configured_by view f w ≡ configured_by view g w

module _ {S W A I : Type 0} (view : S → I) where
  continue_method-Alike :
      (f g : A → Method S W) (s t : S) (r : Result A)
      → ((a : A) → r ≡ ok a → Alike view (f a) (g a))
      → Alike view (continue_method r f s) (continue_method r g t)
  continue_method-Alike f g s t (ok a) same w = same a refl w
  continue_method-Alike f g s t (err e) same w = refl
  continue_method-Alike f g s t panic same w = refl
  continue_method-Alike f g s t hang same w = refl

  then_method-Alike :
      (m m' : Exec W A) (f g : A → Method S W) (s t : S)
      → m ≡ m'
      → ((a : A) → Alike view (f a) (g a))
      → Alike view (then_method m f s) (then_method m' g t)
  then_method-Alike m m' f g s t e same w =
      continue_method-Alike f g s t (m w).0 (λ a h. same a) (m w).1
      ∙ ap (λ (x : Exec W A). configured_by view (then_method x g t) w) e

module _ {W : Type 0} (d : ℕ) (F G : Finders W) (agree : Agree d F G) where
  abbrev over : Finders W → ℤ → Option (Channel (Fn W)) → PoolFn W
  over registry duration fn_chan = record {
    max_wait_duration = duration;
    registry = registry;
    fn_chan = fn_chan;
  }

  create-same :
      (template : Value)
      → weight template ≤ d
      → create_fn_from_template F template ≡ create_fn_from_template G template
  unfolding create_fn_from_template weight
  create-same (str key) le = agree.fns (fn_not_found key) key null (omega (arith, le))
  create-same (object fs) le =
      make_single-same d F.find_fn G.find_fn agree.fns fn_not_found fs (omega (arith, le))
  create-same _ le = refl

  module _ (n : ℕ) (template : Value) (duration : ℤ)
      (later : (c : Option (Channel (Fn W)))
        → Alike invoked_part
            (fill n template (over F duration c))
            (fill n template (over G duration c))) where
    abbrev offered : Finders W → Option (Channel (Fn W)) → Fn W → Method (PoolFn W) W
    offered registry c f w = elim (offer (over registry duration c) f) [
      | none ↦ (hang, over registry duration c, w)
      | some p ↦ fill n template p w
    ]

    abbrev sent_on : Finders W → Channel (Fn W) → Option (Channel (Fn W)) → Method (PoolFn W) W
    sent_on registry c none w = (hang, over registry duration (some c), w)
    sent_on registry c (some c') w = fill n template (over registry duration (some c')) w

    sent_on-Alike :
        (c : Channel (Fn W)) (o : Option (Channel (Fn W)))
        → Alike invoked_part (sent_on F c o) (sent_on G c o)
    sent_on-Alike c none w = refl
    sent_on-Alike c (some c') w = later (some c') w

    abbrev grown : Finders W → Option (Channel (Fn W)) → Option (PoolFn W)
    grown registry o = elim o [ none ↦ none | some c' ↦ some (over registry duration (some c')) ]

    abbrev goes_on : Finders W → Channel (Fn W) → Option (PoolFn W) → Method (PoolFn W) W
    goes_on registry c o w = elim o [
      | none ↦ (hang, over registry duration (some c), w)
      | some p ↦ fill n template p w
    ]

    offered_on :
        (registry : Finders W) (c : Channel (Fn W)) (o : Option (Channel (Fn W)))
        → goes_on registry c (grown registry o) ≡ sent_on registry c o
    offered_on registry c none = refl
    offered_on registry c (some c') = refl

    offered-sent_on :
        (registry : Finders W) (c : Channel (Fn W)) (f : Fn W)
        → offered registry (some c) f ≡ sent_on registry c (send c f)
    unfolding offer
    offered-sent_on registry c f = offered_on registry c (send c f)

    offered-Alike :
        (c : Option (Channel (Fn W))) (f : Fn W)
        → Alike invoked_part (offered F c f) (offered G c f)
    unfolding offer
    offered-Alike none f w = refl
    offered-Alike (some c) f w =
        ap (λ (m : Method (PoolFn W) W). configured_by invoked_part m w) (offered-sent_on F c f)
        ∙ sent_on-Alike c (send c f) w
        ∙ ap (λ (m : Method (PoolFn W) W). configured_by invoked_part m w)
            (sym (offered-sent_on G c f))

  fill-Alike :
      (n : ℕ) (template : Value) (duration : ℤ) (c : Option (Channel (Fn W)))
      → weight template ≤ d
      → Alike invoked_part
          (fill n template (over F duration c))
          (fill n template (over G duration c))
  unfolding fill
  fill-Alike zero template duration c le w = refl
  fill-Alike (suc n) template duration c le w =
      then_method-Alike invoked_part (create_fn_from_template F template) _ _ _ (over F duration c)
        (over G duration c) (create-same template le)
        (offered-Alike n template duration (λ c'. fill-Alike n template duration c' le) c) w

  make_fns-Alike :
      (n : ℤ) (template : Value) (duration : ℤ)
      → weight template ≤ d
      → Alike invoked_part
          (make_fns n template (over F duration none))
          (make_fns n template (over G duration none))
  unfolding make_fns
  make_fns-Alike (negsuc n) template duration le w = refl
  make_fns-Alike (pos n) template duration le w = fill-Alike n template duration _ le w

  configure_map-Alike :
      (decode : Fields → Result PoolConfig) (parse_duration : String → Result ℤ) (fs : Fields)
      → ((cfg : PoolConfig) → decode fs ≡ ok cfg → weight cfg.template ≤ d)
      → Alike invoked_part
          (Pool.configure_map decode parse_duration fs (Pool.new F))
          (Pool.configure_map decode parse_duration fs (Pool.new G))
  unfolding Pool.configure_map Pool.new
  configure_map-Alike decode parse_duration fs part w =
      continue_method-Alike invoked_part _ _ (Pool.new F) (Pool.new G) (decode fs)
        (λ cfg e.
          then_method-Alike invoked_part
            (parsed_wait parse_duration cfg.max_wait_duration (pos 500000000)) _ _ _ (Pool.new F)
            (Pool.new G) refl
            (λ duration.
              make_fns-Alike (or_default cfg.concurrency) cfg.template duration (part cfg e)))
        w

  -- mapstructure takes the template of a pool from the map that it decodes.
  pub pool-same :
      {Code : Type 0} (libs : Libraries Code W)
      → ((fs : Fields) (cfg : PoolConfig)
          → libs.decode_pool fs ≡ ok cfg
          → weight cfg.template ≤ weight_of_fields fs)
      → SameFactory (suc d) (pure (pool_object libs F)) (pure (pool_object libs G))
  unfolding configure pool_object weight
  pool-same libs part (object fs) less =
      ap
        (λ (m : Exec W (ℤ × Option (Channel (Fn W)))).
          m >>= λ (duration, c). place_pool libs.pools duration c)
        (fun_ext (
          configure_map-Alike libs.decode_pool libs.parse_duration fs
            (λ cfg e. omega (arith, part fs cfg e, less))))
  pool-same libs part _ less = refl
