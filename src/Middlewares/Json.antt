-- ===== src/Middlewares/Json.antt =====
-- run/middleware/json: JSON on the way in and on the way out.
use fnrun.Prelude.{
  Bool, true, false, ◌⊎◌, inl, inr, String, ◌≡◌, refl, ap, ap₂, ◌∙◌, ◌↔◌, none, some, [], ◌∷◌,
  str_eq, eq_iff, if◌then◌else◌,
}
use fnrun.Value.{Value, null, str, Fields, type_name}
use fnrun.Exec.{
  Error, text, errorf, Context, Result, ok, err, panic, hang, Reply, returns, panics, hangs, Fn,
  Middleware, Method, or_reply, or_reply-returns,
}
use fnrun.Pipeline.{compose}
use fnrun.Pipeline.Compose.{nest, compose-nest}

-- jsonMiddlewareConfig
pub record JsonConfig : Type 0 where
  pub input : String
  pub output : String

abbrev pub unknown_strategy : Error
unknown_strategy = text "unknown strategy"

-- encoding/json, as the middleware uses it: Marshal to text, and Unmarshal into an interface{},
-- which leaves the target alone when the text is no JSON.
pub record Json : Type 0 where
  pub marshal : Value → Result String
  pub unmarshal : String → Result Value

module _ (json : Json) where
  -- `newValue = string(bytes)`
  unfoldable pub serialized : Result String → Result Value
  serialized (ok s) = ok (str s)
  serialized (err e) = err e
  serialized panic = panic
  serialized hang = hang

  -- `json.Unmarshal([]byte(str), &newValue)`, whose error is dropped; `newValue` was `v`
  unfoldable pub unmarshalled_over : Value → Result Value → Result Value
  unmarshalled_over v (ok x) = ok x
  unmarshalled_over v (err e) = ok v
  unmarshalled_over v panic = panic
  unmarshalled_over v hang = hang

  unfoldable pub deserialized : Value → Result Value
  unfolding unmarshalled_over type_name
  deserialized (str s) = unmarshalled_over (str s) (json.unmarshal s)
  deserialized v =
      err (errorf "expected string value but received one of type %T" (type_name v ∷ []))

  unfoldable pub transcode : Value → String → Result Value
  unfolding serialized deserialized
  transcode v strategy =
      if str_eq strategy "serialize"
      then serialized (json.marshal v)
      else if str_eq strategy "deserialize"
      then deserialized v
      else if str_eq strategy ""
      then ok v
      else err unknown_strategy

  -- The end of Invoke, on what the fn has given.
  abbrev pub transcode_reply : {W : Type 0} → String → Reply × W → Reply × W
  transcode_reply strategy (returns output none, w) =
      or_reply (transcode output strategy) (λ v u. (returns v none, u)) w
  transcode_reply strategy (returns output (some e), w) = (returns null (some e), w)
  transcode_reply strategy (panics, w) = (panics, w)
  transcode_reply strategy (hangs, w) = (hangs, w)

  -- jsonMiddleware.Invoke
  unfoldable pub invoke : {W : Type 0} → JsonConfig → Middleware W
  unfolding transcode
  invoke config ctx input f =
      or_reply (transcode input config.input)
        (λ new_input w. transcode_reply config.output (f ctx new_input w))

-- New
unfoldable pub new : JsonConfig
new = record { input = ""; output = "" }

-- ConfigureMap: mapstructure.Decode into the struct, which may be changed also when it fails
unfoldable pub configure_map :
    {W : Type 0}
    → (Fields → JsonConfig → Result (Unit {0}) × JsonConfig)
    → Fields
    → JsonConfig
    → Method JsonConfig W
configure_map decode fs config w = ((decode fs config).0, (decode fs config).1, w)

module _ (json : Json) where
  -- Text that is no JSON passes a deserialization unchanged, and no error is reported.
  transcode_invalid :
      (s : String) (e : Error)
      → json.unmarshal s ≡ err e
      → transcode json (str s) "deserialize" ≡ ok (str s)
  unfolding transcode
  transcode_invalid s e h = rw h

  transcode_reply-returns :
      {W : Type 0} (strategy : String) (r : Reply) (u : W) {v : Value} {w' : W}
      → transcode_reply json strategy (r, u) ≡ (returns v none, w')
      → (y : Value) × (r ≡ returns y none) × (u ≡ w') × (transcode json y strategy ≡ ok v)
  transcode_reply-returns strategy (returns y none) u h =
      let (x, e, e') = or_reply-returns (transcode json y strategy) _ u h in
      (y, refl, cc, e ∙ ap ok cc)
  transcode_reply-returns strategy (returns y (some e)) u h = cc
  transcode_reply-returns strategy panics u h = cc
  transcode_reply-returns strategy hangs u h = cc

  -- What the strategies make of a value: its JSON text, the value that its text parses to, or itself
  -- where the text does not parse, or itself.
  abbrev pub Transcodes : String → Value → Value → Type 0
  Transcodes strategy v x =
      ((strategy ≡ "serialize") × ((s : String) × (json.marshal v ≡ ok s) × (x ≡ str s)))
      ⊎ (((strategy ≡ "deserialize")
            × ((s : String) × (v ≡ str s)
                × ((json.unmarshal s ≡ ok x)
                    ⊎ ((e : Error) × (json.unmarshal s ≡ err e) × (x ≡ v)))))
          ⊎ ((strategy ≡ "") × (x ≡ v)))

  serialized-ok :
      (r : Result String) (x : Value)
      → serialized json r ≡ ok x
      → (s : String) × (r ≡ ok s) × (x ≡ str s)
  unfolding serialized
  serialized-ok (ok s) x h = (s, refl, cc)
  serialized-ok (err e) x h = cc
  serialized-ok panic x h = cc
  serialized-ok hang x h = cc

  unmarshalled_over-ok :
      (v : Value) (r : Result Value) (x : Value)
      → unmarshalled_over json v r ≡ ok x
      → (r ≡ ok x) ⊎ ((e : Error) × (r ≡ err e) × (x ≡ v))
  unfolding unmarshalled_over
  unmarshalled_over-ok v (ok y) x h = inl h
  unmarshalled_over-ok v (err e) x h = inr (e, refl, cc)
  unmarshalled_over-ok v panic x h = cc
  unmarshalled_over-ok v hang x h = cc

  deserialized-ok :
      (v x : Value)
      → deserialized json v ≡ ok x
      → (s : String) × (v ≡ str s)
        × ((json.unmarshal s ≡ ok x) ⊎ ((e : Error) × (json.unmarshal s ≡ err e) × (x ≡ v)))
  unfolding deserialized
  deserialized-ok (str s) x h = (s, refl, unmarshalled_over-ok (str s) (json.unmarshal s) x h)
  deserialized-ok _ x h = cc

  by_strategy : Value → Bool → Bool → Bool → Result Value
  by_strategy v serialize deserialize unchanged =
      if serialize
      then serialized json (json.marshal v)
      else if deserialize
      then deserialized json v
      else if unchanged
      then ok v
      else err unknown_strategy

  by_strategy-Transcodes :
      (strategy : String) (v x : Value) (b b' b'' : Bool)
      → str_eq strategy "serialize" ≡ b
      → str_eq strategy "deserialize" ≡ b'
      → str_eq strategy "" ≡ b''
      → by_strategy v b b' b'' ≡ ok x
      → Transcodes strategy v x
  unfolding by_strategy
  by_strategy-Transcodes strategy v x true b' b'' e e' e'' h =
      inl ((eq_iff strategy "serialize").0 e, serialized-ok (json.marshal v) x h)
  by_strategy-Transcodes strategy v x false true b'' e e' e'' h =
      inr (inl ((eq_iff strategy "deserialize").0 e', deserialized-ok v x h))
  by_strategy-Transcodes strategy v x false false true e e' e'' h =
      inr (inr ((eq_iff strategy "").0 e'', cc))
  by_strategy-Transcodes strategy v x false false false e e' e'' h = cc

  transcode-Transcodes :
      (strategy : String) (v x : Value) → transcode json v strategy ≡ ok x → Transcodes strategy v x
  unfolding transcode by_strategy
  transcode-Transcodes strategy v x h = by_strategy-Transcodes strategy v x _ _ _ refl refl refl h

  Transcodes-transcode :
      (strategy : String) (v x : Value) → Transcodes strategy v x → transcode json v strategy ≡ ok x
  unfolding transcode serialized deserialized unmarshalled_over
  Transcodes-transcode strategy v x (inl (e, (s, m, at))) = rw (e, m, at)
  Transcodes-transcode strategy v x (inr (inl (e, (s, is_text, inl parsed)))) =
      rw (e, is_text, parsed)
  Transcodes-transcode strategy v x (inr (inl (e, (s, is_text, inr (x', failed, at))))) =
      rw (e, at, is_text, failed)
  Transcodes-transcode strategy v x (inr (inr (e, at))) = rw (e, at)

  module _ {W : Type 0} (config : JsonConfig) (ctx : Context) (input : Value) (f : Fn W)
      (w : W) where
    -- An invocation returns a value without an error exactly when the fn returns one without an error
    -- for what the input strategy makes of the input, and the value is what the output strategy makes
    -- of that. "serialize" makes the JSON text, "deserialize" the value that a text parses to, or
    -- the text itself if it does not parse, and the empty strategy leaves a value as it is; no other
    -- strategy makes anything.
    pub invoke-ok_iff :
        (v : Value) (w' : W)
        → (invoke json config ctx input f w ≡ (returns v none, w')) ↔ (
            (x : Value) × (y : Value) × Transcodes config.input input x
            × (f ctx x w ≡ (returns y none, w'))
            × Transcodes config.output y v)
    unfolding invoke
    invoke-ok_iff v w' = (
      λ h.
          let (x, e, e₁) = or_reply-returns (transcode json input config.input) _ w h in
          let (y, e₂, e₃, e₄) =
            transcode_reply-returns config.output (f ctx x w).0 (f ctx x w).1 e₁ in
          (
            x,
            y,
            transcode-Transcodes config.input input x e,
            ap₂ (λ (r : Reply) (u : W). (r, u)) e₂ e₃,
            transcode-Transcodes config.output y v e₄,
          ),
      λ (x, y, t, e', t').
          let e = Transcodes-transcode config.input input x t in
          let e₅ = Transcodes-transcode config.output y v t' in rw (invoke, e, e', e₅),
    )

-- A middleware that prints its input and parses the output, and one that undoes both.
abbrev pub printing : JsonConfig
printing = record { input = "serialize"; output = "deserialize" }

abbrev pub parsing : JsonConfig
parsing = record { input = "deserialize"; output = "serialize" }

module _ {W : Type 0} (json : Json) where
  -- If the input and the fn's output are recovered by parsing what they print to, a pipeline that
  -- prints, and parses again, before the fn, and prints and parses behind it, is not noticed: it
  -- gives what the fn gives on the input itself.
  pub compose-roundtrip :
      (v y : Value) (s t : String) (f : Fn W) (ctx : Context) (w w' : W)
      → json.marshal v ≡ ok s
      → json.unmarshal s ≡ ok v
      → f ctx v w ≡ (returns y none, w')
      → json.marshal y ≡ ok t
      → json.unmarshal t ≡ ok y
      → compose (invoke json printing ∷ invoke json parsing ∷ []) ctx v f w ≡ (returns y none, w')
  unfolding invoke transcode nest
  compose-roundtrip v y s t f ctx w w' m u e m' u' =
      compose-nest (invoke json printing ∷ invoke json parsing ∷ []) f ctx v w
      ∙ rw (nest, invoke, transcode, m, serialized, u, deserialized, unmarshalled_over, e, m', u')
