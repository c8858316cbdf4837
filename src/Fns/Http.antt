-- ===== src/Fns/Http.antt =====
-- run/fn/http: the input is posted to a server, and the output is its answer.
use fnrun.Prelude.{
  ◌+◌, ◌≡◌, refl, ap, sym, ◌∙◌, ◌↔◌, String, Bool, true, false, none, some, ltb→lt, lt→ltb, arith,
}
use fnrun.Value.{Value, null, str, Fields}
use fnrun.Value.Int.{ℤ, pos, pos_part, neg_part, ltb_ℤ, ◌≤ℤ◌}
use fnrun.Exec.{
  text, Context, Result, ok, err, panic, hang, Reply, returns, panics, hangs, Fn, Exec, Method,
}

-- httpFnConfig
pub record HttpFnConfig : Type 0 where
  pub target_url : String
  pub content_type : String

-- http.Response, with the body as ReadAll gives it
pub record Response : Type 0 where
  pub status_code : ℤ
  pub body : Result String

-- ConfigureMap: mapstructure.Decode into the configuration, also when it fails
unfoldable pub configure_map :
    {W : Type 0}
    → (Fields → HttpFnConfig → Result (Unit {0}) × HttpFnConfig)
    → Fields
    → HttpFnConfig
    → Method HttpFnConfig W
configure_map decode config_map h w = ((decode config_map h).0, (decode config_map h).1, w)

-- New
unfoldable pub new : HttpFnConfig
new = record { target_url = ""; content_type = "application/json" }

-- The test of the status, on the body that was read.
abbrev pub by_status : Bool → String → Reply
by_status true output = returns (str output) none
by_status false output = returns null (some (text output))

-- Invoke, once the response's body is read.
unfoldable pub reply_of : ℤ → Result String → Reply
reply_of status_code (ok output) = by_status (ltb_ℤ status_code (pos 400)) output
reply_of status_code (err e) = returns null (some e)
reply_of status_code panic = panics
reply_of status_code hang = hangs

module _ {W : Type 0} (post : String → String → String → Exec W Response) where
  -- Invoke, on the result of http.Post.
  unfoldable pub after_post : Result Response × W → Reply × W
  unfolding reply_of
  after_post (ok resp, w) = (reply_of resp.status_code resp.body, w)
  after_post (err e, w) = (returns null (some e), w)
  after_post (panic, w) = (panics, w)
  after_post (hang, w) = (hangs, w)

  -- Invoke; the parameter is http.Post
  unfoldable pub invoke : HttpFnConfig → Fn W
  unfolding after_post
  invoke h ctx (str body) w = after_post (post h.target_url h.content_type body w)
  invoke h ctx input w = (returns null (some (text "expected input to be a string")), w)

by_status-returns :
    (n : ℤ) (b : Bool) (output : String) (v : Value)
    → ltb_ℤ n (pos 400) ≡ b
    → by_status b output ≡ returns v none
    → (◌≤ℤ◌ n (pos 399)) × (v ≡ str output)
by_status-returns n true output v e h = (omega (arith, ltb→lt _ _ e), cc)
by_status-returns n false output v e h = cc

reply_of-returns :
    (n : ℤ) (r : Result String) (v : Value)
    → reply_of n r ≡ returns v none
    → (output : String) × (r ≡ ok output) × (◌≤ℤ◌ n (pos 399)) × (v ≡ str output)
unfolding reply_of
reply_of-returns n (ok output) v h =
    let (le, ev) = by_status-returns n (ltb_ℤ n (pos 400)) output v refl h in (output, refl, le, ev)
reply_of-returns n (err e) v h = cc
reply_of-returns n panic v h = cc
reply_of-returns n hang v h = cc

below-by_status :
    (n : ℤ) (output : String)
    → ◌≤ℤ◌ n (pos 399)
    → reply_of n (ok output) ≡ returns (str output) none
unfolding reply_of
below-by_status n output h =
    ap (λ b. by_status b output) (lt→ltb (pos_part n + 0) (400 + neg_part n) (omega (arith, h)))

module _ {W : Type 0} (post : String → String → String → Exec W Response) (h : HttpFnConfig)
    (ctx : Context) where
  -- What an invocation needs to succeed.
  abbrev pub Answered : Value → W → Value → W → Type 0
  Answered input w v w' =
      (body : String) × (resp : Response) × (output : String) × (input ≡ str body)
      × (post h.target_url h.content_type body w ≡ (ok resp, w'))
      × (resp.body ≡ ok output)
      × (◌≤ℤ◌ resp.status_code (pos 399))
      × (v ≡ str output)

  after_post-returns :
      (body : String) (r : Result Response) (u w w' : W) (v : Value)
      → post h.target_url h.content_type body w ≡ (r, u)
      → after_post post (r, u) ≡ (returns v none, w')
      → Answered (str body) w v w'
  unfolding after_post
  after_post-returns body (ok resp) u w w' v e h =
      let (output, eb, le, ev) =
        reply_of-returns resp.status_code resp.body v (ap (λ (x : Reply × W). x.0) h) in
      (
        body,
        resp,
        output,
        refl,
        e ∙ ap (λ z. (ok resp, z)) (ap (λ (x : Reply × W). x.1) h),
        eb,
        le,
        ev,
      )
  after_post-returns body (err x) u w w' v e h = cc
  after_post-returns body panic u w w' v e h = cc
  after_post-returns body hang u w w' v e h = cc

  -- The fn returns a value without an error exactly when the input is a string, posting it gives
  -- a response whose body can be read and whose status is below 400, and the value is that body.
  pub invoke-Answered :
      (input : Value) (w : W) (v : Value) (w' : W)
      → (invoke post h ctx input w ≡ (returns v none, w')) ↔ Answered input w v w'
  unfolding invoke
  invoke-Answered input w v w' = (
    answered input,
    λ (body, resp, output, ei, ep, eb, le, ev).
        ap (λ x. invoke post h ctx x w) ei
        ∙ ap (after_post post) ep
        ∙ ap (λ b. (reply_of resp.status_code b, w')) eb
        ∙ ap (λ (r : Reply). (r, w')) (below-by_status resp.status_code output le)
        ∙ ap (λ x. (returns x none, w')) (sym ev),
  )
    where
      answered :
          (input : Value) → invoke post h ctx input w ≡ (returns v none, w') → Answered input w v w'
      answered (str body) e =
          after_post-returns body (post h.target_url h.content_type body w).0
            (post h.target_url h.content_type body w).1 w w' v refl e
      answered _ e = cc
