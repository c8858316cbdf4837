-- ===== src/Sources/Lambda/Posting.antt =====
-- What is posted for an invocation.
use fnrun.Prelude.{String, Option, none, some, List, [], ◌∷◌, ◌++◌}
use fnrun.Value.{Value}
use fnrun.Exec.{Result, ok, err, panic, hang, Reply, returns, panics, hangs, Fn}
use fnrun.Sources.Lambda.{Url, error_url, response_url, Runtime, response_data}

-- A runtime API that remembers the posts, and answers them as a function of what they are.
abbrev pub Posted : Type 0 → Type 0
Posted W = List (Url × String) × W

abbrev pub silent : {W : Type 0} → Fn W → Fn (Posted W)
silent f ctx input (posts, w) = ((f ctx input w).0, (posts, (f ctx input w).1))

abbrev pub recording :
    {W : Type 0} → (Url → String → Result (Unit {0})) → Runtime W → Runtime (Posted W)
recording answer runtime = record {
  ctx_err = λ ctx (posts, w). runtime.ctx_err ctx w;
  get_next = λ api (posts, w). ((runtime.get_next api w).0, (posts, (runtime.get_next api w).1));
  post = λ api url s (posts, w). (answer url s, (posts ++ (url, s) ∷ [], w));
  parse_int = runtime.parse_int;
  unmarshal = runtime.unmarshal;
  marshal = runtime.marshal;
  marshal_error = runtime.marshal_error;
  sprint = runtime.sprint;
}

module _ {W : Type 0} (answer : Url → String → Result (Unit {0})) (runtime : Runtime W) where
  -- The post for a reply, if what it needs can be encoded: the error to the invocation's error URL,
  -- or else the output to its response URL.
  abbrev pub post_for : String → Reply → Option (Url × Result String)
  post_for id (returns output (some e)) = some (error_url id, runtime.marshal_error e)
  post_for id (returns output none) = some (response_url id, response_data runtime output)
  post_for id panics = none
  post_for id hangs = none

  abbrev pub encoded : Option (Url × Result String) → List (Url × String)
  encoded (some (url, ok s)) = (url, s) ∷ []
  encoded _ = []

  -- What the round returns: the runtime's refusal of an error report, but not of a response.
  abbrev pub unless_refused : Url → String → Result (Unit {0})
  unless_refused (error_url id) s = answer (error_url id) s
  unless_refused (response_url id) s = elim (answer (response_url id) s) [
    | err e ↦ ok tt
    | ok _ ↦ ok tt
    | panic ↦ panic
    | hang ↦ hang
  ]

  abbrev pub outcome : Reply → Option (Url × Result String) → Result (Unit {0})
  outcome r (some (url, ok s)) = unless_refused url s
  outcome r (some (url, err e)) = err e
  outcome r (some (url, panic)) = panic
  outcome r (some (url, hang)) = hang
  outcome panics none = panic
  outcome r none = hang

  -- The given invocation is answered.
  abbrev pub respond_with : String → Reply → Posted W → Result (Unit {0}) × Posted W
  respond_with id r (posts, w) = (outcome r (post_for id r), (posts ++ encoded (post_for id r), w))
