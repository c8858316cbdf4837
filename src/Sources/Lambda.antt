-- ===== src/Sources/Lambda.antt =====
-- run/source/lambda: the invocations that the runtime interface of AWS Lambda hands out.
pub mod Posting
use fnrun.Prelude.{
  ℕ, zero, suc, String, Bool, true, false, Option, none, some, List, [], ◌∷◌, if◌then◌else◌, str_eq,
}
use fnrun.Value.{
  Value, null, str, int, int32, int64, float64, bool, object, array, string_map, string_lists,
  other, Fields, end, field, put,
}
use fnrun.Value.Int.{ℤ}
use fnrun.Exec.{
  Error, Context, Result, ok, err, panic, hang, Reply, returns, panics, hangs, Fn, Exec, ◌>>=◌,
  pure, Method,
}

-- lambdaSource
pub record LambdaSource : Type 0 where
  pub json_deserialize_event : Bool
  pub runtime_api : String

-- http.Response, with the headers that are read and the body as ReadAll gives it.
pub record Response : Type 0 where
  pub request_id : String
  pub deadline_ms : String
  pub function_arn : String
  pub trace_id : String
  pub body : Result String

-- The URLs below `http://<runtimeAPI>/2018-06-01/runtime/invocation`.
pub data Url : Type 0 where
  error_url : String → Url
  response_url : String → Url

-- ctx.Err(), http.Get of the next invocation, http.Post to an URL of the runtime API, strconv.ParseInt,
-- encoding/json, and printing.
pub record Runtime (W : Type 0) : Type 0 where
  pub ctx_err : Context → W → Option Error
  pub get_next : String → Exec W Response
  pub post : String → Url → String → Exec W (Unit {0})
  pub parse_int : String → Result ℤ
  pub unmarshal : String → Result Fields
  pub marshal : Fields → Result String
  -- of the struct with the error's message and the type "FunctionExecutionError"
  pub marshal_error : Error → Result String
  pub sprint : Value → String

-- `if s != "" { input[key] = s }`
unfoldable pub put_given : String → String → Fields → Fields
put_given key s input = if str_eq s "" then input else put key (str s) input

-- ConfigureMap: mapstructure.Decode into the source, also when it fails
unfoldable pub configure_map :
    {W : Type 0}
    → (Fields → LambdaSource → Result (Unit {0}) × LambdaSource)
    → Fields
    → LambdaSource
    → Method LambdaSource W
configure_map decode config_map l w = ((decode config_map l).0, (decode config_map l).1, w)

-- New; the parameter is AWS_LAMBDA_RUNTIME_API
unfoldable pub new : String → LambdaSource
new runtime_api = record { json_deserialize_event = true; runtime_api = runtime_api }

module _ {W : Type 0} (runtime : Runtime W) where
  abbrev pub put_parsed : Result ℤ → Fields → Fields
  put_parsed (ok ms) input = put "LambdaRuntimeDeadlineMs" (int64 ms) input
  put_parsed r input = input

  -- The test on the header of the deadline, which is left out where it is no number.
  unfoldable pub put_deadline : String → Fields → Fields
  put_deadline s input = if str_eq s "" then input else put_parsed (runtime.parse_int s) input

  -- The four tests on the headers.
  unfoldable pub header_fields : Response → Fields
  unfolding put_given put_deadline
  header_fields resp = put_given "LambdaRuntimeTraceId" resp.trace_id (
      put_given "LambdaRuntimeInvokedFunctionArn" resp.function_arn
        (put_deadline resp.deadline_ms (put_given "LambdaRuntimeAwsRequestId" resp.request_id end)))

  abbrev pub with_event : Fields → Result Fields → Result Value
  with_event input (ok event) = ok (object (put "event" (object event) input))
  with_event input (err e) = err e
  with_event input panic = panic
  with_event input hang = hang

  -- createInput, on the body as it is read
  unfoldable pub create_input_of : LambdaSource → Response → Result String → Result Value
  unfolding header_fields
  create_input_of l resp (ok bytes) =
      if l.json_deserialize_event
      then with_event (header_fields resp) (runtime.unmarshal bytes)
      else ok (object (put "event" (str bytes) (header_fields resp)))
  create_input_of l resp (err e) = err e
  create_input_of l resp panic = panic
  create_input_of l resp hang = hang

  unfoldable pub create_input : LambdaSource → Response → Result Value
  unfolding create_input_of
  create_input l resp = create_input_of l resp resp.body

  -- postError
  unfoldable pub post_error : LambdaSource → String → Error → Exec W (Unit {0})
  post_error l invocation_id e = do
    data_text ← (λ w. (runtime.marshal_error e, w))
    runtime.post l.runtime_api (error_url invocation_id) data_text

  -- The type switch on the output.
  unfoldable pub response_data : Value → Result String
  response_data (object m) = runtime.marshal m
  response_data output = ok (runtime.sprint output)

  -- the result of the last Post is not read
  abbrev pub ignored : Result (Unit {0}) × W → Result (Unit {0}) × W
  ignored (err e, w) = (ok tt, w)
  ignored r = r

  -- The rest of the loop's body once the fn is done. An error here is what Serve returns.
  unfoldable pub respond : LambdaSource → String → Reply × W → Result (Unit {0}) × W
  unfolding post_error response_data
  respond l invocation_id (returns output (some e), w) = post_error l invocation_id e w
  respond l invocation_id (returns output none, w) =
      ((λ u. (response_data output, u)) >>= (λ data_text u.
          ignored (runtime.post l.runtime_api (response_url invocation_id) data_text u)))
        w
  respond l invocation_id (panics, w) = (panic, w)
  respond l invocation_id (hangs, w) = (hang, w)

  -- One round of the loop of Serve.
  unfoldable pub round : LambdaSource → Context → Fn W → Exec W (Unit {0})
  unfolding create_input respond
  round l ctx f w = elim (runtime.ctx_err ctx w) [
    | some e ↦ (err e, w)
    | none ↦
        (do
          resp ← runtime.get_next l.runtime_api
          input ← (λ u. (create_input l resp, u))
          (λ u. respond l resp.request_id (f ctx input u)))
          w
  ]

  abbrev pub after_round :
      (W → Option (Result (Unit {0}) × W)) → Result (Unit {0}) × W → Option (Result (Unit {0}) × W)
  after_round next (ok _, w) = next w
  after_round next r = some r

  -- Serve, for the number of rounds that is given; none while it is not over
  unfoldable pub serve : ℕ → LambdaSource → Context → Fn W → W → Option (Result (Unit {0}) × W)
  unfolding round
  serve zero l ctx f w = none
  serve (suc n) l ctx f w = after_round (λ u. serve n l ctx f u) (round l ctx f w)
