-- ===== src/Tests/Sources.antt =====
-- The sources, and the fn that posts, on small inputs.
use fnrun.Prelude.{
  ℕ, ◌+◌, ◌==◌, String, ◌≡◌, refl, ◌↔◌, Bool, true, false, none, some, List, [], ◌∷◌, if◌then◌else◌,
  arith,
}
use fnrun.Value.{Value, null, str, Fields, end, field, object}
use fnrun.Value.Int.{pos}
use fnrun.Exec.{Error, text, foreign, Result, ok, err, returns, Exec, pure, Fn}
use fnrun.Sources.Kafka.{ConsumerMessage, Consumer, consume_claim}
use fnrun.Sources.Kafka.Marking
use fnrun.Sources.Kafka.Marking.{consume_claim-Marks}
use fnrun.Sources.Kafka.Serving.{rounds, cancelled, again, rounds-Rounds}
use fnrun.Sources.Http.{HttpSource, Request, Response, create_input, handle}
use fnrun.Sources.Http.Answering
use fnrun.Sources.Http.Answering.{handle-input_calls}
use fnrun.Sources.Sqs.{handle_batch}
use fnrun.Sources.Sqs
use fnrun.Sources.Sqs.Deleting
use fnrun.Sources.Sqs.Deleting.{handle_batch-Deletes}
use fnrun.Sources.ServiceBus
use fnrun.Sources.ServiceBus.{queue_handler, serve_queue, dlq_handler, Bus}
use fnrun.Sources.ServiceBus.Settling
use fnrun.Sources.ServiceBus.Settling.{handlers_settle, Settlement, abandoned}
use fnrun.Sources.Lambda
use fnrun.Sources.Lambda.{LambdaSource, Runtime}
use fnrun.Sources.Lambda.Posting
use fnrun.Fns.Http.{HttpFnConfig, Answered, invoke-Answered}
use fnrun.Fns.Http as HttpFn
use fnrun.Tests.World.{background, echo}

-- A fn that fails at its second invocation.
abbrev second_fails : Fn ℕ
second_fails ctx input w = (returns null (if w == 1 then some (text "no") else none), w + 1)

abbrev message : String → ConsumerMessage
message key = record {
  key = key;
  value = "v";
  offset = pos 0;
  partition = pos 0;
  topic = "t";
  timestamp = 0;
}

abbrev three : List ConsumerMessage
three = message "a" ∷ message "b" ∷ message "c" ∷ []

abbrev strict : Consumer ℕ
strict = record { ctx = background; f = second_fails; ignore_errors = false }

consume_claim_run :
    consume_claim Marking.append_mark (Marking.recording strict) three ([], 0)
    ≡ (err (text "no"), (message "a" ∷ [], 2))
unfolding consume_claim
consume_claim_run = refl

consume_claim-Marks_example :
    Marking.Marks strict three [] 0
      (consume_claim Marking.append_mark (Marking.recording strict) three ([], 0))
consume_claim-Marks_example = consume_claim-Marks strict three [] 0

-- A group that is cancelled after one call of Consume.
abbrev is_done : ℕ → Bool
is_done w = w == 1

abbrev consume : Exec ℕ (Unit {0})
consume w = (ok tt, w + 1)

rounds-Rounds_example : rounds 2 is_done consume 0 ≡ some (ok tt, 1)
rounds-Rounds_example =
    rounds-Rounds is_done consume 1 2 0 1 (ok tt)
      (again 0 0 1 1 (ok tt) refl refl (cancelled 1 refl)) (omega arith)

abbrev http : HttpSource
http = record {
  addr = ":8080";
  tls_key_file = "";
  tls_cert_file = "";
  shutdown_grace_period = pos 10000000000;
  base64_encode_body = false;
  treat_output_as_body = false;
  default_headers = ("a", "b") ∷ [];
  ignore_output = false;
}

abbrev request : Request
request = record {
  host = "h";
  remote_addr = "r";
  method = "GET";
  scheme = "";
  content_length = pos 0;
  url = "/";
  body = ok "";
  cookies = [];
  header = [];
  query = [];
}

abbrev message_of : Error → String
message_of e = "message"

abbrev sprint : Value → String
sprint v = "printed"

abbrev decode : Fields → Result Response
decode fs = ok (record { headers = []; body = "body"; status_code = pos 0 })

handle_run :
    (handle
      (Answering.recording message_of sprint decode)
      (λ s. s)
      http
      background
      (Answering.silent echo)
      request
      ([], 0)).1
    ≡ (Answering.header "a" "b" ∷ Answering.status (pos 200) ∷ Answering.body "body" ∷ [], 100)
unfolding handle
handle_run = refl

handle-input_calls_example :
    (handle
      (Answering.recording message_of sprint decode)
      (λ s. s)
      http
      background
      (Answering.silent echo)
      request
      ([], 0)).1
    ≡ (
      Answering.input_calls message_of sprint decode http echo background
          (create_input (λ s. s) http request)
          0,
      Answering.world_after echo background (create_input (λ s. s) http request) 0,
    )
handle-input_calls_example =
    handle-input_calls message_of sprint decode http (λ s. s) echo background request [] 0

abbrev queued : String → Sqs.Message
queued handle = record { message_id = some "id"; body = some "body"; receipt_handle = some handle }

abbrev batch : List Sqs.Message
batch = queued "a" ∷ queued "b" ∷ queued "c" ∷ []

handle_batch_run :
    handle_batch Deleting.delete (Deleting.silent second_fails) background batch ([], 0)
    ≡ (ok tt, (some "a" ∷ some "c" ∷ [], 3))
unfolding handle_batch
handle_batch_run = refl

handle_batch-Deletes_example :
    Deleting.Deletes second_fails background batch [] 0
      (handle_batch Deleting.delete (Deleting.silent second_fails) background batch ([], 0))
handle_batch-Deletes_example = handle_batch-Deletes second_fails background batch [] 0

abbrev letter : ServiceBus.Message
letter = record { content_type = "text"; data_text = "x" }

abbrev bus : Bus ℕ (Settling.Settled ℕ)
bus = record {
  new_queue = λ conn name. pure 1;
  new_dead_letter = λ queue. 2;
  close = λ queue w. w;
  receive_one = λ queue handler. handler letter;
  abandon = λ msg. pure tt;
  complete = λ msg. pure tt;
  log_abandoning = λ e w. w;
  log_settling = λ e w. w;
}

abbrev lost_lock : Settlement → Result (Unit {0})
lost_lock s = err (foreign "lock lost")

handlers_settle_example :
    (queue_handler
        (Settling.recording lost_lock bus)
        (Settling.silent second_fails)
        background
        letter
        ([], 1)
      ≡ (err (foreign "lock lost"), (abandoned letter ∷ [], 2)))
    × (dlq_handler
          (Settling.recording lost_lock bus)
          (Settling.silent second_fails)
          background
          letter
          ([], 1)
        ≡ (ok tt, (abandoned letter ∷ [], 2)))
    × (serve_queue
          (Settling.recording lost_lock bus)
          2
          1
          background
          (Settling.silent second_fails)
          ([], 1)
        ≡ some (err (foreign "lock lost"), (abandoned letter ∷ [], 2)))
    × (ServiceBus.rounds
          (Settling.recording lost_lock bus)
          2
          1
          (dlq_handler (Settling.recording lost_lock bus) (Settling.silent second_fails) background)
          ([], 1)
        ≡ ServiceBus.rounds
            (Settling.recording lost_lock bus)
            1
            1
            (dlq_handler
              (Settling.recording lost_lock bus)
              (Settling.silent second_fails)
              background)
            (abandoned letter ∷ [], 2))
handlers_settle_example =
    handlers_settle lost_lock bus second_fails background letter [] 1
      (returns null (some (text "no"))) 2 1 1 refl (λ handler. refl)

abbrev invocation : Lambda.Response
invocation = record {
  request_id = "id";
  deadline_ms = "";
  function_arn = "";
  trace_id = "";
  body = ok "event";
}

abbrev api : Runtime ℕ
api = record {
  ctx_err = λ ctx w. none;
  get_next = λ url w. (ok invocation, w + 1);
  post = λ url at s. pure tt;
  parse_int = λ s. err (foreign "syntax");
  unmarshal = λ s. ok end;
  marshal = λ fs. ok "{}";
  marshal_error = λ e. ok "error";
  sprint = sprint;
}

abbrev lambda : LambdaSource
lambda = record { json_deserialize_event = true; runtime_api = "localhost" }

abbrev accept : Lambda.Url → String → Result (Unit {0})
accept url s = ok tt

-- The input: an empty event, and the identifier of the request.
abbrev event : Value
event = object (field "LambdaRuntimeAwsRequestId" (str "id") (field "event" (object end) end))

abbrev post : String → String → String → Exec ℕ HttpFn.Response
post url content_type body w = (ok (record { status_code = pos 200; body = ok "answer" }), w + 1)

abbrev target : HttpFnConfig
target = record { target_url = "http://target"; content_type = "text/plain" }

invoke-Answered_example :
    (HttpFn.invoke post target background (str "x") 0 ≡ (returns (str "answer") none, 1))
    ↔ Answered post target background (str "x") 0 (str "answer") 1
invoke-Answered_example = invoke-Answered post target background (str "x") 0 (str "answer") 1
