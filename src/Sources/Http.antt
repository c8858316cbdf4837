-- ===== src/Sources/Http.antt =====
-- run/source/http: the requests to a server are the inputs, and the outputs are its responses.
pub mod Answering
pub mod Running
use fnrun.Prelude.{
  ℕ, zero, String, Bool, true, false, Option, none, some, List, [], ◌∷◌, if◌then◌else◌, str_eq,
  insert,
}
use fnrun.Value.{
  Value, null, str, int, int32, int64, float64, bool, object, array, string_map, string_lists,
  other, Fields, end, field, type_name,
}
use fnrun.Value.Int.{ℤ, pos, negsuc}
use fnrun.Exec.{
  Error, Context, Result, ok, err, panic, hang, Reply, returns, panics, hangs, Fn, Exec, pure,
  Method, then_assign, ◌>>=◌,
}

-- httpSource, with the fields that are decoded; a duration is a number of nanoseconds
pub record HttpSource : Type 0 where
  pub addr : String
  pub tls_key_file : String
  pub tls_cert_file : String
  pub base64_encode_body : Bool
  pub treat_output_as_body : Bool
  pub default_headers : List (String × String)
  pub ignore_output : Bool
  pub shutdown_grace_period : ℤ

-- httpSource with its listener, which is nil until ConfigureMap
pub record Listening (Listener : Type 0) : Type 0 where
  pub settings : HttpSource
  pub listener : Option Listener

-- New
unfoldable pub new : {Listener : Type 0} → Listening Listener
new = record {
  settings = record {
    addr = ":8080";
    tls_key_file = "";
    tls_cert_file = "";
    base64_encode_body = false;
    treat_output_as_body = false;
    default_headers = [];
    ignore_output = false;
    shutdown_grace_period = pos 10000000000;
  };
  listener = none;
}

-- ConfigureMap; the parameters are mapstructure's decoder into the source, which may be changed also
-- when it fails, and net.Listen
module _ {Listener W : Type 0} (listen : String → Exec W Listener) where
  abbrev pub after_decode :
      Result (Unit {0}) × HttpSource → Option Listener → Method (Listening Listener) W
  after_decode (ok _, settings) before w =
      then_assign (listen settings.addr) (λ ln. record { settings = settings; listener = some ln })
        (record { settings = settings; listener = before }) w
  after_decode (err e, settings) before w =
      (err e, record { settings = settings; listener = before }, w)
  after_decode (panic, settings) before w =
      (panic, record { settings = settings; listener = before }, w)
  after_decode (hang, settings) before w =
      (hang, record { settings = settings; listener = before }, w)

  unfoldable pub configure_map :
      (Fields → HttpSource → Result (Unit {0}) × HttpSource)
      → Fields
      → Listening Listener
      → Method (Listening Listener) W
  configure_map decode fs h w = after_decode (decode fs h.settings) h.listener w

-- http.Request, with what the code asks of it: fields, the body as ReadAll gives it, Cookies() in
-- order, and the maps Header and URL.Query().
pub record Request : Type 0 where
  pub host : String
  pub remote_addr : String
  pub method : String
  pub scheme : String
  pub content_length : ℤ
  pub url : String
  pub body : Result String
  pub cookies : List (String × String)
  pub header : List (String × List String)
  pub query : List (String × List String)

-- The three loops of createInput, from the map that is filled.
unfoldable pub add_cookies :
    List (String × String) → List (String × String) → List (String × String)
add_cookies [] cookies = cookies
add_cookies ((name, value) ∷ rest) cookies = add_cookies rest (insert name value cookies)

unfoldable pub add_headers :
    List (String × List String) → List (String × List String) → List (String × List String)
add_headers [] headers = headers
add_headers ((k, v) ∷ rest) headers =
    add_headers rest (if str_eq k "Cookie" then headers else insert k v headers)

unfoldable pub add_query :
    List (String × List String) → List (String × List String) → List (String × List String)
add_query [] query = query
add_query ((k, v) ∷ rest) query = add_query rest (insert k v query)

module _ (base64 : String → String) (h : HttpSource) where
  -- createInput, once the body has been read; the parameter is base64's EncodeToString
  unfoldable pub input_with_body : Request → String → Value
  unfolding add_cookies add_headers add_query
  input_with_body r bytes = object (
      field "host" (str r.host) (
        field "remoteAddress" (str r.remote_addr) (
          field "method" (str r.method) (
            field "protocol" (str r.scheme) (
              field "contentLength" (int64 r.content_length) (
                field "url" (str r.url) (
                  field "body" (str (if h.base64_encode_body then base64 bytes else bytes)) (
                    field "cookies" (string_map (add_cookies r.cookies [])) (
                      field "headers" (string_lists (add_headers r.header []))
                        (field "query" (string_lists (add_query r.query [])) end))))))))))

  unfoldable pub create_input_from : Request → Result String → Result Value
  unfolding input_with_body
  create_input_from r (ok bytes) = ok (input_with_body r bytes)
  create_input_from r (err e) = err e
  create_input_from r panic = panic
  create_input_from r hang = hang

  unfoldable pub create_input : Request → Result Value
  unfolding create_input_from
  create_input r = create_input_from r r.body

-- The struct that writeResponse decodes into.
pub record Response : Type 0 where
  pub headers : List (String × String)
  pub body : String
  pub status_code : ℤ

-- http.ResponseWriter, http.Error, log.Printf, and what they are given of errors and outputs.
-- WriteHeader may panic.
pub record Server (W : Type 0) : Type 0 where
  pub add_header : String → String → W → W
  pub write_header : ℤ → Exec W (Unit {0})
  pub write : String → Exec W (Unit {0})
  pub http_error : String → ℤ → W → W
  pub log_error : Error → W → W
  pub log_type : String → W → W
  pub message_of : Error → String
  pub sprint : Value → String
  -- mapstructure.Decode into the zero struct
  pub decode : Fields → Result Response

-- the status 0 stands for 200
unfoldable pub or_ok : ℤ → ℤ
or_ok (pos zero) = pos 200
or_ok code = code

module _ {W : Type 0} (server : Server W) where
  unfoldable pub add_all_headers : List (String × String) → W → W
  add_all_headers [] w = w
  add_all_headers ((key, value) ∷ rest) w = add_all_headers rest (server.add_header key value w)

  -- `if len(resp.Headers) == 0 { ... }` and the loop after it
  unfoldable pub write_headers : HttpSource → List (String × String) → W → W
  unfolding add_all_headers
  write_headers h [] w = add_all_headers h.default_headers w
  write_headers h (entry ∷ rest) w = add_all_headers (entry ∷ rest) w

  unfoldable pub write_decoded : HttpSource → Result Response → Exec W (Unit {0})
  unfolding write_headers or_ok
  write_decoded h (ok resp) w =
      (do
        _ ← server.write_header (or_ok resp.status_code)
        if h.ignore_output then pure tt else server.write resp.body)
        (write_headers h resp.headers w)
  write_decoded h (err e) w = (err e, w)
  write_decoded h panic w = (panic, w)
  write_decoded h hang w = (hang, w)

  -- writeResponse
  unfoldable pub write_response : HttpSource → Fields → Exec W (Unit {0})
  unfolding write_decoded
  write_response h m = write_decoded h (server.decode m)

  -- `if err := h.writeResponse(...); err != nil { log; ... }`
  abbrev pub or_log : Result (Unit {0}) × W → Exec W (Unit {0}) → Result (Unit {0}) × W
  or_log (err e, w) then_do = then_do (server.log_error e w)
  or_log r then_do = r

  -- the error of `w.Write(...)` is not read
  abbrev pub dropped : Result (Unit {0}) × W → Result (Unit {0}) × W
  dropped (err e, w) = (ok tt, w)
  dropped r = r

  -- makeHandler, on the output of the fn.
  unfoldable pub answer_output : HttpSource → Value → Exec W (Unit {0})
  unfolding write_response type_name
  answer_output h (object m) w = or_log (write_response h m w) (server.write_header (pos 500))
  answer_output h output w = server.write_header (pos 500) (server.log_type (type_name output) w)

  -- makeHandler, once the fn is done; a panic goes on to the server.
  unfoldable pub answer : HttpSource → Reply → Exec W (Unit {0})
  unfolding answer_output
  answer h (returns output (some e)) w =
      dropped ((do _ ← server.write_header (pos 500); server.write (server.message_of e)) w)
  answer h (returns output none) w =
      if h.treat_output_as_body
      then or_log (write_response h (field "body" (str (server.sprint output)) end) w) (pure tt)
      else answer_output h output w
  answer h panics w = (panic, w)
  answer h hangs w = (hang, w)

  -- The handler of makeHandler, on the result of createInput.
  unfoldable pub handle_input : HttpSource → Context → Fn W → Result Value → Exec W (Unit {0})
  unfolding answer
  handle_input h ctx f (ok input) w = let (r, w') = f ctx input w in answer h r w'
  handle_input h ctx f (err e) w = (ok tt, server.http_error (server.message_of e) (pos 500) w)
  handle_input h ctx f panic w = (panic, w)
  handle_input h ctx f hang w = (hang, w)

  unfoldable pub handle :
      (String → String) → HttpSource → Context → Fn W → Request → Exec W (Unit {0})
  unfolding handle_input create_input
  handle base64 h ctx f r = handle_input h ctx f (create_input base64 h r)
