-- ===== src/Sources/Http/Answering.antt =====
-- What the handler answers to a request, call by call of the response writer.
use fnrun.Prelude.{
  zero, ◌≡◌, refl, sym, ap, ◌∙◌, String, Bool, true, false, none, some, List, [], ◌∷◌, ◌++◌,
  append_assoc, append-nil, inl, inr, Bool-cases, if◌then◌else◌,
}
use fnrun.Value.{Value, str, object, Fields, end, field}
use fnrun.Value.Int.{ℤ, pos}
use fnrun.Exec.{
  Error, Context, Result, ok, err, panic, hang, Reply, returns, panics, hangs, Fn, Exec, pure,
}
use fnrun.Sources.Http.{
  HttpSource, Request, create_input, Response, Server, add_all_headers, write_headers, or_ok,
  write_decoded, write_response, or_log, answer_output, answer, handle_input, handle,
}

-- A call of the response writer.
pub data Call : Type 0 where
  header : String → String → Call
  status : ℤ → Call
  body : String → Call
  error_page : String → ℤ → Call

-- A writer that accepts every call and remembers it, beside what the fn works on.
abbrev pub Written : Type 0 → Type 0
Written W = List Call × W

abbrev pub silent : {W : Type 0} → Fn W → Fn (Written W)
silent f ctx input (calls, w) = ((f ctx input w).0, (calls, (f ctx input w).1))

abbrev pub note : {W : Type 0} → Call → Written W → Written W
note call (calls, w) = (calls ++ call ∷ [], w)

abbrev pub recording :
    {W : Type 0}
    → (Error → String)
    → (Value → String)
    → (Fields → Result Response)
    → Server (Written W)
recording message_of sprint decode = record {
  add_header = λ k v w. note (header k v) w;
  write_header = λ n w. (ok tt, note (status n) w);
  write = λ s w. (ok tt, note (body s) w);
  http_error = λ s n w. note (error_page s n) w;
  log_error = λ e w. w;
  log_type = λ s w. w;
  message_of = message_of;
  sprint = sprint;
  decode = decode;
}

abbrev pub header_calls : List (String × String) → List Call
header_calls [] = []
header_calls ((k, v) ∷ rest) = header k v ∷ header_calls rest

abbrev pub chosen_headers : HttpSource → List (String × String) → List (String × String)
chosen_headers h [] = h.default_headers
chosen_headers h (entry ∷ rest) = entry ∷ rest

abbrev pub body_calls : HttpSource → String → List Call
body_calls h s = if h.ignore_output then [] else body s ∷ []

abbrev pub status_of : ℤ → ℤ
status_of (pos zero) = pos 200
status_of n = n

-- The response that an output describes: its headers or the default ones, its status or 200, and its
-- body unless it is to be ignored. `otherwise` is for an output that does not decode.
abbrev pub described : HttpSource → Result Response → List Call → List Call
described h (ok resp) otherwise =
    header_calls (chosen_headers h resp.headers)
    ++ status (status_of resp.status_code) ∷ body_calls h resp.body
described h (err e) otherwise = otherwise
described h panic otherwise = []
described h hang otherwise = []

module _ (message_of : Error → String) (sprint : Value → String) (decode : Fields → Result Response)
    (h : HttpSource) where
  abbrev pub output_calls : Value → List Call
  output_calls (object m) = described h (decode m) (status (pos 500) ∷ [])
  output_calls output = status (pos 500) ∷ []

  -- The calls for a reply: 500 and the message for an error, else what the output describes, or, if
  -- outputs are bodies, what a map with the output as its body describes.
  abbrev pub reply_calls : Reply → List Call
  reply_calls (returns output (some e)) = status (pos 500) ∷ body (message_of e) ∷ []
  reply_calls (returns output none) =
      if h.treat_output_as_body
      then described h (decode (field "body" (str (sprint output)) end)) []
      else output_calls output
  reply_calls panics = []
  reply_calls hangs = []

  abbrev pub input_calls : {W : Type 0} → Fn W → Context → Result Value → W → List Call
  input_calls f ctx (ok input) w = reply_calls (f ctx input w).0
  input_calls f ctx (err e) w = error_page (message_of e) (pos 500) ∷ []
  input_calls f ctx panic w = []
  input_calls f ctx hang w = []

abbrev pub world_after : {W : Type 0} → Fn W → Context → Result Value → W → W
world_after f ctx (ok input) w = (f ctx input w).1
world_after f ctx r w = w

abbrev wrote : {W : Type 0} → Result (Unit {0}) × Written W → Written W
wrote x = x.1

or_ok-status_of : (n : ℤ) → or_ok n ≡ status_of n
unfolding or_ok
or_ok-status_of (pos zero) = refl
or_ok-status_of _ = refl

module _ {W : Type 0} (message_of : Error → String) (sprint : Value → String)
    (decode : Fields → Result Response) where
  abbrev server : Server (Written W)
  server = recording message_of sprint decode

  add_all_headers-header_calls :
      (hs : List (String × String)) (calls : List Call) (w : W)
      → add_all_headers server hs (calls, w) ≡ (calls ++ header_calls hs, w)
  unfolding add_all_headers
  add_all_headers-header_calls [] calls w = ap (λ l. (l, w)) (sym (append-nil calls))
  add_all_headers-header_calls ((k, v) ∷ hs) calls w =
      add_all_headers-header_calls hs (calls ++ header k v ∷ []) w
      ∙ ap (λ l. (l, w)) (append_assoc calls (header k v ∷ []) (header_calls hs))

  write_headers-chosen_headers :
      (h : HttpSource) (hs : List (String × String)) (calls : List Call) (w : W)
      → write_headers server h hs (calls, w) ≡ (calls ++ header_calls (chosen_headers h hs), w)
  unfolding write_headers
  write_headers-chosen_headers h [] calls w = add_all_headers-header_calls h.default_headers calls w
  write_headers-chosen_headers h (entry ∷ hs) calls w =
      add_all_headers-header_calls (entry ∷ hs) calls w

  -- What is written after the headers.
  abbrev after_headers : Bool → ℤ → String → Written W → Result (Unit {0}) × Written W
  after_headers ignore n s (calls, w) =
      (if ignore then pure tt else server.write s) (note (status n) (calls, w))

  after_headers-body_calls :
      (ignore : Bool) (n : ℤ) (s : String) (calls : List Call) (w : W)
      → after_headers ignore n s (calls, w)
        ≡ (ok tt, (calls ++ status n ∷ (if ignore then [] else body s ∷ []), w))
  after_headers-body_calls true n s calls w = refl
  after_headers-body_calls false n s calls w =
      ap (λ l. (ok tt, (l, w))) (append_assoc calls (status n ∷ []) (body s ∷ []))

  write_decoded-described :
      (h : HttpSource) (resp : Response) (otherwise calls : List Call) (w : W)
      → write_decoded server h (ok resp) (calls, w)
        ≡ (ok tt, (calls ++ described h (ok resp) otherwise, w))
  unfolding write_decoded
  write_decoded-described h resp otherwise calls w =
      ap (after_headers h.ignore_output (or_ok resp.status_code) resp.body)
        (write_headers-chosen_headers h resp.headers calls w)
      ∙ ap
          (λ n.
            after_headers h.ignore_output n resp.body
              (calls ++ header_calls (chosen_headers h resp.headers), w))
          (or_ok-status_of resp.status_code)
      ∙ after_headers-body_calls h.ignore_output (status_of resp.status_code) resp.body
          (calls ++ header_calls (chosen_headers h resp.headers)) w
      ∙ ap (λ l. (ok tt, (l, w)))
          (append_assoc calls (header_calls (chosen_headers h resp.headers)) _)

  or_log-described :
      (h : HttpSource) (r : Result Response) (otherwise calls : List Call) (w : W)
      (then_do : Exec (Written W) (Unit {0}))
      → wrote (then_do (calls, w)) ≡ (calls ++ otherwise, w)
      → wrote (or_log server (write_decoded server h r (calls, w)) then_do)
        ≡ (calls ++ described h r otherwise, w)
  unfolding write_decoded
  or_log-described h (ok resp) otherwise calls w then_do e =
      ap (λ x. wrote (or_log server x then_do)) (write_decoded-described h resp otherwise calls w)
  or_log-described h (err e) otherwise calls w then_do e' = e'
  or_log-described h panic otherwise calls w then_do e = ap (λ l. (l, w)) (sym (append-nil calls))
  or_log-described h hang otherwise calls w then_do e = ap (λ l. (l, w)) (sym (append-nil calls))

  answer_output-output_calls :
      (h : HttpSource) (v : Value) (calls : List Call) (w : W)
      → wrote (answer_output server h v (calls, w))
        ≡ (calls ++ output_calls message_of sprint decode h v, w)
  unfolding answer_output write_response
  answer_output-output_calls h (object m) calls w =
      or_log-described h (decode m) (status (pos 500) ∷ []) calls w (server.write_header (pos 500))
        refl
  answer_output-output_calls h _ calls w = refl

  module _ (h : HttpSource) where
    answer-reply_calls :
        (r : Reply) (calls : List Call) (w : W)
        → wrote (answer server h r (calls, w))
          ≡ (calls ++ reply_calls message_of sprint decode h r, w)
    unfolding answer write_response
    answer-reply_calls (returns v (some e)) calls w =
        ap (λ l. (l, w)) (append_assoc calls (status (pos 500) ∷ []) (body (message_of e) ∷ []))
    answer-reply_calls (returns v none) calls w = elim (Bool-cases h.treat_output_as_body) [
      | inl b ↦
          rw (answer, b)
            (or_log-described h (decode (field "body" (str (sprint v)) end)) [] calls w (pure tt)
              (ap (λ l. (l, w)) (sym (append-nil calls))))
      | inr b ↦ rw (answer, b) (answer_output-output_calls h v calls w)
    ]
    answer-reply_calls panics calls w = ap (λ l. (l, w)) (sym (append-nil calls))
    answer-reply_calls hangs calls w = ap (λ l. (l, w)) (sym (append-nil calls))

    handle_input-input_calls :
        (f : Fn W) (ctx : Context) (input : Result Value) (calls : List Call) (w : W)
        → wrote (handle_input server h ctx (silent f) input (calls, w)) ≡ (
          calls ++ input_calls message_of sprint decode h f ctx input w,
          world_after f ctx input w,
        )
    unfolding handle_input
    handle_input-input_calls f ctx (ok input) calls w =
        answer-reply_calls (f ctx input w).0 calls (f ctx input w).1
    handle_input-input_calls f ctx (err e) calls w = refl
    handle_input-input_calls f ctx panic calls w = ap (λ l. (l, w)) (sym (append-nil calls))
    handle_input-input_calls f ctx hang calls w = ap (λ l. (l, w)) (sym (append-nil calls))

    -- To a writer that accepts everything, the handler makes these calls for a request: the page of an
    -- error with 500 if the request cannot be read, in which case the fn is not invoked; 500 and the
    -- message if the fn returns an error; 500 if outputs are not taken as bodies and the output is no
    -- map or does not decode; else the headers, status and body that the output describes, or no call
    -- if outputs are taken as bodies and one does not decode. After a panic there is no call.
    pub handle-input_calls :
        (base64 : String → String) (f : Fn W) (ctx : Context) (r : Request) (calls : List Call)
        (w : W)
        → wrote (handle server base64 h ctx (silent f) r (calls, w)) ≡ (
          calls ++ input_calls message_of sprint decode h f ctx (create_input base64 h r) w,
          world_after f ctx (create_input base64 h r) w,
        )
    unfolding handle
    handle-input_calls base64 f ctx r calls w =
        handle_input-input_calls f ctx (create_input base64 h r) calls w
