-- ===== src/Middlewares/Tap/Transparent.antt =====
-- The tap copies, and changes nothing of what it copies.
use fnrun.Prelude.{
  ◌≡◌, refl, ap, ◌∙◌, sym, Bool, true, false, Option, none, some, List, ◌++◌, append_assoc,
  append-nil,
}
use fnrun.Value.{Value}
use fnrun.Exec.{Context, ok, Reply, returns, panics, hangs, Fn, Exec}
use fnrun.Middlewares.Tap.{
  Message, line, failure, Tap, Process, start, tap_reply, tapped, after_start, invoke_with, invoke,
  Piped, append_message, silent, if_set, reply_messages, write_if,
}

-- An operating system whose pipes can be read back.
abbrev pub recording :
    {Cmd Pipe W : Type 0}
    → Process Cmd Pipe (Piped Pipe W)
    → (Cmd → Exec (Piped Pipe W) Pipe)
    → Process Cmd Pipe (Piped Pipe W)
recording os begin = record os { start = begin; write = append_message }

module _ {Cmd Pipe W : Type 0} (os : Process Cmd Pipe (Piped Pipe W))
    (begin : Cmd → Exec (Piped Pipe W) Pipe) where
  write_if-if_set :
      (b : Bool) (pipe : Option Pipe) (m : Message) (sent : List (Option Pipe × Message)) (w : W)
      → write_if (recording os begin) b pipe m (sent, w) ≡ (sent ++ if_set b pipe m, w)
  write_if-if_set true pipe m sent w = refl
  write_if-if_set false pipe m sent w = ap (λ l. (l, w)) (sym (append-nil sent))

  tap_reply-messages :
      (m : Tap Cmd Pipe) (r : Reply) (sent : List (Option Pipe × Message)) (w : W)
      → tap_reply (recording os begin) m r (sent, w) ≡ (sent ++ reply_messages m r, w)
  unfolding tap_reply
  tap_reply-messages m (returns output none) sent w =
      write_if-if_set m.tap_output m.stdin (line output) sent w
  tap_reply-messages m (returns output (some e)) sent w =
      ap (write_if (recording os begin) m.tap_error m.stdin (failure e))
        (write_if-if_set m.tap_output m.stdin (line output) sent w)
      ∙ write_if-if_set m.tap_error m.stdin (failure e) _ w
      ∙ ap (λ l. (l, w)) (append_assoc sent _ _)
  tap_reply-messages m panics sent w = ap (λ l. (l, w)) (sym (append-nil sent))
  tap_reply-messages m hangs sent w = ap (λ l. (l, w)) (sym (append-nil sent))

  module _ (f : Fn W) (ctx : Context) (input : Value) where
    -- The messages of one invocation, in order.
    abbrev pub messages : Tap Cmd Pipe → Reply → List (Option Pipe × Message)
    messages m r = if_set m.tap_input m.stdin (line input) ++ reply_messages m r

    tapped-messages :
        (m : Tap Cmd Pipe) (sent : List (Option Pipe × Message)) (w : W)
        → tapped (recording os begin) m ctx input (silent f) (sent, w)
          ≡ ((f ctx input w).0, (sent ++ messages m (f ctx input w).0, (f ctx input w).1))
    unfolding tapped
    tapped-messages m sent w =
        ap
          (λ (x : Piped Pipe W). (
            (silent f ctx input x).0,
            tap_reply (recording os begin) m (silent f ctx input x).0 (silent f ctx input x).1,
          ))
          (write_if-if_set m.tap_input m.stdin (line input) sent w)
        ∙ ap (λ (x : Piped Pipe W). ((f ctx input w).0, x))
            (tap_reply-messages m (f ctx input w).0
              (sent ++ if_set m.tap_input m.stdin (line input)) (f ctx input w).1)
        ∙ ap (λ l. ((f ctx input w).0, (l, (f ctx input w).1)))
            (append_assoc sent (if_set m.tap_input m.stdin (line input))
              (reply_messages m (f ctx input w).0))

    -- Once its program runs, started now or before, the tap gives the fn's own reply and effects, and
    -- sends the program, each if it is enabled, the input, then the output, then the error if there
    -- is one.
    pub invoke-messages :
        (m m' : Tap Cmd Pipe) (cmd : Cmd) (sent sent' : List (Option Pipe × Message)) (w w' : W)
        → m.base_cmd ≡ some cmd
        → start (recording os begin) cmd m (sent, w) ≡ (ok tt, m', (sent', w'))
        → invoke (recording os begin) m ctx input (silent f) (sent, w)
          ≡ (m', (f ctx input w').0, (sent' ++ messages m' (f ctx input w').0, (f ctx input w').1))
    unfolding invoke
    invoke-messages m m' cmd sent sent' w w' e s =
        ap (λ o. invoke_with (recording os begin) o m ctx input (silent f) (sent, w)) e
        ∙ ap (after_start (recording os begin) ctx input (silent f)) s
        ∙ ap (λ (x : Reply × Piped Pipe W). (m', x.0, x.1)) (tapped-messages m' sent' w')
