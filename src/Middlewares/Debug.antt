-- ===== src/Middlewares/Debug.antt =====
-- run/middleware/debug: what goes in and out is logged.
use fnrun.Prelude.{
  ◌≡◌, refl, sym, ap, ◌∙◌, Bool, true, false, none, some, List, [], ◌∷◌, ◌++◌, append_assoc,
  append-nil, if◌then◌else◌,
}
use fnrun.Value.{Value}
use fnrun.Exec.{Error, Context, Reply, returns, panics, hangs, Fn, Middleware}

-- The three calls of log.Printf.
pub data LogLine : Type 0 where
  handling_input : Value → LogLine
  received_output : Value → LogLine
  received_error : Error → LogLine

-- debugMiddleware
pub record DebugMiddleware : Type 0 where
  pub print_enabled : Bool

-- ConfigureBool, which never fails; New and NewWithPrintEnabled
unfoldable pub configure_bool : Bool → DebugMiddleware → DebugMiddleware
configure_bool print_enabled d = record d { print_enabled = print_enabled }

unfoldable pub new_with_print_enabled : Bool → DebugMiddleware
new_with_print_enabled print_enabled = record { print_enabled = print_enabled }

unfoldable pub new : DebugMiddleware
unfolding new_with_print_enabled
new = new_with_print_enabled true

module _ {W : Type 0} (log : LogLine → W → W) where
  -- The second test of PrintEnabled, once the fn has returned.
  unfoldable pub log_reply : Bool → Reply × W → Reply × W
  log_reply true (returns output none, w) = (returns output none, log (received_output output) w)
  log_reply true (returns output (some e), w) =
      (returns output (some e), log (received_error e) (log (received_output output) w))
  log_reply true (panics, w) = (panics, w)
  log_reply true (hangs, w) = (hangs, w)
  log_reply false r = r

  -- debugMiddleware.Invoke
  unfoldable pub invoke : DebugMiddleware → Middleware W
  unfolding log_reply
  invoke d ctx input f w =
      log_reply d.print_enabled
        (f ctx input (if d.print_enabled then log (handling_input input) w else w))

-- A world with a log, and a fn that does not look at it.
abbrev pub Logged : Type 0 → Type 0
Logged W = List LogLine × W

abbrev pub append_line : {W : Type 0} → LogLine → Logged W → Logged W
append_line line (lines, w) = (lines ++ line ∷ [], w)

abbrev pub silent : {W : Type 0} → Fn W → Fn (Logged W)
silent f ctx input (lines, w) = ((f ctx input w).0, (lines, (f ctx input w).1))

-- What is logged of a reply: nothing of one that never comes.
abbrev pub reply_lines : Reply → List LogLine
reply_lines (returns output none) = received_output output ∷ []
reply_lines (returns output (some e)) = received_output output ∷ received_error e ∷ []
reply_lines panics = []
reply_lines hangs = []

abbrev pub lines_of : Bool → Value → Reply → List LogLine
lines_of true input r = handling_input input ∷ reply_lines r
lines_of false input r = []

module _ {W : Type 0} where
  log_reply-lines :
      (r : Reply) (lines : List LogLine) (input : Value) (w : W)
      → log_reply append_line true (r, (lines ++ handling_input input ∷ [], w))
        ≡ (r, (lines ++ handling_input input ∷ reply_lines r, w))
  unfolding log_reply
  log_reply-lines (returns output none) lines input w =
      ap (λ l. (returns output none, (l, w)))
        (append_assoc lines (handling_input input ∷ []) (received_output output ∷ []))
  log_reply-lines (returns output (some e)) lines input w =
      ap (λ l. (returns output (some e), (l, w)))
        (append_assoc (lines ++ handling_input input ∷ []) (received_output output ∷ [])
            (received_error e ∷ [])
          ∙ append_assoc lines (handling_input input ∷ [])
              (received_output output ∷ received_error e ∷ []))
  log_reply-lines panics lines input w = refl
  log_reply-lines hangs lines input w = refl

  -- The middleware gives the fn's own reply and effects, and adds to the log, if printing is enabled,
  -- the input, then the output, then the error if there is one, and otherwise nothing.
  invoke-logged :
      (enabled : Bool) (f : Fn W) (ctx : Context) (input : Value) (lines : List LogLine) (w : W)
      → invoke append_line (record { print_enabled = enabled }) ctx input (silent f) (lines, w) ≡ (
        (f ctx input w).0,
        (lines ++ lines_of enabled input (f ctx input w).0, (f ctx input w).1),
      )
  unfolding invoke
  invoke-logged true f ctx input lines w =
      log_reply-lines (f ctx input w).0 lines input (f ctx input w).1
  invoke-logged false f ctx input lines w =
      ap (λ l. ((f ctx input w).0, (l, (f ctx input w).1))) (sym (append-nil lines))
