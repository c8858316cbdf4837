-- ===== src/Middlewares/Jq.antt =====
-- run/middleware/jq: jq programs on the way in and on the way out.
use fnrun.Prelude.{
  String, ◌≡◌, refl, ap, ◌∙◌, sym, Option, none, some, List, [], ◌∷◌, ◌++◌, str_eq, if◌then◌else◌,
  append_assoc, append-nil,
}
use fnrun.Value.{Value, array, Items, nil, cons, Fields}
use fnrun.Exec.{
  Error, wrap, Context, Result, ok, err, panic, hang, Reply, returns, panics, hangs, Middleware,
  Method, then_assign, then_method, or_reply,
}

-- What an iterator of gojq gives: a value or an error at each Next, or the end. An iterator that
-- never ends is `endless`, from where it no longer gives an error.
pub data Iter : Type 0 where
  done : Iter
  endless : Iter
  value : Value → Iter → Iter
  failure : Error → Iter → Iter

-- []interface{} of the values that were appended
abbrev pub to_items : List Value → Items
to_items [] = nil
to_items (v ∷ vs) = cons v (to_items vs)

-- The loop of apply, with the values processed so far, and the test after it.
unfoldable pub unwrap : List Value → Value
unwrap (v ∷ []) = v
unwrap processed = array (to_items processed)

unfoldable pub drain : Iter → List Value → Result Value
unfolding unwrap
drain done processed = ok (unwrap processed)
drain endless processed = hang
drain (value v rest) processed = drain rest (processed ++ v ∷ [])
drain (failure e rest) processed = err e

-- jqMiddleware, over gojq's compiled programs
pub record JqMiddleware (Code : Type 0) : Type 0 where
  pub input : Option Code
  pub output : Option Code

pub record JqConfig : Type 0 where
  pub input : String
  pub output : String

-- New
unfoldable pub new : {Code : Type 0} → JqMiddleware Code
new = record { input = none; output = none }

-- compile; the parameter is gojq.Parse followed by gojq.Compile
abbrev pub some_code : {Code : Type 0} → Result Code → Result (Option Code)
some_code (ok code) = ok (some code)
some_code (err e) = err e
some_code panic = panic
some_code hang = hang

unfoldable pub compile : {Code : Type 0} → (String → Result Code) → String → Result (Option Code)
compile gojq pattern = if str_eq pattern "" then ok none else some_code (gojq pattern)

-- errors.Wrap around a failed compilation
abbrev pub wrapped : {A : Type 0} → Result A → String → Result A
wrapped (err e) message = err (wrap e message)
wrapped r message = r

module _ {Code W : Type 0} where
  -- ConfigureMap; the input program is assigned before the output program is compiled
  unfoldable pub configure_map :
      (Fields → Result JqConfig)
      → (String → Result Code)
      → Fields
      → JqMiddleware Code
      → Method (JqMiddleware Code) W
  unfolding compile
  configure_map decode gojq fs j =
      then_method (λ w. (decode fs, w))
        (λ config.
          then_method (λ w. (wrapped (compile gojq config.input) "invalid input configuration", w))
            (λ input.
              then_assign
                (λ w. (wrapped (compile gojq config.output) "invalid output configuration", w))
                (λ output. record { input = input; output = output }) (record j { input = input }))
            j)
        j

  -- apply; the parameter is RunWithContext
  unfoldable pub apply :
      (Code → Context → Value → W → Iter) → Context → Option Code → Value → W → Result Value
  unfolding drain
  apply run ctx none input w = ok input
  apply run ctx (some code) input w = drain (run code ctx input w) []

  -- The end of Invoke: an error of the fn is returned with the fn's output.
  abbrev pub apply_reply :
      (Code → Context → Value → W → Iter) → Context → Option Code → Reply × W → Reply × W
  apply_reply run ctx code (returns output none, w) =
      or_reply (apply run ctx code output w) (λ v u. (returns v none, u)) w
  apply_reply run ctx code (returns output (some e), w) = (returns output (some e), w)
  apply_reply run ctx code (panics, w) = (panics, w)
  apply_reply run ctx code (hangs, w) = (hangs, w)

  -- jqMiddleware.Invoke
  unfoldable pub invoke : (Code → Context → Value → W → Iter) → JqMiddleware Code → Middleware W
  unfolding apply
  invoke run j ctx input f w =
      or_reply (apply run ctx j.input input w)
        (λ new_input u. apply_reply run ctx j.output (f ctx new_input u)) w

-- What a run of a program amounts to: the values up to its end, or up to its first error.
abbrev pub values : Iter → List Value
values (value v rest) = v ∷ values rest
values rest = []

pub data Ending : Type 0 where
  ended never : Ending
  failed : Error → Ending

abbrev pub ending : Iter → Ending
ending done = ended
ending endless = never
ending (value v rest) = ending rest
ending (failure e rest) = failed e

-- A single value itself, and else an array of the values.
abbrev items_of : List Value → Items
items_of [] = nil
items_of (v ∷ vs) = cons v (items_of vs)

abbrev pub one_or_array : List Value → Value
one_or_array [] = array nil
one_or_array (v ∷ []) = v
one_or_array (v ∷ v' ∷ vs) = array (cons v (cons v' (items_of vs)))

to_items-items_of : (vs : List Value) → to_items vs ≡ items_of vs
to_items-items_of [] = refl
to_items-items_of (v ∷ vs) = ap (cons v) (to_items-items_of vs)

unwrap-one_or_array : (vs : List Value) → unwrap vs ≡ one_or_array vs
unfolding unwrap
unwrap-one_or_array [] = refl
unwrap-one_or_array (v ∷ []) = refl
unwrap-one_or_array (v ∷ v' ∷ vs) =
    ap (λ items. array (cons v (cons v' items))) (to_items-items_of vs)

abbrev pub result_of : Ending → List Value → Result Value
result_of ended vs = ok (one_or_array vs)
result_of never vs = hang
result_of (failed e) vs = err e

drain-result_of :
    (it : Iter) (processed : List Value)
    → drain it processed ≡ result_of (ending it) (processed ++ values it)
unfolding drain
drain-result_of done processed =
    ap ok (unwrap-one_or_array processed)
    ∙ ap (λ l. ok (one_or_array l)) (sym (append-nil processed))
drain-result_of endless processed = refl
drain-result_of (value v rest) processed =
    drain-result_of rest (processed ++ v ∷ [])
    ∙ ap (result_of (ending rest)) (append_assoc processed (v ∷ []) (values rest))
drain-result_of (failure e rest) processed = refl

module _ {Code W : Type 0} (run : Code → Context → Value → W → Iter) (ctx : Context) where
  abbrev pub program_result : Option Code → Value → W → Result Value
  program_result none input w = ok input
  program_result (some code) input w =
      result_of (ending (run code ctx input w)) (values (run code ctx input w))

  -- Without a program a value passes unchanged. A program gives its first error, whatever values came
  -- before it; else its one value, if it gives just one, and otherwise the array of all its values.
  pub apply-program_result :
      (code : Option Code) (input : Value) (w : W)
      → apply run ctx code input w ≡ program_result code input w
  unfolding apply
  apply-program_result none input w = refl
  apply-program_result (some code) input w = drain-result_of (run code ctx input w) []
