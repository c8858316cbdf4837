-- ===== src/Sources/Sqs/Deleting.antt =====
-- Which messages of a batch are deleted.
use fnrun.Prelude.{
  ◌≡◌, refl, sym, ap, subst, ◌∙◌, String, Option, none, some, List, [], ◌∷◌, ◌++◌, append_assoc,
  append-nil,
}
use fnrun.Value.{Value}
use fnrun.Exec.{Error, Context, Result, ok, err, panic, hang, Reply, returns, panics, hangs, Fn}
use fnrun.Sources.Sqs.{Message, create_input, after_invoke, invoke_on, handle_batch}

-- A queue that remembers the receipt handles of the messages that it was to delete.
abbrev pub Queue : Type 0 → Type 0
Queue W = List (Option String) × W

abbrev pub delete : {W : Type 0} → Option String → Queue W → Result (Unit {0}) × Queue W
delete handle (deleted, w) = (ok tt, (deleted ++ handle ∷ [], w))

abbrev pub silent : {W : Type 0} → Fn W → Fn (Queue W)
silent f ctx input (deleted, w) = ((f ctx input w).0, (deleted, (f ctx input w).1))

module _ {W : Type 0} (f : Fn W) (ctx : Context) where
  -- The messages are handled one after the other; the handles are those of the messages for which
  -- the fn returned no error.
  pub data Handled : List Message → List (Option String) → W → W → Type 0 where
    nothing : {w : W} → Handled [] [] w w
    succeeded :
        (m : Message) (ms : List Message) (handles : List (Option String)) (w w' w'' : W)
        (v : Value)
        → invoke_on f ctx (create_input m) w ≡ (returns v none, w')
        → Handled ms handles w' w''
        → Handled (m ∷ ms) (m.receipt_handle ∷ handles) w w''
    failed :
        (m : Message) (ms : List Message) (handles : List (Option String)) (w w' w'' : W)
        (v : Value) (e : Error)
        → invoke_on f ctx (create_input m) w ≡ (returns v (some e), w')
        → Handled ms handles w' w''
        → Handled (m ∷ ms) handles w w''

  -- The batch is over, or the invocation for the next message does not return.
  pub data Ends : List Message → W → Result (Unit {0}) → W → Type 0 where
    over : {w : W} → Ends [] w (ok tt) w
    panicked :
        (m : Message) (ms : List Message) (w w' : W)
        → invoke_on f ctx (create_input m) w ≡ (panics, w')
        → Ends (m ∷ ms) w panic w'
    hung :
        (m : Message) (ms : List Message) (w w' : W)
        → invoke_on f ctx (create_input m) w ≡ (hangs, w')
        → Ends (m ∷ ms) w hang w'

  abbrev pub Deletes :
      List Message → List (Option String) → W → Result (Unit {0}) × Queue W → Type 0
  Deletes messages deleted w (result, (deleted', w')) =
      (before : List Message) × (after : List Message) × (handles : List (Option String)) × (u : W)
      × (messages ≡ before ++ after)
      × (deleted' ≡ deleted ++ handles)
      × Handled before handles w u
      × Ends after u result w'

  invoke_on-silent :
      (input : Result Value) (deleted : List (Option String)) (w : W)
      → invoke_on (silent f) ctx input (deleted, w)
        ≡ ((invoke_on f ctx input w).0, (deleted, (invoke_on f ctx input w).1))
  invoke_on-silent (ok input) deleted w = refl
  invoke_on-silent (err e) deleted w = refl
  invoke_on-silent panic deleted w = refl
  invoke_on-silent hang deleted w = refl

  Deletes-after_invoke :
      (m : Message) (ms : List Message) (deleted : List (Option String)) (w w' : W) (r : Reply)
      (next : Queue W → Result (Unit {0}) × Queue W)
      → invoke_on f ctx (create_input m) w ≡ (r, w')
      → ((deleted' : List (Option String)) (u : W) → Deletes ms deleted' u (next (deleted', u)))
      → Deletes (m ∷ ms) deleted w (after_invoke (delete m.receipt_handle) next (r, (deleted, w')))
  Deletes-after_invoke m ms deleted w w' (returns v none) next e ih =
      let (before, after, handles, u, em, ed, h, x) = ih (deleted ++ m.receipt_handle ∷ []) w' in
      (
        m ∷ before,
        after,
        m.receipt_handle ∷ handles,
        u,
        ap (λ l. m ∷ l) em,
        ed ∙ append_assoc deleted (m.receipt_handle ∷ []) handles,
        succeeded m before handles w w' u v e h,
        x,
      )
  Deletes-after_invoke m ms deleted w w' (returns v (some x)) next e ih =
      let (before, after, handles, u, em, ed, h, ends) = ih deleted w' in
      (
        m ∷ before,
        after,
        handles,
        u,
        ap (λ l. m ∷ l) em,
        ed,
        failed m before handles w w' u v x e h,
        ends,
      )
  Deletes-after_invoke m ms deleted w w' panics next e ih =
      ([], m ∷ ms, [], w, refl, sym (append-nil deleted), nothing, panicked m ms w w' e)
  Deletes-after_invoke m ms deleted w w' hangs next e ih =
      ([], m ∷ ms, [], w, refl, sym (append-nil deleted), nothing, hung m ms w w' e)

  -- If the queue accepts every deletion, a batch deletes exactly the messages for which the fn returned
  -- no error, in their order; an error keeps its message and does not stop the batch, which goes on
  -- to its end unless an invocation panics or never returns.
  pub handle_batch-Deletes :
      (messages : List Message) (deleted : List (Option String)) (w : W)
      → Deletes messages deleted w (handle_batch delete (silent f) ctx messages (deleted, w))
  unfolding handle_batch
  handle_batch-Deletes [] deleted w = ([], [], [], w, refl, sym (append-nil deleted), nothing, over)
  handle_batch-Deletes (m ∷ ms) deleted w =
      subst
        (λ x.
          Deletes (m ∷ ms) deleted w (
            after_invoke (delete m.receipt_handle) (λ s. handle_batch delete (silent f) ctx ms s)
              x))
        (sym (invoke_on-silent (create_input m) deleted w))
        (Deletes-after_invoke m ms deleted w (invoke_on f ctx (create_input m) w).1
          (invoke_on f ctx (create_input m) w).0 (λ s. handle_batch delete (silent f) ctx ms s) refl
          (λ deleted' u. handle_batch-Deletes ms deleted' u))
