-- ===== src/Pool/Calls.antt =====
-- Invoke as several calls at once run it. A call waits in the select, then runs the fn that it has
-- received, then sends it back; calls and fns are numbers.
use fnrun.Prelude.{ℕ, ◌<◌, ◌≡◌, List, [], ◌∷◌, ◌++◌, length}

pub record Calls : Type 0 where
  pub capacity : ℕ
  -- the buffer of the channel, the oldest first
  pub free : List ℕ
  pub waiting : List ℕ
  -- a call and the fn that it has received and not sent back
  pub running : List (ℕ × ℕ)
  -- the calls that have returned the timeout error
  pub refused : List ℕ
  -- the fns whose invocation panicked: the send is not reached
  pub lost : List ℕ

-- What ConfigureMap leaves: a full channel, and no call.
abbrev pub start : List ℕ → Calls
start fns = record {
  capacity = length fns;
  free = fns;
  waiting = [];
  running = [];
  refused = [];
  lost = [];
}

pub data Step (s : Calls) : Calls → Type 0 where
  -- Invoke is called
  arrive : (c : ℕ) → Step s (record s { waiting = c ∷ s.waiting })
  -- `case f := <-p.fnChan`
  receive :
      (c f : ℕ) (before after rest : List ℕ)
      → s.waiting ≡ before ++ c ∷ after
      → s.free ≡ f ∷ rest
      → Step s (record s { waiting = before ++ after; free = rest; running = (c, f) ∷ s.running })
  -- `p.fnChan <- f`, possible while the buffer has room
  finish :
      (c f : ℕ) (before after : List (ℕ × ℕ))
      → s.running ≡ before ++ (c, f) ∷ after
      → length s.free < s.capacity
      → Step s (record s { running = before ++ after; free = s.free ++ f ∷ [] })
  -- `case <-time.After(p.maxWaitDuration)`
  give_up :
      (c : ℕ) (before after : List ℕ)
      → s.waiting ≡ before ++ c ∷ after
      → Step s (record s { waiting = before ++ after; refused = c ∷ s.refused })
  -- f.Invoke panics, and the call unwinds
  crash :
      (c f : ℕ) (before after : List (ℕ × ℕ))
      → s.running ≡ before ++ (c, f) ∷ after
      → Step s (record s { running = before ++ after; lost = f ∷ s.lost })

pub data Reach (s : Calls) : Calls → Type 0 where
  here : Reach s s
  next : {t u : Calls} → Reach s t → Step t u → Reach s u
