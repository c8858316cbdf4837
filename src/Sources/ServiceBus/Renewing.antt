-- ===== src/Sources/ServiceBus/Renewing.antt =====
-- The goroutine that renews the lock of a message while the fn runs, beside the handler of serveQueue.
use fnrun.Prelude.{ℕ, zero, suc, ◌≤◌, ◌≡◌, refl, ◌≢◌, Bool, true, false, Option, none, some, arith}
use fnrun.Value.Int.{ℤ, pos}

-- Where the goroutine is: at the test of `running`, in time.Sleep, in RenewLocks, past the test behind
-- it and about to cancel, or at its end.
pub data Loop : Type 0 where
  testing : Loop
  asleep : Loop
  renewing : Loop
  cancelling : Loop
  ended : Loop

-- newCtx is cancelled or not. The message is settled, by Abandon or Complete, under newCtx as it is then.
pub record Renewing : Type 0 where
  pub loop : Loop
  pub running : Bool
  pub is_cancelled : Bool
  pub settled_under : Option Bool
  -- the calls of RenewLocks that began after the fn has returned
  pub late : ℕ

-- The test of the interval, which is no test of its sign.
unfoldable pub first_loop : ℤ → Loop
first_loop (pos zero) = ended
first_loop _ = testing

-- The handler, once the goroutine has been started
unfoldable pub start : ℤ → Renewing
unfolding first_loop
start interval = record {
  loop = first_loop interval;
  running = true;
  is_cancelled = false;
  settled_under = none;
  late = 0;
}

pub data Step (s : Renewing) : Renewing → Type 0 where
  -- the goroutine
  sleep : s.loop ≡ testing → s.running ≡ true → Step s (record s { loop = asleep })
  stop : s.loop ≡ testing → s.running ≡ false → Step s (record s { loop = ended })
  wake : s.loop ≡ asleep → s.running ≡ true → Step s (record s { loop = renewing })
  wake_late :
      s.loop ≡ asleep → s.running ≡ false → Step s (record s { loop = renewing; late = suc s.late })
  renewed : s.loop ≡ renewing → Step s (record s { loop = testing })
  failed : s.loop ≡ renewing → s.running ≡ true → Step s (record s { loop = cancelling })
  failed_late : s.loop ≡ renewing → s.running ≡ false → Step s (record s { loop = testing })
  cancel : s.loop ≡ cancelling → Step s (record s { loop = testing; is_cancelled = true })
  -- the handler: the fn returns, and the message is settled
  return : s.running ≡ true → Step s (record s { running = false })
  settle :
      s.running ≡ false
      → s.settled_under ≡ none
      → Step s (record s { settled_under = some s.is_cancelled })

pub data Reach (s : Renewing) : Renewing → Type 0 where
  here : Reach s s
  next : {t u : Renewing} → Reach s t → Step t u → Reach s u

record IsBounded (s : Renewing) : Type 0 where
  while_running : s.running ≡ true → s.late ≡ 0
  while_asleep : s.loop ≡ asleep → s.late ≡ 0
  bound : s.late ≤ 1

Step-IsBounded : {s t : Renewing} → Step s t → IsBounded s → IsBounded t
Step-IsBounded {s} (sleep e r) v = record {
  while_running = v.while_running;
  while_asleep = λ h. v.while_running r;
  bound = v.bound;
}
Step-IsBounded {s} (stop e r) v = record {
  while_running = v.while_running;
  while_asleep = λ h. cc;
  bound = v.bound;
}
Step-IsBounded {s} (wake e r) v = record {
  while_running = v.while_running;
  while_asleep = λ h. cc;
  bound = v.bound;
}
Step-IsBounded {s} (wake_late e r) v = record {
  while_running = λ h. absurd (true-ne-false s.running h r);
  while_asleep = λ h. cc;
  bound = omega (arith, v.while_asleep e);
}
  where
    true-ne-false : (b : Bool) → b ≡ true → b ≢ false
    true-ne-false b h h' = cc
Step-IsBounded {s} (renewed e) v = record {
  while_running = v.while_running;
  while_asleep = λ h. cc;
  bound = v.bound;
}
Step-IsBounded {s} (failed e r) v = record {
  while_running = v.while_running;
  while_asleep = λ h. cc;
  bound = v.bound;
}
Step-IsBounded {s} (failed_late e r) v = record {
  while_running = v.while_running;
  while_asleep = λ h. cc;
  bound = v.bound;
}
Step-IsBounded {s} (cancel e) v = record {
  while_running = v.while_running;
  while_asleep = λ h. cc;
  bound = v.bound;
}
Step-IsBounded {s} (return r) v = record {
  while_running = λ h. cc;
  while_asleep = v.while_asleep;
  bound = v.bound;
}
Step-IsBounded {s} (settle r e) v = record {
  while_running = v.while_running;
  while_asleep = v.while_asleep;
  bound = v.bound;
}

start-IsBounded : (interval : ℤ) → IsBounded (start interval)
unfolding start
start-IsBounded interval = record {
  while_running = λ h. refl;
  while_asleep = λ h. refl;
  bound = omega arith;
}

-- Whatever the interval: once the fn has returned, the goroutine begins to renew the lock at most once
-- more.
pub renews_late_once : (interval : ℤ) {s : Renewing} → Reach (start interval) s → s.late ≤ 1
renews_late_once interval r = (all r).bound
  where
    all : {s : Renewing} → Reach (start interval) s → IsBounded s
    all here = start-IsBounded interval
    all (next r step) = Step-IsBounded step (all r)

-- What a cancelled context leads to.
IsSpoilt : Renewing → Type 0
IsSpoilt s = (s.is_cancelled ≡ true) × (s.settled_under ≢ some false)

Step-IsSpoilt : {s t : Renewing} → Step s t → IsSpoilt s → IsSpoilt t
unfolding IsSpoilt
Step-IsSpoilt (cancel e) (c, u) = (refl, u)
Step-IsSpoilt {s} (settle r e) (c, u) = (c, λ h. spoils s.is_cancelled c h)
  where
    spoils : (b : Bool) → b ≡ true → ◌≢◌ {A = Option Bool} (some b) (some false)
    spoils b h h' = cc
Step-IsSpoilt (sleep e r) v = v
Step-IsSpoilt (stop e r) v = v
Step-IsSpoilt (wake e r) v = v
Step-IsSpoilt (wake_late e r) v = v
Step-IsSpoilt (renewed e) v = v
Step-IsSpoilt (failed e r) v = v
Step-IsSpoilt (failed_late e r) v = v
Step-IsSpoilt (return r) v = v

-- Once a failed renewal has cancelled the context of a message that is not settled yet, the message is
-- never settled under a context that is not cancelled.
pub cancelled_spoils :
    {s t : Renewing}
    → s.is_cancelled ≡ true
    → s.settled_under ≡ none
    → Reach s t
    → (t.is_cancelled ≡ true) × (t.settled_under ≢ some false)
unfolding IsSpoilt
cancelled_spoils {s} c e r = all r
  where
    all : {t : Renewing} → Reach s t → IsSpoilt t
    all here = (c, none-ne-some s.settled_under e)
      where
        none-ne-some : (o : Option Bool) → o ≡ none → o ≢ some false
        none-ne-some o h h' = cc
    all (next r step) = Step-IsSpoilt step (all r)
