-- ===== src/Middlewares/Tap/Sharing.antt =====
-- The start of the external program, when several invocations of a tap run at once: the lock, and the
-- goroutine that waits for the program, as steps. Invocations and programs are numbers.
use fnrun.Prelude.{
  ℕ, suc, ◌+◌, ◌≤◌, ◌≡◌, refl, ap, ◌∙◌, ◌⊎◌, inl, inr, Bool, true, false, Option, none, some, List,
  [], ◌∷◌, ◌++◌, length, length-append, if◌then◌else◌, arith, no_middle,
}

pub record Tapping : Type 0 where
  -- the field `alive`
  pub alive : Bool
  pub started : ℕ
  -- the programs that run, and those that have ended and whose goroutine has not taken the lock yet
  pub live : List ℕ
  pub ended : List ℕ
  -- the invocations that wait for the lock in start, and the one that has it
  pub waiting : List ℕ
  pub writer : Option ℕ
  -- the invocations that are past start, and those that have the lock for reading
  pub ready : List ℕ
  pub tapping : List ℕ

-- New
abbrev pub start : Tapping
start = record {
  alive = false;
  started = 0;
  live = [];
  ended = [];
  waiting = [];
  writer = none;
  ready = [];
  tapping = [];
}

pub data Step (s : Tapping) : Tapping → Type 0 where
  -- `if m.getAlive() { return nil }`
  find : (c : ℕ) → s.writer ≡ none → s.alive ≡ true → Step s (record s { ready = c ∷ s.ready })
  miss : (c : ℕ) → s.writer ≡ none → s.alive ≡ false → Step s (record s { waiting = c ∷ s.waiting })
  -- `m.locker.Lock()`
  lock :
      (c : ℕ) (before after : List ℕ)
      → s.waiting ≡ before ++ c ∷ after
      → s.writer ≡ none
      → s.tapping ≡ []
      → Step s (record s { waiting = before ++ after; writer = some c })
  -- `if m.alive { return nil }`, with the deferred Unlock
  find_again :
      (c : ℕ)
      → s.writer ≡ some c
      → s.alive ≡ true
      → Step s (record s { writer = none; ready = c ∷ s.ready })
  -- the rest of start, which may fail
  launch :
      (c : ℕ)
      → s.writer ≡ some c
      → s.alive ≡ false
      → Step s (record s {
        alive = true;
        started = suc s.started;
        live = s.started ∷ s.live;
        writer = none;
        ready = c ∷ s.ready;
      })
  give_up : (c : ℕ) → s.writer ≡ some c → s.alive ≡ false → Step s (record s { writer = none })
  -- `m.locker.RLock()` in Invoke, and the deferred RUnlock
  enter :
      (c : ℕ) (before after : List ℕ)
      → s.ready ≡ before ++ c ∷ after
      → s.writer ≡ none
      → Step s (record s { ready = before ++ after; tapping = c ∷ s.tapping })
  leave :
      (c : ℕ) (before after : List ℕ)
      → s.tapping ≡ before ++ c ∷ after
      → Step s (record s { tapping = before ++ after })
  -- a program ends, cmd.Wait returns, and the goroutine gets the lock
  exit :
      (p : ℕ) (before after : List ℕ)
      → s.live ≡ before ++ p ∷ after
      → Step s (record s { live = before ++ after; ended = p ∷ s.ended })
  note_exit :
      (p : ℕ) (before after : List ℕ)
      → s.ended ≡ before ++ p ∷ after
      → s.writer ≡ none
      → s.tapping ≡ []
      → Step s (record s { alive = false; ended = before ++ after })

pub data Reach (s : Tapping) : Tapping → Type 0 where
  here : Reach s s
  next : {t u : Tapping} → Reach s t → Step t u → Reach s u

-- `alive` says whether there is a program that is not known to have ended, and there is one at most; and the
-- lock is held by a writer or by readers.
pub record IsSingle (s : Tapping) : Type 0 where
  pub counted : length s.live + length s.ended ≡ (if s.alive then 1 else 0)
  pub exclusive : (s.writer ≡ none) ⊎ (s.tapping ≡ [])

length-removed :
    (c : ℕ) (before after xs : List ℕ)
    → xs ≡ before ++ c ∷ after
    → length xs ≡ suc (length (before ++ after))
length-removed c before after xs e =
    omega (arith, ap length e, length-append before (c ∷ after), length-append before after)

flag_of : (b : Bool) (n : ℕ) → n ≡ (if b then 1 else 0) → 1 ≤ n → n ≡ 1
flag_of true n e h = e
flag_of false n e h = absurd (omega (arith, e, h))

-- One step at most keeps one program at most.
Step-IsSingle : {s t : Tapping} → Step s t → IsSingle s → IsSingle t
Step-IsSingle (find c e e') v = record { counted = v.counted; exclusive = v.exclusive }
Step-IsSingle (miss c e e') v = record { counted = v.counted; exclusive = v.exclusive }
Step-IsSingle (lock c before after e e' e'') v = record { counted = v.counted; exclusive = inr e'' }
Step-IsSingle (find_again c e e') v = record { counted = v.counted; exclusive = inl refl }
Step-IsSingle {s} (launch c e e') v = record {
  counted =
      let none_left : length s.live + length s.ended ≡ 0 =
        v.counted ∙ ap (λ b. if b then 1 else 0) e' in
      omega (arith, none_left);
  exclusive = inl refl;
}
Step-IsSingle (give_up c e e') v = record { counted = v.counted; exclusive = inl refl }
Step-IsSingle (enter c before after e e') v = record { counted = v.counted; exclusive = inl e' }
Step-IsSingle {s} (leave c before after e) v = record {
  counted = v.counted;
  exclusive = elim v.exclusive [
    | inl free ↦ inl free
    | inr idle ↦ no_middle c before after s.tapping e idle
  ];
}
Step-IsSingle {s} (exit p before after e) v = record {
  counted =
      let one_less = length-removed p before after s.live e in omega (arith, one_less) ∙ v.counted;
  exclusive = v.exclusive;
}
Step-IsSingle {s} (note_exit p before after e e' e'') v = record {
  counted =
      let one_less = length-removed p before after s.ended e in
      let one =
        flag_of s.alive (length s.live + length s.ended) v.counted (omega (arith, one_less)) in
      omega (arith, one_less, one);
  exclusive = inl e';
}

-- However many invocations of a tap run at once, and whenever the programs end: in every state that is
-- reached there is one program at most that runs or is not known to have ended, and the field alive
-- says whether there is one; and while an invocation has the lock for reading, none has it for
-- writing, so that neither this nor the pipe changes.
pub Reach-IsSingle : {t : Tapping} → Reach start t → IsSingle t
Reach-IsSingle here = record { counted = refl; exclusive = inl refl }
Reach-IsSingle (next r step) = Step-IsSingle step (Reach-IsSingle r)
