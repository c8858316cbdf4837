-- ===== src/Exec/Laws.antt =====
-- How sequences of calls, and assignments after them, succeed and fail.
use fnrun.Prelude.{◌≡◌, refl, ap, ◌≢◌, ◌↔◌, none}
use fnrun.Value.{Value}
use fnrun.Exec.Defs.{
  Error, Result, ok, err, panic, hang, Exec, pure, continue, ◌>>=◌, Method, assign_result,
  then_assign, continue_method, then_method, Reply, returns, or_reply,
}

module _ {W A B : Type 0} where
  -- A sequence that succeeds has succeeded in both parts.
  pub >>=-eq-ok :
      (m : Exec W A) (f : A → Exec W B) (w : W) {b : B} {w' : W}
      → (m >>= f) w ≡ (ok b, w')
      → (a : A) × (u : W) × (m w ≡ (ok a, u)) × (f a u ≡ (ok b, w'))
  >>=-eq-ok m f w h = continue-eq-ok (m w) refl h
    where
      continue-eq-ok :
          {b : B} {w' : W} (r : Result A × W)
          → m w ≡ r
          → continue r.0 f r.1 ≡ (ok b, w')
          → (a : A) × (u : W) × (m w ≡ (ok a, u)) × (f a u ≡ (ok b, w'))
      continue-eq-ok (ok a, u) e h = (a, u, e, h)
      continue-eq-ok (err x, u) e h = cc
      continue-eq-ok (panic, u) e h = cc
      continue-eq-ok (hang, u) e h = cc

  pub ok->>= :
      (m : Exec W A) (f : A → Exec W B) (w : W) {a : A} {u : W}
      → m w ≡ (ok a, u)
      → (m >>= f) w ≡ f a u
  ok->>= m f w h = rw h

module _ {S W A : Type 0} (set : A → S) (s : S) where
  assign_result-eq-ok :
      (r : Result A) (u : W) {s' : S} {w' : W}
      → assign_result set s r u ≡ (ok tt, s', w')
      → (a : A) × (◌≡◌ {A = Result A × W} (r, u) (ok a, w')) × (s' ≡ set a)
  assign_result-eq-ok (ok a) u h = (a, cc, cc)
  assign_result-eq-ok (err e) u h = cc
  assign_result-eq-ok panic u h = cc
  assign_result-eq-ok hang u h = cc

  assign_result-failed :
      (r : Result A) (u : W) → (assign_result set s r u).0 ≢ ok tt → (assign_result set s r u).1 ≡ s
  assign_result-failed (ok a) u h = absurd (h refl)
  assign_result-failed (err e) u h = refl
  assign_result-failed panic u h = refl
  assign_result-failed hang u h = refl

  -- The receiver is assigned exactly when the call succeeds.
  pub then_assign_iff :
      (m : Exec W A) (w : W) (s' : S) (w' : W)
      → (then_assign m set s w ≡ (ok tt, s', w')) ↔ ((a : A) × (m w ≡ (ok a, w')) × (s' ≡ set a))
  then_assign_iff m w s' w' = (λ h. assign_result-eq-ok (m w).0 (m w).1 h, λ r. rw (r.1, r.2))

  pub then_assign-failed :
      (m : Exec W A) (w : W) → (then_assign m set s w).0 ≢ ok tt → (then_assign m set s w).1 ≡ s
  then_assign-failed m w h = assign_result-failed (m w).0 (m w).1 h

module _ {S W A B : Type 0} (set : B → S) (s : S) where
  continue_method-assign :
      (r : Result A) (k : A → Exec W B) (w : W)
      → continue_method r (λ a. then_assign (k a) set s) s w
        ≡ then_assign (λ u. continue r k u) set s w
  continue_method-assign (ok a) k w = refl
  continue_method-assign (err e) k w = refl
  continue_method-assign panic k w = refl
  continue_method-assign hang k w = refl

  -- Assigning at the end of a chain of methods is assigning after the chain of calls.
  pub then_method-assign :
      (m : Exec W A) (k : A → Exec W B) (w : W)
      → then_method m (λ a. then_assign (k a) set s) s w ≡ then_assign (m >>= k) set s w
  then_method-assign m k w = continue_method-assign (m w).0 k (m w).1

pub pure-eq-ok :
    {W A : Type 0} (a : A) (w : W) {b : A} {w' : W} → pure a w ≡ (ok b, w') → (a ≡ b) × (w ≡ w')
pure-eq-ok a w h = (cc, cc)

-- An error ends a sequence, and leaves the receiver alone.
pub err->>= :
    {W A B : Type 0} (m : Exec W A) (f : A → Exec W B) (w : W) {e : Error} {u : W}
    → m w ≡ (err e, u)
    → (m >>= f) w ≡ (err e, u)
err->>= m f w h = rw h

pub then_assign-err :
    {S W A : Type 0} (set : A → S) (s : S) (m : Exec W A) (w : W) {e : Error} {u : W}
    → m w ≡ (err e, u)
    → then_assign m set s w ≡ (err e, s, u)
then_assign-err set s m w h = rw h

module _ {S W A : Type 0} where
  continue_method-eq-ok :
      (r : Result A) (f : A → Method S W) (s : S) (u : W) {s' : S} {w' : W}
      → continue_method r f s u ≡ (ok tt, s', w')
      → (a : A) × (r ≡ ok a) × (f a u ≡ (ok tt, s', w'))
  continue_method-eq-ok (ok a) f s u h = (a, refl, h)
  continue_method-eq-ok (err e) f s u h = cc
  continue_method-eq-ok panic f s u h = cc
  continue_method-eq-ok hang f s u h = cc

  -- A chain of a call and a method that succeeds has succeeded in both parts.
  pub then_method-eq-ok :
      (m : Exec W A) (f : A → Method S W) (s : S) (w : W) {s' : S} {w' : W}
      → then_method m f s w ≡ (ok tt, s', w')
      → (a : A) × (u : W) × (m w ≡ (ok a, u)) × (f a u ≡ (ok tt, s', w'))
  then_method-eq-ok m f s w h =
      let (a, e, h') = continue_method-eq-ok (m w).0 f s (m w).1 h in
      (a, (m w).1, ap (λ (r : Result A). (r, (m w).1)) e, h')

  pub ok-then_method :
      (m : Exec W A) (f : A → Method S W) (s : S) (w : W) {a : A} {u : W}
      → m w ≡ (ok a, u)
      → then_method m f s w ≡ f a u
  ok-then_method m f s w h = rw h

-- An Invoke that returns without an error has passed the tests on its way.
pub or_reply-returns :
    {W : Type 0} (r : Result Value) (k : Value → W → Reply × W) (w : W) {v : Value} {w' : W}
    → or_reply r k w ≡ (returns v none, w')
    → (x : Value) × (r ≡ ok x) × (k x w ≡ (returns v none, w'))
or_reply-returns (ok x) k w h = (x, refl, h)
or_reply-returns (err e) k w h = cc
or_reply-returns panic k w h = cc
or_reply-returns hang k w h = cc
