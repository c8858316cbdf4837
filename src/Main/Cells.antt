-- ===== src/Main/Cells.antt =====
-- Objects that their own methods change, at addresses of the world.
use fnrun.Prelude.{ℕ, suc, ◌<◌, ◌≤◌, ◌≡◌, ◌≢◌, refl, ◌∙◌, arith}
use fnrun.Value.{Value}
use fnrun.Exec.{Context, Reply, Fn, Middleware, Exec, pure, Method, as_configured}
use fnrun.Config.{Configurable}
use fnrun.Registry.{Factory}

-- The part of the world that holds the objects of one type.
pub record Cells (S W : Type 0) : Type 0 where
  pub alloc : S → W → ℕ × W
  pub read : ℕ → W → S
  pub write : ℕ → S → W → W

module _ {S W : Type 0} (cells : Cells S W) where
  -- A factory that allocates its object.
  unfoldable pub factory : {I : Type 0} → S → (ℕ → Configurable W I) → Factory W I
  factory s object w = let (a, w') = cells.alloc s w in pure (object a) w'

  -- A configuration method, called on the object at an address.
  unfoldable pub configured_at : {I : Type 0} → ℕ → I → (S → Method S W) → Exec W I
  configured_at a i method w =
      let (r, s, w') = method (cells.read a w) w in (as_configured (λ _. i) r s, cells.write a s w')

  -- Invoke of a fn and of a middleware, called on the object at an address.
  unfoldable pub fn_at : (S → Context → Value → W → Reply × S × W) → ℕ → Fn W
  fn_at invoke a ctx input w =
      let (r, s, w') = invoke (cells.read a w) ctx input w in (r, cells.write a s w')

  unfoldable pub middleware_at : (S → Context → Value → Fn W → W → S × Reply × W) → ℕ → Middleware W
  middleware_at invoke a ctx input f w =
      let (s, r, w') = invoke (cells.read a w) ctx input f w in (r, cells.write a s w')

-- What a memory does: a new object is at the next address, and reading gives what was written last.
pub record Memory {S W : Type 0} (cells : Cells S W) : Type 0 where
  pub next : W → ℕ
  pub alloc-next : (s : S) (w : W) → (cells.alloc s w).0 ≡ next w
  pub next-alloc : (s : S) (w : W) → next (cells.alloc s w).1 ≡ suc (next w)
  pub next-write : (a : ℕ) (s : S) (w : W) → next (cells.write a s w) ≡ next w
  pub read_new : (s : S) (w : W) → cells.read (cells.alloc s w).0 (cells.alloc s w).1 ≡ s
  pub read-alloc :
      (a : ℕ) (s : S) (w : W) → a < next w → cells.read a (cells.alloc s w).1 ≡ cells.read a w
  pub read-write : (a : ℕ) (s : S) (w : W) → cells.read a (cells.write a s w) ≡ s
  pub read_other :
      (a b : ℕ) (s : S) (w : W) → a ≢ b → cells.read b (cells.write a s w) ≡ cells.read b w

module _ {S W : Type 0} {cells : Cells S W} (memory : Memory cells) where
  -- From one world to the other, the objects that there are have stayed as they are.
  pub record Keeps (w u : W) : Type 0 where
    pub grows : memory.next w ≤ memory.next u
    pub same : (a : ℕ) → a < memory.next w → cells.read a u ≡ cells.read a w

  pub Keeps-refl : (w : W) → Keeps w w
  Keeps-refl w = record { grows = omega arith; same = λ a less. refl }

  pub Keeps-trans : (w u v : W) → Keeps w u → Keeps u v → Keeps w v
  Keeps-trans w u v k k' = record {
    grows = omega (arith, k.grows, k'.grows);
    same = λ a less. k'.same a (omega (arith, less, k.grows)) ∙ k.same a less;
  }

  pub alloc-Keeps : (s : S) (w : W) → Keeps w (cells.alloc s w).1
  alloc-Keeps s w = record {
    grows = omega (arith, memory.next-alloc s w);
    same = λ a less. memory.read-alloc a s w less;
  }

  -- Writing to an object that is newer changes none of the older ones.
  pub write-Keeps :
      (w u : W) (a : ℕ) (s : S) → Keeps w u → memory.next w ≤ a → Keeps w (cells.write a s u)
  write-Keeps w u a s k new = record {
    grows = omega (arith, k.grows, memory.next-write a s u);
    same = λ b less.
        memory.read_other a b s u (λ e. absurd (omega (arith, new, less, e))) ∙ k.same b less;
  }
