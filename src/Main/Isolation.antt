-- ===== src/Main/Isolation.antt =====
-- The fns of a pool of commands: each has a service of its own.
use fnrun.Prelude.{
  ℕ, zero, suc, ◌≤◌, ◌≡◌, refl, sym, ap, ap₂, subst, some, ◌∙◌, String, false, List, [], ◌∷◌, All,
  map, length, arith,
}
use fnrun.Value.{Value, str, object, Fields, end, field}
use fnrun.Value.Int.{ℤ}
use fnrun.Exec.{
  Result, ok, err, panic, hang, as_configured, Fn, >>=-eq-ok, pure-eq-ok, then_assign_iff,
  then_method-eq-ok, ◌>>=◌,
}
use fnrun.Config.{configure, get_single_pair}
use fnrun.Registry.{Finders}
use fnrun.Fns.Cli
use fnrun.Fns.Cli.{CliFn, service, new_inner}
use fnrun.Fns.Cli.Os.{create_base_cmd}
use fnrun.Fns.Cli.Configuring.{unstarted, new_inner-Becomes}
use fnrun.Main.Cells.{
  Memory, Keeps, Keeps-refl, Keeps-trans, alloc-Keeps, write-Keeps, factory, configured_at,
}
use fnrun.Pool
use fnrun.Pool.{PoolFn, PoolConfig, create_fn_from_template}
use fnrun.Pool.Filling.{CreatesAll, no_more, one_more, length-CreatesAll}
use fnrun.Pool.Configuring.{IsConcurrency, configure_pool_iff}
use fnrun.Pool.Invoking.{channel}
use fnrun.Main.{Packages, main_finders}
use fnrun.Main.Objects.{Libraries}
use fnrun.Main.Assembling.{open_main}
use fnrun.Main.Placed.{CliPackage, cli_fn, cli_object, cli_factory}

-- A cli fn that is a service, which has started no process yet.
abbrev pub IsFresh : {Cmd Run Stdin : Type 0} → CliFn Cmd Run Stdin → Type 0
IsFresh {Cmd = Cmd} c = (own : Cmd) × (c.f ≡ service (unstarted own))

-- Addresses from `n` on, each greater than the one before.
abbrev pub Ascending : ℕ → List ℕ → Type 0
Ascending n [] = Unit
Ascending n (a ∷ rest) = (n ≤ a) × Ascending (suc a) rest

Ascending-from :
    {m n : ℕ} → m ≤ n → (addresses : List ℕ) → Ascending n addresses → Ascending m addresses
Ascending-from h [] up = tt
Ascending-from h (a ∷ rest) (le, up) = (omega (arith, h, le), up)

as_configured-eq-ok :
    {S A : Type 0} (i x : A) (r : Result (Unit {0})) (s : S)
    → as_configured (λ _. i) r s ≡ ok x
    → (r ≡ ok tt) × (x ≡ i)
as_configured-eq-ok i x (ok _) s h = (refl, cc)
as_configured-eq-ok i x (err e) s h = cc
as_configured-eq-ok i x panic s h = cc
as_configured-eq-ok i x hang s h = cc

-- A pool's template that names the cli fn, with a command.
abbrev pub commands : String → Value
commands s = object (field "fnrun.fn/cli" (str s) end)

module _ {Cmd Run Stdin W : Type 0} (p : CliPackage Cmd Run Stdin W) where
  -- main's registry, with the factory of the cli package.
  abbrev pub with_cli : {Code : Type 0} → Libraries Code W → Packages W → Finders W → Finders W
  with_cli libs packages self = main_finders libs (record packages { cli = cli_factory p }) self

  -- The fns of a pool: at ascending addresses, where each has a service of its own.
  abbrev pub Separate : Memory p.cells → W → List (Fn W) → W → Type 0
  Separate memory w fns w' =
      (addresses : List ℕ) × (fns ≡ map (cli_fn p) addresses)
      × Ascending (memory.next w) addresses
      × All (λ a. (suc a ≤ memory.next w') × IsFresh (p.cells.read a w')) addresses
      × Keeps memory w w'

module _ {Cmd Run Stdin W : Type 0} (p : CliPackage Cmd Run Stdin W) (memory : Memory p.cells)
    (parses : (s : String) (w : W) → Keeps memory w (p.os.parse_cmd s w).1)
    (clones : (cmd : Cmd) (w : W) → Keeps memory w (p.os.clone_cmd cmd w).1) where
  abbrev Object : Type 0
  Object = CliFn Cmd Run Stdin

  configure_string-IsFresh :
      (s : String) (c c' : Object) (w w' : W)
      → Cli.configure_string p.os s c w ≡ (ok tt, c', w')
      → Keeps memory w w' × IsFresh c'
  unfolding Cli.configure_string create_base_cmd
  configure_string-IsFresh s c c' w w' h =
      let (cmd, u, created, h') = then_method-eq-ok (create_base_cmd p.os s []) _ c w h in
      let (f, made, e) =
        (then_assign_iff (λ f. record { f = f }) c (new_inner p.os false cmd) u c' w').0 h' in
      let (own, cloned, fresh) = new_inner-Becomes p.os false cmd u w' f made in
      let (cmd₀, v, parsed, ended) = >>=-eq-ok (p.os.parse_cmd s) _ w created in
      let at_v : v ≡ u = (pure-eq-ok _ v ended).1 in
      let kept : Keeps memory w v =
        subst (Keeps memory w) (ap (λ (x : Result Cmd × W). x.1) parsed) (parses s w) in
      let kept' : Keeps memory u w' =
        subst (Keeps memory u) (ap (λ (x : Result Cmd × W). x.1) cloned) (clones cmd u) in
      (
        Keeps-trans memory w u w' (subst (Keeps memory w) at_v kept) kept',
        (own, ap (λ (x : Object). x.f) e ∙ fresh),
      )

  -- Making a cli fn from a command's string: a new object, at an address that no other has.
  abbrev IsMade : W → ℕ → Fn W → W → Type 0
  IsMade w a f u =
      (memory.next w ≤ a)
      × (suc a ≤ memory.next u)
      × (f ≡ cli_fn p a)
      × Keeps memory w u
      × IsFresh (p.cells.read a u)

  configured_at-IsMade :
      (s : String) (a : ℕ) (v u : W) (f : Fn W)
      → configured_at p.cells a (cli_fn p a) (Cli.configure_string p.os s) v ≡ (ok f, u)
      → (c : Object) × (v' : W) × Keeps memory v v'
        × IsFresh c
        × (f ≡ cli_fn p a)
        × (u ≡ p.cells.write a c v')
  unfolding configured_at
  configured_at-IsMade s a v u f h =
      let r : Result (Unit {0}) × Object × W = Cli.configure_string p.os s (p.cells.read a v) v in
      let (fine, made) =
        as_configured-eq-ok (cli_fn p a) f r.0 r.1 (ap (λ (x : Result (Fn W) × W). x.0) h) in
      let (kept, fresh) =
        configure_string-IsFresh s (p.cells.read a v) r.1 v r.2 (ap (λ z. (z, r.1, r.2)) fine) in
      (r.1, r.2, kept, fresh, made, sym (ap (λ (x : Result (Fn W) × W). x.1) h))

  IsMade-from_string :
      (s : String) (w u : W) (f : Fn W)
      → (cli_factory p >>= λ x. configure x (str s)) w ≡ (ok f, u)
      → (a : ℕ) × IsMade w a f u
  unfolding cli_factory factory cli_object configure
  IsMade-from_string s w u f h =
      let a = (p.cells.alloc Cli.new w).0 in
      let v = (p.cells.alloc Cli.new w).1 in
      let (c, v', kept, fresh, made, e) = configured_at-IsMade s a v u f h in
      let new : a ≡ memory.next w = memory.alloc-next Cli.new w in
      let grown : memory.next v ≡ suc (memory.next w) = memory.next-alloc Cli.new w in
      let kept' : Keeps memory w v' =
        Keeps-trans memory w v v' (alloc-Keeps memory Cli.new w) kept in
      let written = memory.next-write a c v' in
      (
        a,
        (
          omega (arith, new),
          subst (λ x. suc a ≤ memory.next x) (sym e)
              (omega (arith, new, grown, kept.grows, written)),
          made,
          subst (Keeps memory w) (sym e) (write-Keeps memory w v' a c kept' (omega (arith, new))),
          subst (λ x. IsFresh (p.cells.read a x)) (sym e)
              (subst IsFresh (sym (memory.read-write a c v')) fresh),
        ),
      )

  module _ {Code : Type 0} (libs : Libraries Code W) (packages : Packages W)
      (self : Finders W) where
    abbrev registry : Finders W
    registry = with_cli p libs packages self

    create_fn-cli :
        (s : String)
        → create_fn_from_template registry (commands s)
          ≡ (cli_factory p >>= λ x. configure x (str s))
    unfolding open_main create_fn_from_template get_single_pair
    create_fn-cli s = refl

    CreatesAll-Separate :
        (s : String) (n : ℕ) (w w' : W) (fns : List (Fn W))
        → CreatesAll registry (commands s) n w fns w'
        → Separate p memory w fns w'
    CreatesAll-Separate s zero w _ _ no_more = ([], refl, tt, tt, Keeps-refl memory w)
    CreatesAll-Separate s (suc n) w w' _ (one_more {u = u} {f} {fns} created rest) =
        let (a, (at_least, below, made, kept, fresh)) =
          IsMade-from_string s w u f (ap (λ m. m w) (sym (create_fn-cli s)) ∙ created) in
        let (addresses, e, ascending, held, kept') = CreatesAll-Separate s n u w' fns rest in
        (
          a ∷ addresses,
          ap₂ (λ x xs. x ∷ xs) made e,
          (at_least, Ascending-from below addresses ascending),
          (
            (omega (arith, below, kept'.grows), subst IsFresh (sym (kept'.same a below)) fresh),
            held,
          ),
          Keeps-trans memory w u w' kept kept',
        )

    -- Suppose that parsing and copying a command leave the objects of the memory alone. A pool whose
    -- template is a command, as a string for the cli fn, is then configured with cli fns at addresses that are all
    -- different and newer than any object, and so many as the concurrency says; at each of these there
    -- is a service of its own that has not started a process.
    pub pool-Separate :
        (decode : Fields → Result PoolConfig) (parse_duration : String → Result ℤ) (fs : Fields)
        (cfg : PoolConfig) (s : String) (w w' : W) (q : PoolFn W)
        → decode fs ≡ ok cfg
        → cfg.template ≡ commands s
        → Pool.configure_map decode parse_duration fs (Pool.new registry) w ≡ (ok tt, q, w')
        → (n : ℕ) × (fns : List (Fn W)) × IsConcurrency cfg.concurrency n
          × (q.fn_chan ≡ some (channel n fns))
          × (length fns ≡ n)
          × Separate p memory w fns w'
    unfolding Pool.new
    pool-Separate decode parse_duration fs cfg s w w' q decoded template h =
        let (cfg', decoded', (n, d, fns, wait, concurrency, created, e)) =
          (configure_pool_iff decode parse_duration fs (Pool.new registry) w q w').0 h in
        let same : cfg' ≡ cfg = cc in
        let created' : CreatesAll registry (commands s) n w fns w' =
          subst (λ t. CreatesAll registry t n w fns w')
            (ap (λ (c : PoolConfig). c.template) same ∙ template) created in
        (
          n,
          fns,
          subst (λ (c : PoolConfig). IsConcurrency c.concurrency n) same concurrency,
          ap (λ (x : PoolFn W). x.fn_chan) e,
          length-CreatesAll registry (commands s) n w fns w' created',
          CreatesAll-Separate s n w w' fns created',
        )
