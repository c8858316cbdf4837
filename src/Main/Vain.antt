-- ===== src/Main/Vain.antt =====
-- main with the Kafka source, when Serve has returned once: the two loops, one around the other.
use fnrun.Prelude.{
  ℕ, zero, suc, ◌≡◌, refl, sym, ap, subst, ◌∙◌, true, false, none, some, List, String,
}
use fnrun.Exec.{Error, Result, err, Fn}
use fnrun.Runner.{Runner}
use fnrun.Runner
use fnrun.Sources.Kafka.{Handler}
use fnrun.Sources.Kafka.Serving.{KafkaSource, serve}
use fnrun.Sources.Kafka.Restarting.{serve-IsClosed, closed_fails}
use fnrun.Main.{Platform, Line, background, after_run, rounds}
use fnrun.Main.Cells.{Memory}
use fnrun.Main.Served.{KafkaPackage, kafka_source}
use fnrun.Main.Restarting.{IsReturned, resumed, Restarts, first, again, after_run-returned}

module _ {Version Group W : Type 0} (platform : Platform W) (p : KafkaPackage Version Group W)
    (memory : Memory p.cells) (IsClosed : Group → W → Type 0)
    (closes : (client : Group) (w : W) → IsClosed client (p.sarama.close client w)) (a : ℕ)
    (client : Group) (r : Runner W) (f : Fn W) where
  -- The source at the address has the client, which is closed.
  abbrev pub IsStuck : W → Type 0
  IsStuck w = ((p.cells.read a w).client ≡ some client) × IsClosed client w

  run-source :
      (w : W)
      → r.source ≡ some (kafka_source p a)
      → r.fn ≡ some f
      → Runner.run r (background platform) w ≡ kafka_source p a (background platform) f w
  unfolding Runner.run
  run-source w s g = rw (s, g)

  -- What Serve gives is what the run gives, with the source stored.
  serve-run :
      (n : ℕ) (k : KafkaSource Version Group) (w w' : W) (x : Result (Unit {0}))
      → r.source ≡ some (kafka_source p a)
      → r.fn ≡ some f
      → serve p.sarama n (p.cells.read a w) (background platform) f w ≡ some (x, k, w')
      → Runner.run r (background platform) w ≡ (x, p.cells.write a k w')
  unfolding kafka_source
  serve-run n k w w' x s g h =
      run-source w s g
      ∙ ap
          (λ (y : Result (Unit {0}) × KafkaSource Version Group × W).
            (y.0, p.cells.write a y.1 y.2))
          ((p.serve (p.cells.read a w) (background platform) f).agrees n w (x, k, w') h)

  module _ (closed : Error)
      (refuses : (c : Group) (topics : List String) (h : Handler W) (w : W)
        → IsClosed c w
        → p.sarama.consume c topics h w ≡ (err closed, w))
      (endless : (w : W) → p.sarama.is_cancelled (background platform) w ≡ false)
      (writes : (k : KafkaSource Version Group) (w : W)
        → IsClosed client w
        → IsClosed client (p.cells.write a k w))
      (logs : (line : Line) (w : W) → IsStuck w → IsStuck (platform.log line w))
      (waits : (w : W) → IsStuck w → IsStuck (platform.wait platform.restart_wait w))
      (s : r.source ≡ some (kafka_source p a)) (g : r.fn ≡ some f) where
    write-IsStuck :
        (k : KafkaSource Version Group) (w : W)
        → k.client ≡ some client
        → IsClosed client w
        → IsStuck (p.cells.write a k w)
    write-IsStuck k w e c = (
      ap (λ (x : KafkaSource Version Group). x.client) (memory.read-write a k w) ∙ e,
      writes k w c,
    )

    stuck_again : W → W
    stuck_again w = p.cells.write a (p.cells.read a w) (p.sarama.close client w)

    run-IsStuck :
        (w : W) → IsStuck w → Runner.run r (background platform) w ≡ (err closed, stuck_again w)
    unfolding stuck_again
    run-IsStuck w (e, c) =
        serve-run 1 (p.cells.read a w) w (p.sarama.close client w) (err closed) s g (
          closed_fails p.sarama IsClosed closes closed refuses 0 (p.cells.read a w)
            (background platform) f w client e c (endless w))

    stuck_again-IsStuck : (w : W) → IsStuck w → IsStuck (stuck_again w)
    unfolding stuck_again
    stuck_again-IsStuck w (e, c) =
        write-IsStuck (p.cells.read a w) (p.sarama.close client w) e (closes client w)

    resumed-IsStuck : (x : Result (Unit {0})) (w : W) → IsStuck w → IsStuck (resumed platform r x w)
    resumed-IsStuck x w i = logs _ _ (waits _ (logs _ _ (logs _ _ i)))

    next_round :
        (n : ℕ) (w u : W) (x : Result (Unit {0}))
        → platform.auto_restart ≡ true
        → Runner.run r (background platform) w ≡ (x, u)
        → IsReturned x
        → rounds platform (suc n) r w ≡ rounds platform n r (resumed platform r x u)
    unfolding rounds
    next_round n w u x auto ran returned =
        ap (after_run platform (λ z. rounds platform n r z)) ran
        ∙ after_run-returned platform r (λ z. rounds platform n r z) x u auto returned

    rounds-IsStuck :
        (n : ℕ) (w : W) → platform.auto_restart ≡ true → IsStuck w → rounds platform n r w ≡ none
    unfolding rounds
    rounds-IsStuck zero w auto i = refl
    rounds-IsStuck (suc n) w auto i =
        next_round n w (stuck_again w) (err closed) auto (run-IsStuck w i) tt
        ∙ rounds-IsStuck n (resumed platform r (err closed) (stuck_again w)) auto
            (resumed-IsStuck (err closed) (stuck_again w) (stuck_again-IsStuck w i))

    Restarts-IsStuck : (n : ℕ) (w v : W) → Restarts platform r n w v → IsStuck w → IsStuck v
    Restarts-IsStuck zero w v first i = i
    Restarts-IsStuck (suc n) w v (again {u = u} {x = x} ran returned rest) i =
        let e = ap (λ (y : Result (Unit {0}) × W). y.1) (sym ran ∙ run-IsStuck w i) in
        Restarts-IsStuck n (resumed platform r x u) v rest
          (resumed-IsStuck x u (subst IsStuck (sym e) (stuck_again-IsStuck w i)))

    -- A first run that returns and leaves the source stuck.
    first_round :
        (m : ℕ) (w u : W) (x : Result (Unit {0}))
        → platform.auto_restart ≡ true
        → Runner.run r (background platform) w ≡ (x, u)
        → IsReturned x
        → IsStuck (resumed platform r x u)
        → rounds platform m r w ≡ none
    unfolding rounds
    first_round zero w u x auto ran returned i = refl
    first_round (suc m) w u x auto ran returned i =
        next_round m w u x auto ran returned ∙ rounds-IsStuck m (resumed platform r x u) auto i

    later_run :
        (m : ℕ) (w v u : W) (x : Result (Unit {0}))
        → Runner.run r (background platform) w ≡ (x, u)
        → IsStuck (resumed platform r x u)
        → Restarts platform r (suc m) w v
        → (Runner.run r (background platform) v).0 ≡ err closed
    later_run m w v u x ran i (again {u = u'} {x = x'} ran' returned rest) =
        let same : ◌≡◌ {A = Result (Unit {0}) × W} (x, u) (x', u') = sym ran ∙ ran' in
        let i' =
          subst (λ (y : Result (Unit {0}) × W). IsStuck (resumed platform r y.0 y.1)) same i in
        ap (λ (y : Result (Unit {0}) × W). y.0)
          (run-IsStuck v (Restarts-IsStuck m (resumed platform r x' u') v rest i'))

    -- main restarts automatically and runs the Kafka source. Suppose that Close closes a client, that
    -- Consume gives an error on a closed client, that a client stays closed under logging, waiting and
    -- storing the source, that logging and waiting leave the client of the source as it is, and that the
    -- background context is never cancelled. Once Serve has returned, with a client, in the first run,
    -- the loop never ends, and every later run fails with that error.
    pub served_in_vain :
        (n : ℕ) (k : KafkaSource Version Group) (w w' : W) (x : Result (Unit {0}))
        → platform.auto_restart ≡ true
        → serve p.sarama n (p.cells.read a w) (background platform) f w ≡ some (x, k, w')
        → k.client ≡ some client
        → IsReturned x
        → ((m : ℕ) → rounds platform m r w ≡ none)
          × ((m : ℕ) (v : W)
              → Restarts platform r (suc m) w v
              → (Runner.run r (background platform) v).0 ≡ err closed)
    served_in_vain n k w w' x auto h e returned =
        let stored = p.cells.write a k w' in
        let ran = serve-run n k w w' x s g h in
        let c =
          serve-IsClosed p.sarama IsClosed closes n (p.cells.read a w) k (background platform) f w
            w' x client h e in
        let i = resumed-IsStuck x stored (write-IsStuck k w' e c) in
        (
          λ m. first_round m w stored x auto ran returned i,
          λ m v restarts. later_run m w v stored x ran i restarts,
        )
