-- ===== src/Tests/Serving.antt =====
-- Executions of a server and of the goroutine that renews a lock.
use fnrun.Prelude.{ℕ, ◌≤◌, ◌≡◌, refl, ◌≢◌, ◌⊎◌, true, false, some}
use fnrun.Value.Int.{pos}
use fnrun.Exec.{text}
use fnrun.Sources.Http.Running.{
  Serving, server_closed, broken, returned_after_done, broken_unnoticed,
}
use fnrun.Sources.Http.Running
use fnrun.Sources.ServiceBus.Renewing
use fnrun.Sources.ServiceBus.Renewing.{Renewing, renews_late_once, cancelled_spoils}

-- The context is cancelled, and the server shuts down in time.
abbrev graceful : (s : Serving) × Running.Reach Running.start s
graceful = (
  _,
  Running.next
      (Running.next
        (Running.next
          (Running.next (Running.next Running.here Running.cancel)
            (Running.begin_shutdown refl refl))
          (Running.close (λ h. cc) refl))
        (Running.shut_down refl))
      (Running.receive server_closed refl refl),
)

returned_after_done_example :
    (graceful.0.is_done ≡ true)
    × ((graceful.0.overran ≡ some server_closed) ⊎ (graceful.0.ending ≡ some server_closed))
returned_after_done_example = returned_after_done server_closed graceful.1 refl

broken_unnoticed_example :
    Running.Step Running.start (broken (text "bad certificate") Running.start)
    × (broken (text "bad certificate") Running.start
        ≡ broken (text "bad certificate") Running.start)
broken_unnoticed_example =
    broken_unnoticed (text "bad certificate") {s = Running.start} refl refl refl Running.still

-- The fn returns while the goroutine sleeps.
late_renewal : (s : Renewing) × Renewing.Reach (Renewing.start (pos 5)) s
unfolding Renewing.start Renewing.first_loop
late_renewal = (
  _,
  Renewing.next
      (Renewing.next (Renewing.next Renewing.here (Renewing.sleep refl refl))
        (Renewing.return refl))
      (Renewing.wake_late refl refl),
)

renews_late_once_example : late_renewal.0.late ≤ 1
renews_late_once_example = renews_late_once (pos 5) late_renewal.1

-- A renewal has failed, and the fn is done.
abbrev spoilt : Renewing
spoilt = record {
  loop = Renewing.testing;
  running = true;
  is_cancelled = true;
  settled_under = fnrun.Prelude.none;
  late = 0;
}

abbrev settled : (s : Renewing) × Renewing.Reach spoilt s
settled = (
  _,
  Renewing.next (Renewing.next Renewing.here (Renewing.return refl)) (Renewing.settle refl refl),
)

cancelled_spoils_example : (settled.0.is_cancelled ≡ true) × (settled.0.settled_under ≢ some false)
cancelled_spoils_example = cancelled_spoils refl refl settled.1
