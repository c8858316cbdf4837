-- ===== src/Sources/Cron.antt =====
-- run/source/cron: empty inputs, at the times of a schedule.
use fnrun.Prelude.{String, ◌≡◌, ap, ◌∙◌}
use fnrun.Value.{end, object}
use fnrun.Exec.{
  Context, Result, ok, Reply, Fn, Exec, continue, ◌>>=◌, Method, then_assign, then_assign_iff,
}

-- cronSource
pub record CronSource : Type 0 where
  pub cronspec : String

-- robfig/cron: parsing with the source's options, which is also all that AddFunc can fail at, and
-- calling the job at the times of a spec from Start on until the context is done, and Stop.
pub record Cron (W : Type 0) : Type 0 where
  pub parse : String → Result (Unit {0})
  pub run_until_done : String → Context → (W → Reply × W) → Exec W (Unit {0})

-- New
unfoldable pub new : CronSource
new = record { cronspec = "" }

module _ {W : Type 0} (cron : Cron W) where
  -- ConfigureString
  unfoldable pub configure_string : String → CronSource → Method CronSource W
  configure_string cronspec cs =
      then_assign (λ w. (cron.parse cronspec, w)) (λ _. record cs { cronspec = cronspec }) cs

  -- Serve
  unfoldable pub serve : CronSource → Context → Fn W → Exec W (Unit {0})
  serve cs ctx f = do
    _ ← (λ w. (cron.parse cs.cronspec, w))
    cron.run_until_done cs.cronspec ctx (λ w. f ctx (object end) w)

  -- A source that a string has configured goes on to run the schedule of that string, with an empty
  -- map as the input: its spec is not refused a second time.
  pub serve-configure_string :
      (s : String) (cs cs' : CronSource) (ctx : Context) (f : Fn W) (w w' u : W)
      → configure_string s cs w ≡ (ok tt, cs', w')
      → serve cs' ctx f u ≡ cron.run_until_done s ctx (λ v. f ctx (object end) v) u
  unfolding configure_string serve
  serve-configure_string s cs cs' ctx f w w' u h =
      let (a, e, e') =
        (then_assign_iff (λ _. record cs { cronspec = s }) cs (λ u. (cron.parse s, u)) w cs' w').0
          h in
      ap (λ c. serve c ctx f u) e'
      ∙ ap (λ r. continue r (λ _. cron.run_until_done s ctx (λ v. f ctx (object end) v)) u)
          (ap (λ (x : Result (Unit {0}) × W). x.0) e)
