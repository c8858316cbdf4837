-- ===== src/Main/Starting.antt =====
-- The set-up of main: from the flags and the configuration's text to a runner.
use fnrun.Prelude.{
  ℕ, suc, String, ◌≡◌, ◌≢◌, refl, sym, ap, ◌∙◌, ◌↔◌, ◌⊎◌, inl, inr, some, Bool-cases, str_eq,
  eq_iff,
}
use fnrun.Value.{object, Fields}
use fnrun.Exec.{Result, ok, err, panic, hang, Exec, Fn, Source, >>=-eq-ok, ok->>=}
use fnrun.Config.{configure}
use fnrun.Registry.{Finders}
use fnrun.Runner.{Runner, RunnerConfig, no_fn, no_middleware, no_source, build}
use fnrun.Runner
use fnrun.Runner.Laws.{configure_map_iff}
use fnrun.Runner.Building.{Builds}
use fnrun.Main.{Packages, Platform, finders, must, or_panic, config_path, runner_object, set_up}
use fnrun.Main.Objects.{Libraries}
use fnrun.Main.Assembling.{configured_by_iff}
use fnrun.Main.Program.{Assembles, Builds-iff-Assembles}

module _ {W A : Type 0} where
  or_panic-eq-ok :
      (r : Result A) (u : W) {a : A} {w' : W}
      → ◌≡◌ {A = Result A × W} (or_panic r, u) (ok a, w')
      → ◌≡◌ {A = Result A × W} (r, u) (ok a, w')
  or_panic-eq-ok (ok x) u h = h
  or_panic-eq-ok (err e) u h = cc
  or_panic-eq-ok panic u h = cc
  or_panic-eq-ok hang u h = cc

  must-eq-ok : (m : Exec W A) (w : W) {a : A} {w' : W} → must m w ≡ (ok a, w') → m w ≡ (ok a, w')
  must-eq-ok m w h = or_panic-eq-ok (m w).0 (m w).1 h

  ok-must : (m : Exec W A) (w : W) {a : A} {w' : W} → m w ≡ (ok a, w') → must m w ≡ (ok a, w')
  ok-must m w h = ap (λ (r : Result A × W). (or_panic r.0, r.1)) h

module _ {W : Type 0} (platform : Platform W) (registry : Finders W) where
  runner_object_iff :
      (fs : Fields) (w : W) (r : Runner W) (w' : W)
      → (configure (runner_object platform registry) (object fs) w ≡ (ok r, w')) ↔ (
          (f : Fn W) × (s : Source W) × Builds registry (platform.decode fs) w f s w'
          × (r ≡ record { registry = registry; source = some s; fn = some f }))
  unfolding configure runner_object Runner.new
  runner_object_iff fs w r w' =
      let step =
        configured_by_iff (λ (q : Runner W). q)
          (Runner.configure_map platform.decode fs (Runner.new registry)) w r w' in
      let built =
        λ (q : Runner W). configure_map_iff platform.decode fs (Runner.new registry) w q w' in
      (
        λ h.
            let (q, configured, e) = step.0 h in
            let (f, s, builds, e') = (built q).0 configured in (f, s, builds, e ∙ e'),
        λ (f, s, builds, e). step.1 (r, (built r).1 (f, s, builds, e), refl),
      )

  abbrev parsed : String → Exec W Fields
  parsed bytes w = (platform.unmarshal (platform.expand_env bytes), w)

  abbrev configured : Fields → Exec W (Runner W)
  configured fs = configure (runner_object platform registry) (object fs)

  -- The three calls that main insists on.
  set_up_calls :
      (w : W) (r : Runner W) (w' : W)
      → (set_up platform registry w ≡ (ok r, w')) ↔ (
          (bytes : String) × (u : W) × (fs : Fields) × (platform.read_file (config_path platform) w
            ≡ (ok bytes, u))
          × (platform.unmarshal (platform.expand_env bytes) ≡ ok fs)
          × (configured fs u ≡ (ok r, w')))
  unfolding set_up
  set_up_calls w r w' =
      let read = platform.read_file (config_path platform) in
      (
        λ h.
            let (bytes, u, h₀, h₁) = >>=-eq-ok (must read) _ w h in
            let (fs, v, h₂, h₃) = >>=-eq-ok (must (parsed bytes)) _ u h₁ in
            let e = must-eq-ok (parsed bytes) u h₂ in
            (
              bytes,
              u,
              fs,
              must-eq-ok read w h₀,
              ap (λ (x : Result Fields × W). x.0) e,
              ap (configured fs) (ap (λ (x : Result Fields × W). x.1) e)
                  ∙ must-eq-ok (configured fs) v h₃,
            ),
        λ (bytes, u, fs, e, e', e₂).
            ok->>= (must read) _ w (ok-must read w e)
            ∙ ok->>= (must (parsed bytes)) _ u (ok-must (parsed bytes) u (ap (λ x. (x, u)) e'))
            ∙ ok-must (configured fs) u e₂,
      )

-- The path of the configuration: CONFIG_FILE if it is set, and else the flag.
abbrev pub IsPath : {W : Type 0} → Platform W → String → Type 0
IsPath platform path =
    ((platform.getenv "CONFIG_FILE" ≡ "") × (path ≡ platform.file_path))
    ⊎ ((platform.getenv "CONFIG_FILE" ≢ "") × (path ≡ platform.getenv "CONFIG_FILE"))

module _ {W : Type 0} (platform : Platform W) where
  config_path-IsPath : IsPath platform (config_path platform)
  unfolding config_path
  config_path-IsPath = elim (Bool-cases (str_eq (platform.getenv "CONFIG_FILE") "")) [
    | inl b ↦ inl ((eq_iff (platform.getenv "CONFIG_FILE") "").0 b, rw b)
    | inr b ↦ inr (λ e. let set = (eq_iff (platform.getenv "CONFIG_FILE") "").1 e in cc, rw b)
  ]

  IsPath-config_path : (path : String) → IsPath platform path → path ≡ config_path platform
  unfolding config_path
  IsPath-config_path path (inl (e, at)) =
      rw (config_path, (eq_iff (platform.getenv "CONFIG_FILE") "").1 e) at
  IsPath-config_path path (inr (ne, at)) =
      elim (Bool-cases (str_eq (platform.getenv "CONFIG_FILE") "")) [
        | inl b ↦ absurd (ne ((eq_iff (platform.getenv "CONFIG_FILE") "").0 b))
        | inr b ↦ rw (config_path, b) at
      ]

module _ {Code W : Type 0} (libs : Libraries Code W) (packages : Packages W) (platform : Platform W)
    (n : ℕ) where
  -- With its registry followed into itself once more than `n` times, main gets as far as running a
  -- runner exactly when the file at the path from the flag, or from
  -- CONFIG_FILE if it is set, can be read and is YAML once its variables are expanded, and the
  -- configuration names a fn, a source, and middlewares, or none, that can be made; the runner then has
  -- the named source, and the named fn within the composition of the named middlewares.
  pub set_up_iff :
      (w : W) (r : Runner W) (w' : W)
      → (set_up platform (finders libs packages (suc n)) w ≡ (ok r, w')) ↔ (
          (path : String) × (bytes : String) × (u : W) × (fs : Fields) × (f : Fn W) × (s : Source W)
          × IsPath platform path
          × (platform.read_file path w ≡ (ok bytes, u))
          × (platform.unmarshal (platform.expand_env bytes) ≡ ok fs)
          × Assembles (finders libs packages n) (platform.decode fs) u f s w'
          × (r ≡ record { registry = finders libs packages (suc n); source = some s; fn = some f }))
  unfolding finders
  set_up_iff w r w' =
      let registry = finders libs packages (suc n) in
      let calls = set_up_calls platform registry w r w' in
      let same = Builds-iff-Assembles libs packages (finders libs packages n) in
      (
        λ h.
            let (bytes, u, fs, read, parsed, configured) = calls.0 h in
            let (f, s, builds, e) = (runner_object_iff platform registry fs u r w').0 configured in
            (
              config_path platform,
              bytes,
              u,
              fs,
              f,
              s,
              config_path-IsPath platform,
              read,
              parsed,
              (same (platform.decode fs) u f s w').0 builds,
              e,
            ),
        λ (path, bytes, u, fs, f, s, is_path, read, parsed, assembles, e). calls.1 (
          bytes,
          u,
          fs,
          ap (λ x. platform.read_file x w) (sym (IsPath-config_path platform path is_path)) ∙ read,
          parsed,
          (runner_object_iff platform registry fs u r w').1
              (f, s, (same (platform.decode fs) u f s w').1 assembles, e),
        ),
      )
