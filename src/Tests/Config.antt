-- ===== src/Tests/Config.antt =====
-- Configure, and the registry.
use fnrun.Prelude.{ℕ, ◌≡◌, ◌⊎◌, none, some, true, List, [], ◌∷◌}
use fnrun.Value.{bool}
use fnrun.Exec.{Exec, raise, Fn}
use fnrun.Config.{misconfigured_type_error, configure}
use fnrun.Config.Selection.{Selects}
use fnrun.Config.Refusal.{IsRefused, configure_cases}
use fnrun.Registry.{new_registry, find_fn, find_middleware, find_source}
use fnrun.Registry.Laws.{Registration, fn, fn_with_registry, register_all, find-register_all}
use fnrun.Tests.World.{with_string, echo}

configure_cases_example :
    ((m : Exec ℕ (Fn ℕ)) × Selects (with_string echo) (bool true) m
      × (configure (with_string echo) (bool true) ≡ m))
    ⊎ (IsRefused (with_string echo) (bool true)
        × (configure (with_string echo) (bool true)
            ≡ raise (misconfigured_type_error (with_string echo) (bool true))))
configure_cases_example = configure_cases (with_string echo) (bool true)

abbrev history : List (Registration ℕ ℕ ℕ ℕ)
history = fn "a" 1 ∷ fn_with_registry "b" (λ self. self) ∷ fn "a" 2 ∷ []

find-register_all_example :
    (find_fn (register_all history (new_registry 7)) "a" ≡ some 2)
    × (find_middleware (register_all history (new_registry 7)) "a" ≡ none)
    × (find_source (register_all history (new_registry 7)) "a" ≡ none)
find-register_all_example = find-register_all 7 history "a"
