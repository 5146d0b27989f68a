-- ===== src/Browser/Examples.antt =====
-- A theme that follows the system, and one that does not.
use remote_agent.Common.{true, false, none, [], ◌∷◌}
use remote_agent.Browser.Theme.{
  Look, light, system, InStep, chooses, prefers, changes, init_theme, changes-init_theme-InStep,
}

abbrev unset : Look
unset = record { stored = none; prefers_light = false; shade = none }

changes-init_theme-InStep_example : InStep (
    changes (chooses system ∷ prefers true ∷ chooses light ∷ prefers false ∷ []) (init_theme unset))
changes-init_theme-InStep_example =
    changes-init_theme-InStep (chooses system ∷ prefers true ∷ chooses light ∷ prefers false ∷ [])
      unset
