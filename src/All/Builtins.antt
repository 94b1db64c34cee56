-- ===== src/All/Builtins.antt =====
-- all/all.go: what the engine answers once the detectors are registered.
use security_go.Shared.{Bool, true, not, ◌&&◌, String, List, [], ◌∷◌, All}
use security_go.Security.{Detector}
use security_go.Security.Engine.{Engine}
use text.Mathlib.Text.{◌==◌}

-- None of the detectors has the name.
unfoldable is_new : String → List Detector → Bool
is_new name [] = true
is_new name (d ∷ ds) = not (d.name == name) && is_new name ds

-- No two detectors have the same name.
unfoldable are_distinct : List Detector → Bool
unfolding is_new
are_distinct [] = true
are_distinct (d ∷ ds) = is_new d.name ds && are_distinct ds
