-- ===== src/Pet/Mood/Tests.antt =====
-- pet/mood.go: an example.
use security_go.Shared.{true, false, List, [], ◌∷◌, Option, none, some}
use security_go.Security.{Result, medium, critical}

-- A hit of medium severity, and a critical result that is not detected.
abbrev results : List (Option Result)
results =
    some (record { name = "a"; detected = true; message = ""; severity = medium; details = [] })
    ∷ none
    ∷ some
        (record { name = "b"; detected = false; message = ""; severity = critical; details = [] })
    ∷ []
