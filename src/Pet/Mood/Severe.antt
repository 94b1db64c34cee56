-- ===== src/Pet/Mood/Severe.antt =====
-- pet/mood.go: what alarms the mascot.
use security_go.Shared.{◌≡◌, ◌⊎◌, true, List, [], ◌∷◌, Option, none, some}
use security_go.Security.{Result}
use security_go.Pet.Mood.{Mood, calm, watchful, alarmed, is_severe, scan_mood}

-- A detected result of high or critical severity is among the results.
abbrev pub HasSevere : List (Option Result) → Type 0
HasSevere [] = ⊥
HasSevere (none ∷ rs) = HasSevere rs
HasSevere (some r ∷ rs) = ((r.detected ≡ true) × (is_severe r.severity ≡ true)) ⊎ HasSevere rs

-- A detected result is among the results.
abbrev pub HasHit : List (Option Result) → Type 0
HasHit [] = ⊥
HasHit (none ∷ rs) = HasHit rs
HasHit (some r ∷ rs) = (r.detected ≡ true) ⊎ HasHit rs

abbrev Classified : Mood → List (Option Result) → Type 0
Classified mood rs =
    ((scan_mood mood rs ≡ alarmed) × HasSevere rs)
    ⊎ ((scan_mood mood rs ≡ watchful) × (¬ HasSevere rs) × ((mood ≡ watchful) ⊎ HasHit rs))
    ⊎ ((scan_mood mood rs ≡ calm) × (mood ≡ calm) × ¬ HasHit rs)
