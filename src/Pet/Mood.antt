-- ===== src/Pet/Mood.antt =====
-- pet/mood.go: the classification of detection results. A result is `none` for a nil one.
pub mod Severe
mod Tests
use security_go.Shared.{Bool, true, false, not, List, [], ◌∷◌, Option, none, some, if◌then◌else◌}
use security_go.Security.{Result, Severity, low, medium, high, critical}

pub data Mood : Type 0 where
  calm watchful alarmed : Mood

unfoldable pub is_severe : Severity → Bool
is_severe low = false
is_severe medium = false
is_severe high = true
is_severe critical = true

-- The loop, with the mood so far.
unfoldable pub scan_mood : Mood → List (Option Result) → Mood
unfolding is_severe
scan_mood mood [] = mood
scan_mood mood (none ∷ rs) = scan_mood mood rs
scan_mood mood (some r ∷ rs) =
    let same = scan_mood mood rs in
    let raised = scan_mood watchful rs in
    if not r.detected then same else if is_severe r.severity then alarmed else raised

unfoldable pub mood_of : List (Option Result) → Mood
unfolding scan_mood
mood_of results = scan_mood calm results
