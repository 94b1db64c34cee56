-- ===== src/Security/Patterns.antt =====
-- security.go: the search for the first pattern that matches.
use security_go.Shared.{String, List, [], ◌∷◌, Option, none, some, if◌then◌else◌}
use security_go.Security.{Regexp, Result}

-- `none` is the pair `("", false)`.
unfoldable pub first_match : Regexp → String → List String → Option String
first_match rx input [] = none
first_match rx input (p ∷ patterns) =
    if rx.match_string p input then some p else first_match rx input patterns

-- The shape of the detectors with one list of patterns: the result for the pattern that is found, or
-- the clean one.
unfoldable pub search_one : Regexp → String → List String → (String → Result) → Result → Result
search_one rx input patterns found nothing = elim (first_match rx input patterns) [
  | some m ↦ found m
  | none ↦ nothing
]

-- The same with a second list, which is searched only if the first has no match.
unfoldable pub search_two :
    Regexp
    → String
    → List String
    → (String → Result)
    → List String
    → (String → Result)
    → Result
    → Result
unfolding search_one
search_two rx input patterns found medium_patterns suspicious nothing =
    elim (first_match rx input patterns) [
      | some m ↦ found m
      | none ↦ search_one rx input medium_patterns suspicious nothing
    ]
