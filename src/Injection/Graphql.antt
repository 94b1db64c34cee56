-- ===== src/Injection/Graphql.antt =====
-- injection/graphql.go: the detector `graphql_injection`.
use Prim.Native.String.{◌++◌}
use security_go.Shared.{String, List, [], ◌∷◌, true}
use security_go.Security.{Result, Regexp, clean, medium, str}
use security_go.Security.Patterns.{search_one}

abbrev pub name : String
name = "graphql_injection"

abbrev pub patterns : List String
patterns =
    "(?i)\\b__schema\\b" ∷ "(?i)\\b__type\\b" ∷ "(?i)\\b__typename\\b"
    ∷ "\\{[^}]*\\{[^}]*\\{[^}]*\\{[^}]*\\{[^}]*\\{" ∷ "(?i)\\bmutation\\s*\\{" ∷ []

abbrev pub found : String → String → Result
found input m = record {
  name = name;
  detected = true;
  message = "GraphQL injection/introspection pattern detected: " ++ m;
  severity = medium;
  details = ("pattern", str m) ∷ [];
}

unfoldable pub detect : Regexp → String → Result
unfolding search_one
detect rx input = search_one rx input patterns (found input) (clean name)
