-- ===== src/Injection/Nosql.antt =====
-- injection/nosql.go: the detector `nosql_injection`.
use Prim.Native.String.{◌++◌}
use security_go.Shared.{String, List, [], ◌∷◌, true}
use security_go.Security.{Result, Regexp, clean, high, str}
use security_go.Security.Patterns.{search_one}

abbrev pub name : String
name = "nosql_injection"

abbrev pub patterns : List String
patterns =
    "(?i)\"?\\$(?:ne|gt|gte|lt|lte|eq|in|nin|regex|where|or|and|nor|not|exists|type|mod|text|search|expr)\\b\"?:?\\s*[\"'\\[]"
    ∷ "(?i)\\{.*\"\\$(?:ne|gt|regex|where)\"\\s*:" ∷ "(?i)\"\\$where\"\\s*:\\s*\"" ∷ []

abbrev pub found : String → String → Result
found input m = record {
  name = name;
  detected = true;
  message = "NoSQL injection pattern detected: " ++ m;
  severity = high;
  details = ("pattern", str m) ∷ [];
}

unfoldable pub detect : Regexp → String → Result
unfolding search_one
detect rx input = search_one rx input patterns (found input) (clean name)
