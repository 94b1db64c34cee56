-- ===== src/Protocol/Cors.antt =====
-- protocol/cors.go: the detector `cors`.
use security_go.Shared.{String, List, [], ◌∷◌, true}
use security_go.Security.{Result, Regexp, clean, medium, str}
use security_go.Security.Patterns.{search_one}

abbrev pub name : String
name = "cors"

abbrev pub patterns : List String
patterns =
    "(?i)Origin:\\s*null" ∷ "(?i)Access-Control-Allow-Origin:\\s*\\*"
    ∷ "(?i)Access-Control-Allow-Credentials:\\s*true" ∷ []

abbrev pub found : String → String → Result
found input m = record {
  name = name;
  detected = true;
  message = "CORS bypass pattern detected: overly permissive CORS configuration";
  severity = medium;
  details = ("matched_pattern", str m) ∷ ("input", str input) ∷ [];
}

unfoldable pub detect : Regexp → String → Result
unfolding search_one
detect rx input = search_one rx input patterns (found input) (clean name)
