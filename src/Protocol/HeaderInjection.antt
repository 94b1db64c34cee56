-- ===== src/Protocol/HeaderInjection.antt =====
-- protocol/header_injection.go: the detector `header_injection`.
use security_go.Shared.{String, List, [], ◌∷◌, true}
use security_go.Security.{Result, Regexp, clean, high, str}
use security_go.Security.Patterns.{search_one}

abbrev pub name : String
name = "header_injection"

abbrev pub patterns : List String
patterns =
    "%0[dD]%0[aA]" ∷ "\\\\r\\\\n" ∷ "\\r\\n"
    ∷ "(?i)%0d%0a(?:Set-Cookie|Location|Content-Length|Content-Type|Transfer-Encoding|X-):" ∷ []

abbrev pub found : String → String → Result
found input m = record {
  name = name;
  detected = true;
  message = "HTTP header injection pattern detected: CRLF injection or header manipulation";
  severity = high;
  details = ("matched_pattern", str m) ∷ ("input", str input) ∷ [];
}

unfoldable pub detect : Regexp → String → Result
unfolding search_one
detect rx input = search_one rx input patterns (found input) (clean name)
