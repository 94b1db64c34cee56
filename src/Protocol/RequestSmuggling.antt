-- ===== src/Protocol/RequestSmuggling.antt =====
-- protocol/request_smuggling.go: the detector `request_smuggling`.
use security_go.Shared.{String, List, [], ◌∷◌, true}
use security_go.Security.{Result, Regexp, clean, critical, str}
use security_go.Security.Patterns.{search_one}

abbrev pub name : String
name = "request_smuggling"

abbrev pub patterns : List String
patterns =
    "(?i)Transfer-Encoding:\\s*chunked.*\\r\\n.*Content-Length:"
    ∷ "(?i)Transfer-Encoding:\\s*.*,\\s*chunked" ∷ "(?i)Transfer-Encoding\\s*:\\s*chunked"
    ∷ "(?i)Content-Length:\\s*\\d+.*\\r\\n.*Transfer-Encoding:" ∷ "\\x0bTransfer-Encoding" ∷ []

abbrev pub found : String → String → Result
found input m = record {
  name = name;
  detected = true;
  message = "HTTP request smuggling pattern detected: content-length / transfer-encoding conflict";
  severity = critical;
  details = ("matched_pattern", str m) ∷ ("input", str input) ∷ [];
}

unfoldable pub detect : Regexp → String → Result
unfolding search_one
detect rx input = search_one rx input patterns (found input) (clean name)
