-- ===== src/Protocol/Ssrf.antt =====
-- protocol/ssrf.go: the detector `ssrf`.
use security_go.Shared.{String, List, [], ◌∷◌, true}
use security_go.Security.{Result, Regexp, clean, high, str}
use security_go.Security.Patterns.{search_one}

abbrev pub name : String
name = "ssrf"

abbrev pub patterns : List String
patterns =
    "(?i)https?://(?:127\\.|10\\.|172\\.(?:1[6-9]|2\\d|3[01])\\.|192\\.168\\.|169\\.254\\.)"
    ∷ "(?i)https?://localhost" ∷ "(?i)https?://\\[?::1\\]?" ∷ "(?i)https?://0\\.0\\.0\\.0"
    ∷ "(?i)(?:gopher|dict|file|ftp)://" ∷ "(?i)169\\.254\\.169\\.254" ∷ "(?i)/latest/meta-data"
    ∷ "(?i)metadata\\.google\\.internal" ∷ []

abbrev pub found : String → String → Result
found input m = record {
  name = name;
  detected = true;
  message = "SSRF attack pattern detected: internal or restricted URL target";
  severity = high;
  details = ("matched_pattern", str m) ∷ ("input", str input) ∷ [];
}

unfoldable pub detect : Regexp → String → Result
unfolding search_one
detect rx input = search_one rx input patterns (found input) (clean name)
