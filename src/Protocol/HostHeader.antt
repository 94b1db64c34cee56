-- ===== src/Protocol/HostHeader.antt =====
-- protocol/host_header.go: the detector `host_header`.
use security_go.Shared.{String, List, [], ◌∷◌, true}
use security_go.Security.{Result, Regexp, clean, medium, str}
use security_go.Security.Patterns.{search_one}

abbrev pub name : String
name = "host_header"

abbrev pub patterns : List String
patterns =
    "(?i)Host:\\s*.*\\r\\n" ∷ "(?i)X-Forwarded-(?:Host|Server):\\s*"
    ∷ "(?i)X-(?:Original|Rewrite)-URL:\\s*" ∷ []

abbrev pub found : String → String → Result
found input m = record {
  name = name;
  detected = true;
  message = "Host header attack pattern detected: malicious host or forwarding header";
  severity = medium;
  details = ("matched_pattern", str m) ∷ ("input", str input) ∷ [];
}

unfoldable pub detect : Regexp → String → Result
unfolding search_one
detect rx input = search_one rx input patterns (found input) (clean name)
